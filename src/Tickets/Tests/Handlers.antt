-- ===== src/Tickets/Tests/Handlers.antt =====
-- The theorems on the handlers of tickets at concrete requests.
use cursor_multi_agent.Prelude.{
  ◌≡◌, refl, true, none, some, [], ◌∷◌, ok, arith, is_ok, String, ◌≢◌, eq_iff, inr,
}
use cursor_multi_agent.Domain.{closed, sev3, requester_cancelled, reopened}
use cursor_multi_agent.Store.{Ticket, Db, find_ticket, SlaInstance, BreachType}
use cursor_multi_agent.Tickets.Status.Laws.{IsConsistent}
use cursor_multi_agent.Tickets.Status.{
  write_transition, apply_status_transition_in_tx, default_status_transitions,
}
use cursor_multi_agent.Access.{can_view_ticket}
use cursor_multi_agent.Tickets.Assignment.{write_assignee, apply_assignee_in_tx, assign}
use cursor_multi_agent.Tickets.Transfer.{write_transfer, apply_team_transfer_in_tx}
use cursor_multi_agent.Tickets.Transition.{transition}
use cursor_multi_agent.Tickets.Removal.{write_deletion, soft_delete}
use cursor_multi_agent.Tickets.Tests.{tables, laptop, desk, eve, boss, ann, model}
use cursor_multi_agent.Tickets.Transfer.Visibility.{Serves, with_grants, prior_team_still_views}
use cursor_multi_agent.Tickets.Removal.Laws.{assign_ignores_deletion}
use cursor_multi_agent.Tickets.Requests.Handlers.{IsWellFormed}
use cursor_multi_agent.Tickets.Requests.Races.{assign_after_stale_read}
use cursor_multi_agent.Sla.Breach.{WorkerConfig, should_breach}
use cursor_multi_agent.Sla.Breach.Worker.{due_instances, handle_instance}
use cursor_multi_agent.Sla.Breach.Marks.{IsBreached}
use cursor_multi_agent.Tickets.Removal.Breaches.{deleted_still-IsBreached}

laptop-IsConsistent : IsConsistent laptop
laptop-IsConsistent = ground arith

-- The requester cancels.
abbrev cancelled_desk : Db
cancelled_desk =
    write_transition tables default_status_transitions 9 laptop closed "eve"
      (some requester_cancelled) desk

cancels :
    transition tables default_status_transitions 9 "t1" closed eve desk
    ≡ ok (cancelled_desk, reopened ∷ [])
unfolding model
cancels = refl

abbrev taken_desk : Db
taken_desk = write_assignee laptop "ann" "boss" desk

takes : apply_assignee_in_tx laptop "ann" "boss" desk ≡ ok taken_desk
unfolding model
takes = refl

abbrev moved_desk : Db
moved_desk = write_transfer tables laptop "hr" none "boss" desk

moves : apply_team_transfer_in_tx tables true laptop "hr" none "boss" desk ≡ ok moved_desk
unfolding model
moves = refl

it_not_hr : ◌≢◌ {A = String} "it" "hr"
it_not_hr = ground (arith, eq_iff "it" "hr")

ann-Serves : Serves ann "it"
unfolding model
ann-Serves = inr (refl, refl, refl)

prior_team_still_views_example :
    (row : Ticket) × (find_ticket moved_desk "t1" ≡ some row)
    × (row.assigned_team_id ≡ some "hr")
    × (can_view_ticket ann (with_grants moved_desk row) ≡ true)
unfolding model
prior_team_still_views_example =
    prior_team_still_views tables true laptop "it" "hr" none "boss" desk ann refl refl refl
      it_not_hr refl moves ann-Serves

abbrev emptied_desk : Db
emptied_desk = write_deletion 9 laptop "boss" desk

deletes : soft_delete 9 "t1" boss desk ≡ ok emptied_desk
unfolding model
deletes = refl

assign_ignores_deletion_example :
    is_ok (assign "t1" (some "ann") boss emptied_desk) ≡ is_ok (assign "t1" (some "ann") boss desk)
assign_ignores_deletion_example = assign_ignores_deletion 9 "t1" boss boss desk (some "ann") deletes

-- The assignment of a deleted ticket is accepted.
assigns_deleted : is_ok (assign "t1" (some "ann") boss emptied_desk) ≡ true
unfolding model
assigns_deleted = refl

pub desk-IsWellFormed : IsWellFormed desk
unfolding model
desk-IsWellFormed = record { tickets_ok = (laptop-IsConsistent, tt); named = refl }

abbrev closed_desk : Db
closed_desk = write_transition tables default_status_transitions 7 laptop closed "boss" none desk

closes :
    apply_status_transition_in_tx tables default_status_transitions 7 laptop closed "boss" none desk
    ≡ ok closed_desk
unfolding model
closes = refl

takes_closed :
    apply_assignee_in_tx laptop "ann" "ann" closed_desk
    ≡ ok (write_assignee laptop "ann" "ann" closed_desk)
unfolding model
takes_closed = refl

assign_after_stale_read_example :
    (row : Ticket) × (find_ticket (write_assignee laptop "ann" "ann" closed_desk) "t1" ≡ some row)
    × (¬ IsConsistent row)
unfolding model
assign_after_stale_read_example =
    assign_after_stale_read tables default_status_transitions 7 laptop "ann" "ann" "boss" none desk
      refl refl closes takes_closed

abbrev overdue_clock : SlaInstance
overdue_clock = record {
  ticket_id = "t1";
  policy_config_id = none;
  priority = sev3;
  first_response_due_at = some 90;
  resolution_due_at = some 500_000;
  paused_at = none;
  next_due_at = some 90;
  first_response_at_risk_notified_at = none;
  resolution_at_risk_notified_at = none;
  first_response_breached_at = none;
  resolution_breached_at = none;
}

abbrev overdue_desk : Db
overdue_desk = record desk {
  tickets = record laptop { first_response_due_at = some 90 } ∷ [];
  sla_instances = overdue_clock ∷ [];
}

abbrev silent_worker : WorkerConfig
silent_worker = record {
  at_risk_threshold_ms = 0;
  priority_bump_enabled = true;
  on_call_emails = [];
  members = [];
  batch_size = 100;
}

deleted_still-IsBreached_example :
    let after =
      write_deletion 80 (record laptop { first_response_due_at = some 90 }) "boss" overdue_desk in
    (due_instances silent_worker 95 after ≡ due_instances silent_worker 95 overdue_desk)
    × (gone : Ticket) × (find_ticket after "t1" ≡ some gone)
    × (gone.deleted_at ≡ some 80)
    × IsBreached BreachType.first_response "t1" 95
        (handle_instance silent_worker 95 overdue_clock gone
          (record { db = after; intents = [] })).db
unfolding model should_breach
deleted_still-IsBreached_example =
    deleted_still-IsBreached silent_worker 80 95 "t1" boss overdue_desk refl refl refl refl refl
