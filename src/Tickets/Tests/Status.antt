-- ===== src/Tickets/Tests/Status.antt =====
-- The theorems on status transitions at concrete tickets.
use cursor_multi_agent.Prelude.{
  any, ◌+◌, ◌≡◌, refl, true, none, some, [], ◌∷◌, ok, arith, is_ok, ◌⊎◌, ◌-◌,
}
use cursor_multi_agent.Domain.{
  same_status, agent_closed, new, assigned, waiting_on_requester, in_progress, closed,
}
use cursor_multi_agent.Store.{Ticket, Db, find_ticket, ticket_status_changed}
use cursor_multi_agent.Tickets.Status.Laws.{IsConsistent}
use cursor_multi_agent.Tickets.Status.{
  includes_status, write_transition, apply_status_transition_in_tx, transitioned,
  get_available_transitions_for_ticket, default_status_transitions,
}
use cursor_multi_agent.Tickets.Status.Effects.{moved_to, available_iff_accepted, accepted_effect}
use cursor_multi_agent.Tickets.Status.Pause.{pause_extends_due}
use cursor_multi_agent.Tickets.Tests.{tables, laptop, desk, busy, busy_desk, model}

laptop-IsConsistent : IsConsistent laptop
laptop-IsConsistent = ground arith

available_iff_accepted_example :
    includes_status
      (get_available_transitions_for_ticket default_status_transitions new none)
      assigned
    ≡ is_ok (
        apply_status_transition_in_tx tables default_status_transitions 7 laptop assigned "ann" none
          desk)
available_iff_accepted_example =
    available_iff_accepted tables default_status_transitions 7 laptop assigned "ann" none desk refl

abbrev closed_desk : Db
closed_desk = write_transition tables default_status_transitions 7 laptop closed "ann" none desk

closes :
    apply_status_transition_in_tx tables default_status_transitions 7 laptop closed "ann" none desk
    ≡ ok closed_desk
unfolding model
closes = refl

accepted_effect_example :
    ((laptop.status ≡ closed) × (closed_desk ≡ desk))
    ⊎ ((any (λ s. same_status s closed) (default_status_transitions new) ≡ true)
        × (find_ticket closed_desk "t1" ≡ some (moved_to tables 7 closed none laptop))
        × (closed_desk.events
            ≡ record {
              ticket_id = "t1";
              body = ticket_status_changed new closed (some (some agent_closed));
              created_by_id = some "ann";
            }
              ∷ []))
unfolding model
accepted_effect_example =
    accepted_effect tables default_status_transitions 7 laptop closed "ann" none desk refl closes

abbrev waiting : Ticket
waiting = transitioned tables default_status_transitions 1_000 busy waiting_on_requester none busy

abbrev waiting_desk : Db
waiting_desk =
    write_transition tables default_status_transitions 1_000 busy waiting_on_requester "ann" none
      busy_desk

abbrev resumed_desk : Db
resumed_desk =
    write_transition tables default_status_transitions 61_000 waiting in_progress "ann" none
      waiting_desk

pause_extends_due_example :
    (u : Ticket) × (find_ticket resumed_desk "t1" ≡ some u)
    × (u.due_at ≡ some (500_000 + (61_000 - 1_000)))
    × (u.sla_paused_at ≡ none)
unfolding model
pause_extends_due_example =
    pause_extends_due tables default_status_transitions 1_000 61_000 busy waiting
      waiting_on_requester in_progress "ann" "ann" none none busy_desk refl refl refl refl refl
      (omega arith) refl refl refl refl
