-- ===== src/Tickets/Status/Effects.antt =====
-- When a transition is accepted, and what it writes.
use cursor_multi_agent.Prelude.{
  none, ◌+◌, ◌-◌, ℕ, String, ◌≡◌, ◌⊎◌, refl, Bool, true, false, not, ◌&&◌, ◌||◌, Option, some,
  arith, present, All, ok, List, [], ◌∷◌, any, filter, is_ok, ◌∙◌, inl, sym, inr,
}
use cursor_multi_agent.Domain.{
  TicketStatus, TicketCloseReason, same_status, eq_of_same_status, resolved, closed, reopened,
  agent_closed, waiting_on_requester, waiting_on_vendor,
}
use cursor_multi_agent.Store.{
  Ticket, Db, find_ticket, update_ticket, create_event, ticket_key, ticket_status_changed,
}
use mathlib.Core.Path.{subst}
use cursor_multi_agent.Store.Tables.{find_by-update_self, All-update_by, All-find_by}
use cursor_multi_agent.Sla.Policy.{SlaTables, get_sla_config, add_sla_hours}
use cursor_multi_agent.Sla.Engine.Laws.{sync-tickets, sync-events}
use cursor_multi_agent.Tickets.Status.{
  Transitions, default_status_transitions, is_valid_transition, includes_status,
  transition_requires_assignee, get_available_transitions_for_ticket, transitioned,
  write_transition, effective_close_reason, apply_status_transition_in_tx, next_due_date,
  next_paused_at, resumed_due_at,
}
use cursor_multi_agent.Tickets.Status.Laws.{IsConsistent, transitioned-IsConsistent}

any-filter {ℓ} :
    {A : Type ℓ} (p q : A → Bool) (xs : List A) → any p (filter q xs) ≡ any (λ x. q x && p x) xs
any-filter p q [] = refl
any-filter p q (x ∷ xs) = ground (arith, any-filter p q xs)

any_and {ℓ} :
    {A : Type ℓ} (c : Bool) (p : A → Bool) (q : A → Bool) (same : (x : A) → p x ≡ true → q x ≡ c)
    (xs : List A)
    → any (λ x. q x && p x) xs ≡ c && any p xs
any_and c p q same [] = ground arith
any_and c p q same (x ∷ xs) = ground (arith, same x, any_and c p q same xs)

-- The specification of a transition, apart from the code: what becomes of a time that goes with a
-- status, and of one that goes with two,
abbrev pub resolved_then : TicketStatus → ℕ → Option ℕ → Option ℕ
resolved_then resolved now old = some now
resolved_then reopened now old = none
resolved_then _ now old = old

abbrev pub closed_then : TicketStatus → ℕ → Option ℕ → Option ℕ
closed_then closed now old = some now
closed_then reopened now old = none
closed_then _ now old = old

abbrev pub completed_then : TicketStatus → ℕ → Option ℕ → Option ℕ
completed_then resolved now old = some now
completed_then closed now old = some now
completed_then reopened now old = none
completed_then _ now old = old

-- of the close reason, in the row and in the event,
abbrev pub reason_then :
    TicketStatus → Option TicketCloseReason → Option TicketCloseReason → Option TicketCloseReason
reason_then closed none old = some agent_closed
reason_then closed (some given) old = some given
reason_then reopened given old = none
reason_then _ given old = old

abbrev pub reason_told : TicketStatus → Option TicketCloseReason → Option (Option TicketCloseReason)
reason_told closed none = some (some agent_closed)
reason_told closed (some given) = some (some given)
reason_told reopened given = some none
reason_told _ given = none

-- and of the clock, which stands while somebody else is waited for.
abbrev pub waits : TicketStatus → Bool
waits waiting_on_requester = true
waits waiting_on_vendor = true
waits _ = false

abbrev pub paused_then : Bool → Bool → ℕ → Option ℕ → Option ℕ
paused_then false true now old = some now
paused_then true false now old = none
paused_then _ _ now old = old

-- A date moves by the time for which the clock stood.
abbrev pub moved_date : ℕ → Option ℕ → Option ℕ → Option ℕ
moved_date now (some paused) (some due) = some (due + now - paused)
moved_date now _ due = due

abbrev pub due_then : Bool → Bool → ℕ → Option ℕ → Option ℕ → Option ℕ
due_then true false now paused due = moved_date now paused due
due_then _ _ now paused due = due

module _ (tables : SlaTables) where
  -- A reopened ticket is due again from now on, by the policy of its priority and team.
  abbrev pub resolution_then : TicketStatus → ℕ → Ticket → Option ℕ
  resolution_then reopened now t =
      let sla = get_sla_config tables t.priority t.assigned_team_id in
      some
        (add_sla_hours tables now sla.resolution_hours sla.business_hours_only t.assigned_team_id)
  resolution_then to now t = due_then (waits t.status) (waits to) now t.sla_paused_at t.due_at

  -- The row of a ticket after a transition.
  abbrev pub moved_to : ℕ → TicketStatus → Option TicketCloseReason → Ticket → Ticket
  moved_to now to reason t = record t {
    status = to;
    resolved_at = resolved_then to now t.resolved_at;
    closed_at = closed_then to now t.closed_at;
    completed_at = completed_then to now t.completed_at;
    close_reason = reason_then to reason t.close_reason;
    sla_paused_at = paused_then (waits t.status) (waits to) now t.sla_paused_at;
    due_at = resolution_then to now t;
  }

reason_lem :
    (to : TicketStatus) (reason : Option TicketCloseReason)
    → effective_close_reason to reason ≡ reason_told to reason
unfolding effective_close_reason
reason_lem to reason = ground arith

module _ (tables : SlaTables) (table : Transitions) where
  room :
      (to s : TicketStatus)
      → same_status s to ≡ true
      → not (transition_requires_assignee s) ≡ not (transition_requires_assignee to)
  room to s h = ground arith

  available_lem :
      (assignee : Option String) (from to : TicketStatus)
      → includes_status (get_available_transitions_for_ticket table from assignee) to
        ≡ (present assignee || not (transition_requires_assignee to))
          && includes_status (table from) to
  unfolding get_available_transitions_for_ticket
  available_lem assignee from to = ground (
    arith,
    any-filter (λ s. same_status s to) (λ s. not (transition_requires_assignee s)) (table from),
    any_and (not (transition_requires_assignee to)) (λ s. same_status s to)
        (λ s. not (transition_requires_assignee s)) (room to) (table from),
  )

  -- For a status other than the ticket's own: the transitions listed for the ticket are exactly those
  -- that are accepted, whatever the table, the actor, the close reason and the time.
  pub available_iff_accepted :
      (now : ℕ) (t : Ticket) (to : TicketStatus) (actor : String)
      (reason : Option TicketCloseReason) (db : Db)
      → same_status t.status to ≡ false
      → includes_status (get_available_transitions_for_ticket table t.status t.assignee_id) to
        ≡ is_ok (apply_status_transition_in_tx tables table now t to actor reason db)
  unfolding apply_status_transition_in_tx is_valid_transition
  available_iff_accepted now t to actor reason db moved =
      ground (arith, available_lem t.assignee_id t.status to)

  transitioned-keeps :
      (now : ℕ) (t : Ticket) (to : TicketStatus) (reason : Option TicketCloseReason) (row : Ticket)
      → ticket_key (transitioned tables table now t to reason row) ≡ ticket_key row
  unfolding transitioned
  transitioned-keeps now t to reason row = refl

  pub written_row :
      (now : ℕ) (t : Ticket) (to : TicketStatus) (actor : String)
      (reason : Option TicketCloseReason) (db : Db)
      → find_ticket db t.id ≡ some t
      → find_ticket (write_transition tables table now t to actor reason db) t.id
        ≡ some (transitioned tables table now t to reason t)
  unfolding find_ticket write_transition create_event update_ticket
  written_row now t to actor reason db found = rw sync-tickets (
      find_by-update_self ticket_key (transitioned tables table now t to reason)
        (transitioned-keeps now t to reason) t.id db.tickets
      ∙ rw found)

  written_events :
      (now : ℕ) (t : Ticket) (to : TicketStatus) (actor : String)
      (reason : Option TicketCloseReason) (db : Db)
      → (write_transition tables table now t to actor reason db).events
        ≡ record {
          ticket_id = t.id;
          body = ticket_status_changed t.status to (effective_close_reason to reason);
          created_by_id = some actor;
        }
          ∷ db.events
  unfolding write_transition create_event update_ticket
  written_events now t to actor reason db = rw sync-events

  pub accepted_cases :
      (now : ℕ) (t : Ticket) (to : TicketStatus) (actor : String)
      (reason : Option TicketCloseReason) (db : Db) {after : Db}
      → apply_status_transition_in_tx tables table now t to actor reason db ≡ ok after
      → (after ≡ db)
        ⊎ ((is_valid_transition table t.status to ≡ true)
            × (same_status t.status to ≡ false)
            × ((transition_requires_assignee to && not (present t.assignee_id)) ≡ false)
            × (after ≡ write_transition tables table now t to actor reason db))
  unfolding apply_status_transition_in_tx
  accepted_cases now t to actor reason db h = ground arith

  pub moved_lem :
      (now : ℕ) (t : Ticket) (to : TicketStatus) (reason : Option TicketCloseReason)
      → transitioned tables table now t to reason t ≡ moved_to tables now to reason t
  unfolding transitioned next_due_date next_paused_at effective_close_reason resumed_due_at
  moved_lem now t to reason = ground arith

  -- An accepted transition of a stored ticket either was to the ticket's own status and changed
  -- nothing; or it is in the table, left one new event, which tells of it, and of the row the new status,
  -- the times and the close reason that go with it, and the clock: it stands from now on if the ticket
  -- comes to wait for somebody; if it no longer does, the clock runs and the due date has moved by the
  -- time that it stood; a reopened ticket is due again from now on. The rest of the row is as it was.
  pub accepted_effect :
      (now : ℕ) (t : Ticket) (to : TicketStatus) (actor : String)
      (reason : Option TicketCloseReason) (db : Db) {after : Db}
      → find_ticket db t.id ≡ some t
      → apply_status_transition_in_tx tables table now t to actor reason db ≡ ok after
      → ((t.status ≡ to) × (after ≡ db))
        ⊎ ((any (λ s. same_status s to) (table t.status) ≡ true)
            × (find_ticket after t.id ≡ some (moved_to tables now to reason t))
            × (after.events
                ≡ record {
                  ticket_id = t.id;
                  body = ticket_status_changed t.status to (reason_told to reason);
                  created_by_id = some actor;
                }
                  ∷ db.events))
  unfolding apply_status_transition_in_tx is_valid_transition
  accepted_effect now t to actor reason db found h = ground (
    arith,
    eq_of_same_status t.status to,
    written_row now t to actor reason db found,
    written_events now t to actor reason db,
    moved_lem now t to reason,
    reason_lem to reason,
  )

module _ (tables : SlaTables) where
  written-IsConsistent :
      (now : ℕ) (t : Ticket) (to : TicketStatus) (actor : String)
      (reason : Option TicketCloseReason) (db : Db)
      → find_ticket db t.id ≡ some t
      → is_valid_transition default_status_transitions t.status to ≡ true
      → same_status t.status to ≡ false
      → (transition_requires_assignee to && not (present t.assignee_id)) ≡ false
      → All IsConsistent db.tickets
      → All IsConsistent
          (write_transition tables default_status_transitions now t to actor reason db).tickets
  unfolding write_transition create_event update_ticket find_ticket
  written-IsConsistent now t to actor reason db found valid moved free all = rw sync-tickets (
      All-update_by ticket_key IsConsistent
        (transitioned tables default_status_transitions now t to reason) t.id db.tickets found
        (transitioned-IsConsistent tables now t to reason valid free moved
          (All-find_by ticket_key IsConsistent t.id db.tickets found all))
        all)

  -- With the default table, an accepted transition of a stored ticket keeps every ticket consistent.
  pub apply-IsConsistent :
      (now : ℕ) (t : Ticket) (to : TicketStatus) (actor : String)
      (reason : Option TicketCloseReason) (db : Db) {after : Db}
      → find_ticket db t.id ≡ some t
      → apply_status_transition_in_tx tables default_status_transitions now t to actor reason db
        ≡ ok after
      → All IsConsistent db.tickets
      → All IsConsistent after.tickets
  apply-IsConsistent now t to actor reason db found h all =
      elim (accepted_cases tables default_status_transitions now t to actor reason db h) [
        | inl same ↦ subst (λ d. All IsConsistent d.tickets) (sym same) all
        | inr (valid, moved, free, written) ↦
            subst (λ d. All IsConsistent d.tickets) (sym written)
              (written-IsConsistent now t to actor reason db found valid moved free all)
      ]
