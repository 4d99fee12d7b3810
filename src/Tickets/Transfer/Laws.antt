-- ===== src/Tickets/Transfer/Laws.antt =====
-- What a transfer leaves.
use cursor_multi_agent.Prelude.{
  String, ◌≡◌, ◌≢◌, ◌⊎◌, Bool, true, false, Option, some, arith, ok, ===_iff, present, truthy, All,
  ◌&&◌, inl, ◌∙◌, ◌===◌, eq_iff, refl, sym, eq_refl, inr,
}
use cursor_multi_agent.Store.{
  Ticket, Db, ticket_key, has_team, update_ticket, create_event, find_ticket, has_pair, add_pair,
}
use cursor_multi_agent.Store.Tables.{update_by, find_by-update_self, All-update_by, All-find_by}
use cursor_multi_agent.Sla.Policy.{SlaTables}
use cursor_multi_agent.Sla.Engine.Laws.{sync-tickets, sync-access}
use cursor_multi_agent.Tickets.Status.Laws.{IsConsistent}
use cursor_multi_agent.Tickets.Assignment.{ensure_follower, log_status}
use cursor_multi_agent.Tickets.Transfer.{
  transferred_row, grant_prior_team, write_transfer, apply_team_transfer_in_tx, may_receive,
  normalize_status_after_transfer, transferred_first_response, transferred_due,
}
use mathlib.Core.Path.{subst}
use mathlib.Core.Option.{some-injective}
use cursor_multi_agent.Store.Pairs.{has_pair-remove, has_pair-add_self}

module _ (tables : SlaTables) where
  transferred_row-IsConsistent :
      (t : Ticket) (team : String) (assignee : Option String)
      → IsConsistent t
      → IsConsistent (transferred_row tables t team assignee t)
  unfolding transferred_row
  transferred_row-IsConsistent t team assignee c = ground arith

  written_tickets :
      (t : Ticket) (team : String) (assignee : Option String) (actor : String) (db : Db)
      → (write_transfer tables t team assignee actor db).tickets
        ≡ update_by ticket_key t.id (transferred_row tables t team assignee) db.tickets
  unfolding write_transfer grant_prior_team log_status create_event update_ticket ensure_follower
  written_tickets t team assignee actor db = rw sync-tickets (ground arith)

  written_access :
      (t : Ticket) (team : String) (assignee : Option String) (actor : String) (db : Db)
      → (write_transfer tables t team assignee actor db).ticket_access
        ≡ (grant_prior_team tables t team db).ticket_access
  unfolding write_transfer grant_prior_team log_status create_event update_ticket ensure_follower
  written_access t team assignee actor db = rw sync-access (ground arith)

  accepted_cases :
      (reject : Bool) (t : Ticket) (team : String) (assignee : Option String) (actor : String)
      (db : Db) {after : Db}
      → apply_team_transfer_in_tx tables reject t team assignee actor db ≡ ok after
      → ((reject ≡ false) × (t.assigned_team_id ≡ some team) × (after ≡ db))
        ⊎ (((present t.assigned_team_id && (t.assigned_team_id === team)) ≡ false)
            × (has_team team db ≡ true)
            × (may_receive tables team assignee db ≡ true)
            × (after ≡ write_transfer tables t team assignee actor db))
  unfolding apply_team_transfer_in_tx
  accepted_cases reject t team assignee actor db h = ground (arith, ===_iff t.assigned_team_id team)

  -- An accepted transfer of a stored ticket keeps every ticket consistent.
  pub apply_transfer-IsConsistent :
      (reject : Bool) (t : Ticket) (team : String) (assignee : Option String) (actor : String)
      (db : Db) {after : Db}
      → find_ticket db t.id ≡ some t
      → apply_team_transfer_in_tx tables reject t team assignee actor db ≡ ok after
      → All IsConsistent db.tickets
      → All IsConsistent after.tickets
  unfolding find_ticket
  apply_transfer-IsConsistent reject t team assignee actor db found h all =
      elim (accepted_cases reject t team assignee actor db h) [
        | inl (_, _, same) ↦ subst (λ d. All IsConsistent d.tickets) (sym same) all
        | inr (_, _, _, written) ↦
            subst (λ d. All IsConsistent d.tickets) (sym written)
              (rw written_tickets (
                All-update_by ticket_key IsConsistent (transferred_row tables t team assignee) t.id
                  db.tickets found
                  (transferred_row-IsConsistent t team assignee
                    (All-find_by ticket_key IsConsistent t.id db.tickets found all))
                  all))
      ]

  granted :
      (t : Ticket) (prior team : String) (db : Db)
      → t.assigned_team_id ≡ some prior
      → truthy prior ≡ true
      → prior ≢ team
      → (has_pair t.id prior (grant_prior_team tables t team db).ticket_access ≡ true)
        × (has_pair t.id team (grant_prior_team tables t team db).ticket_access ≡ false)
  unfolding grant_prior_team
  granted t prior team db at named other =
      let rows = add_pair t.id prior db.ticket_access in
      ground (
        arith,
        eq_iff prior team,
        eq_iff team prior,
        eq_refl t.id,
        eq_refl team,
        eq_refl prior,
        has_pair-remove t.id team t.id prior rows,
        has_pair-remove t.id team t.id team rows,
        has_pair-add_self t.id prior db.ticket_access,
      )

  written_row :
      (t : Ticket) (team : String) (assignee : Option String) (actor : String) (db : Db)
      → find_ticket db t.id ≡ some t
      → find_ticket (write_transfer tables t team assignee actor db) t.id
        ≡ some (transferred_row tables t team assignee t)
  unfolding find_ticket
  written_row t team assignee actor db found = rw written_tickets (
      find_by-update_self ticket_key (transferred_row tables t team assignee)
        (λ r. unfold transferred_row in refl) t.id db.tickets
      ∙ rw found)

  -- An accepted transfer of a stored ticket from one team to another: the target team exists, the
  -- stored row has the team, the assignee that was asked for, the normalised status and the two dates
  -- of the destination's calendar, the prior team has a read grant and the new team none.
  pub transferred_effect :
      (reject : Bool) (t : Ticket) (prior team : String) (assignee : Option String) (actor : String)
      (db : Db) {after : Db}
      → find_ticket db t.id ≡ some t
      → t.assigned_team_id ≡ some prior
      → truthy prior ≡ true
      → prior ≢ team
      → apply_team_transfer_in_tx tables reject t team assignee actor db ≡ ok after
      → (has_team team db ≡ true)
        × (find_ticket after t.id
            ≡ some (record t {
              assigned_team_id = some team;
              assignee_id = assignee;
              status = normalize_status_after_transfer t.status assignee;
              first_response_due_at = some (transferred_first_response tables t team);
              due_at = some (transferred_due tables t team);
            }))
        × (has_pair t.id prior after.ticket_access ≡ true)
        × (has_pair t.id team after.ticket_access ≡ false)
  unfolding transferred_row
  transferred_effect reject t prior team assignee actor db {after} found at named other h =
      elim (accepted_cases reject t team assignee actor db h) [
        | inl (_, same, _) ↦ absurd (other (some-injective prior team (sym at ∙ same)))
        | inr (_, exists, _, written) ↦
            let (kept, dropped) = granted t prior team db at named other in
            (
              exists,
              subst (λ d. find_ticket d t.id ≡ some (transferred_row tables t team assignee t))
                  (sym written) (written_row t team assignee actor db found),
              subst (λ d. has_pair t.id prior d.ticket_access ≡ true) (sym written)
                  (rw written_access kept),
              subst (λ d. has_pair t.id team d.ticket_access ≡ false) (sym written)
                  (rw written_access dropped),
            )
      ]
