-- ===== src/Tickets/Creation/Laws.antt =====
-- What an accepted creation leaves.
use cursor_multi_agent.Prelude.{
  String, ◌≡◌, List, ◌∷◌, arith, ok, or_else, eq_refl, ap, true, sym, some, ok_injective, Result,
  guard, ◌∙◌, not, ◌>>◌, ◌>>=◌, err, ◌&&◌, ◌==◌, refl, forbidden, [], ◌++◌, if◌then◌else◌, present,
  Option, truthy,
}
use cursor_multi_agent.Domain.{AuthUser, is_employee, assigned, new}
use cursor_multi_agent.Store.{
  Ticket, Db, update_ticket, create_event, find_ticket, SlaInstance, has_pair, instance_key,
}
use cursor_multi_agent.Store.Tables.{update_by, find_by}
use cursor_multi_agent.Sla.Engine.{sync_from_ticket, upsert_instance, SyncOptions}
use cursor_multi_agent.Sla.Engine.Laws.{sync-tickets, Mirrors, sync-Mirrors}
use cursor_multi_agent.Fields.{FieldValue}
use cursor_multi_agent.Tickets.Assignment.{ensure_follower}
use cursor_multi_agent.Tickets.Creation.{
  policy_of, CreateTicket, Setting, Desk, Inserted, create_ticket, write_creation, write_ticket,
  save_ticket, target_tags, creation_target, target_team, check_assignee, dated, log_assignment,
  follow_assignee, validate_and_normalize_values_for_ticket, add_sla_hours, policy_of, new_ticket,
  inserted_row, RouteTarget,
}
use cursor_multi_agent.Store.Pairs.{has_pair-add, has_pair-add_self}
use cursor_multi_agent.Fields.Values.{validate_and_normalize_values_for_ticket}
use cursor_multi_agent.Sla.Policy.{add_sla_hours}
use mathlib.Core.Path.{subst}
use mathlib.Core.Option.{some-injective}
use cursor_multi_agent.Routing.Rules.{RouteTarget}
use cursor_multi_agent.Tickets.Creation.Members.{assignee-has_pair}

three_checks :
    {A B : Type 0} (first second : Result (Unit {0})) (third : Result A) (make : A → B) {last : B}
    → (first >> (second >> (third >>= λ a. ok (make a)))) ≡ ok last
    → (second ≡ ok tt) × (a : A) × (third ≡ ok a) × (last ≡ make a)
three_checks (err e) second third make h = cc
three_checks (ok done) (err e) third make h = cc
three_checks (ok done) (ok passed) (err e) make h = cc
three_checks (ok done) (ok passed) (ok a) make h = (refl, a, refl, sym (ok_injective _ _ h))

-- The tests that an accepted creation passed, and what it wrote.
module _ (setting : Setting) where
  pub creation_cases :
      (payload : CreateTicket) (inserted : Inserted) (user : AuthUser) (desk : Desk) {after : Desk}
      {tags : List String}
      → create_ticket setting payload inserted user desk ≡ ok (after, tags)
      → let requester = or_else payload.requester_id user.id in
        let target = creation_target setting payload requester desk.db in
        (check_assignee payload inserted (target_team target) user desk.db ≡ ok tt)
        × (validated : List FieldValue) × (after
            ≡ write_creation setting payload inserted user requester target validated desk)
  unfolding create_ticket
  creation_cases payload inserted user desk {after} {tags} h =
      let requester = or_else payload.requester_id user.id in
      let target = creation_target setting payload requester desk.db in
      let (passed, validated, _, written) =
        three_checks
          (guard (not (is_employee user.role && not (requester == user.id)))
            (forbidden "Requesters can only create their own tickets"))
          (check_assignee payload inserted (target_team target) user desk.db)
          (validate_and_normalize_values_for_ticket setting.texts setting.fields
            (or_else payload.custom_field_values []) (target_team target) payload.category_id
            (not inserted.skip_required_custom_fields))
          (λ validated. (
            write_creation setting payload inserted user requester target validated desk,
            or_else payload.tags [] ++ target_tags target,
          ))
          {last = (after, tags)} h in
      (passed, validated, ap (λ p. p.0) written)

  sync-followers :
      (id : String) (options : SyncOptions) (db : Db)
      → (sync_from_ticket setting.sla id options db).followers ≡ db.followers
  unfolding sync_from_ticket upsert_instance
  sync-followers id options db = ground arith

  saved_tickets :
      (t : Ticket) (actor : String) (db : Db)
      → (save_ticket setting t actor db).tickets ≡ dated setting t t ∷ db.tickets
  unfolding save_ticket update_ticket create_event ensure_follower log_assignment follow_assignee
      update_by
  saved_tickets t actor db = ground (arith, eq_refl t.id)

  saved_ticket :
      (t : Ticket) (actor : String) (db : Db)
      → find_ticket (save_ticket setting t actor db) t.id ≡ some (dated setting t t)
  unfolding find_ticket find_by dated
  saved_ticket t actor db = rw (saved_tickets, eq_refl t.id)

  pub written_tickets :
      (t : Ticket) (actor : String) (db : Db)
      → (write_ticket setting t actor db).tickets ≡ dated setting t t ∷ db.tickets
  unfolding write_ticket
  written_tickets t actor db = sync-tickets setting.sla t.id _ _ ∙ saved_tickets t actor db

  written_ticket :
      (t : Ticket) (actor : String) (db : Db)
      → find_ticket (write_ticket setting t actor db) t.id ≡ some (dated setting t t)
  unfolding find_ticket find_by dated
  written_ticket t actor db = rw (written_tickets, eq_refl t.id)

  written-Mirrors :
      (t : Ticket) (actor : String) (db : Db)
      → (i : SlaInstance) × (find_by instance_key t.id
            (write_ticket setting t actor db).sla_instances
          ≡ some i)
        × Mirrors (dated setting t t) i
  unfolding write_ticket
  written-Mirrors t actor db =
      let (i, row, mirrors, _) = sync-Mirrors setting.sla _ t.id _ (saved_ticket t actor db) in
      (i, row, mirrors)

  written_follower :
      (t : Ticket) (actor : String) (db : Db)
      → has_pair t.id t.requester_id (write_ticket setting t actor db).followers ≡ true
  unfolding write_ticket save_ticket ensure_follower follow_assignee
  written_follower t actor db = rw sync-followers (grind (arith, has_pair-add, has_pair-add_self))

-- A row is the new ticket of a requester: it is stored before the rest, ASSIGNED if it has an assignee
-- and NEW otherwise, due when the policy of its priority and team says; its requester follows it; and
-- its instance row mirrors it.
pub record IsNewTicket (setting : Setting) (inserted : Inserted) (requester : String)
    (before after : Db) (row : Ticket) : Type 0 where
  pub added : after.tickets ≡ row ∷ before.tickets
  pub stored : find_ticket after inserted.id ≡ some row
  pub requested : row.requester_id ≡ requester
  pub status_of : row.status ≡ (if present row.assignee_id then assigned else new)
  pub first_response_due :
      row.first_response_due_at
      ≡ some (
          add_sla_hours setting.sla inserted.created_at
            (policy_of setting row).first_response_hours
            (policy_of setting row).business_hours_only
            row.assigned_team_id)
  pub resolution_due :
      row.due_at
      ≡ some (
          add_sla_hours setting.sla inserted.created_at
            (policy_of setting row).resolution_hours
            (policy_of setting row).business_hours_only
            row.assigned_team_id)
  pub followed : has_pair inserted.id requester after.followers ≡ true
  pub mirrored :
      (i : SlaInstance) × (find_by instance_key inserted.id after.sla_instances ≡ some i)
      × Mirrors row i

module _ (setting : Setting) where
  new-IsNewTicket :
      (payload : CreateTicket) (inserted : Inserted) (requester actor : String)
      (target : Option RouteTarget) (desk : Desk)
      → let t = new_ticket setting payload inserted requester target desk in
        IsNewTicket setting inserted requester desk.db
          (write_ticket setting t actor desk.db)
          (dated setting t t)
  unfolding new_ticket inserted_row dated
  new-IsNewTicket payload inserted requester actor target desk =
      let t = new_ticket setting payload inserted requester target desk in
      record {
        added = written_tickets setting t actor desk.db;
        stored = written_ticket setting t actor desk.db;
        requested = refl;
        status_of = refl;
        first_response_due = refl;
        resolution_due = refl;
        followed = written_follower setting t actor desk.db;
        mirrored = written-Mirrors setting t actor desk.db;
      }

  -- An accepted creation adds one row and leaves the other tickets: it is stored under the new id,
  -- its requester is the one named or else the user, it is ASSIGNED if it has an assignee and NEW
  -- otherwise, both dates are those of the policy of its priority and team counted from the
  -- creation, its requester follows it, and it has an instance row that mirrors it.
  pub created_ticket :
      (payload : CreateTicket) (inserted : Inserted) (user : AuthUser) (desk : Desk) {after : Desk}
      {tags : List String}
      → create_ticket setting payload inserted user desk ≡ ok (after, tags)
      → (row : Ticket) × IsNewTicket setting inserted
          (or_else payload.requester_id user.id)
          desk.db
          after.db
          row
  unfolding write_creation
  created_ticket payload inserted user desk h =
      let requester = or_else payload.requester_id user.id in
      let target = creation_target setting payload requester desk.db in
      let (_, _, written) = creation_cases setting payload inserted user desk h in
      let t = new_ticket setting payload inserted requester target desk in
      (
        dated setting t t,
        subst (λ d. IsNewTicket setting inserted requester desk.db d.db (dated setting t t))
            (sym written) (new-IsNewTicket payload inserted requester user.id target desk),
      )

  -- Whoever an accepted creation assigns the new ticket to is a member of the team that the ticket
  -- has: the one whom the request names, the one whom a routing rule names, or the next in turn.
  pub created_member :
      (payload : CreateTicket) (inserted : Inserted) (user : AuthUser) (desk : Desk) {after : Desk}
      {tags : List String} {row : Ticket} {who : String}
      → create_ticket setting payload inserted user desk ≡ ok (after, tags)
      → find_ticket after.db inserted.id ≡ some row
      → row.assignee_id ≡ some who
      → truthy who ≡ true
      → has_pair (or_else row.assigned_team_id "") who desk.db.team_members ≡ true
  unfolding write_creation new_ticket inserted_row dated
  created_member payload inserted user desk {after} {tags} {row} {who} h found given id =
      let requester = or_else payload.requester_id user.id in
      let target = creation_target setting payload requester desk.db in
      let (passed, _, written) = creation_cases setting payload inserted user desk h in
      let t = new_ticket setting payload inserted requester target desk in
      let same : dated setting t t ≡ row = some-injective (dated setting t t) row (
        sym (written_ticket setting t user.id desk.db)
        ∙ ap (λ d. find_ticket d.db inserted.id) (sym written)
        ∙ found) in
      subst (λ r. has_pair (or_else r.assigned_team_id "") who desk.db.team_members ≡ true) same
        (assignee-has_pair setting payload inserted requester user desk target refl passed
          (ap (λ r. r.assignee_id) same ∙ given) id)
