-- ===== src/Fields/Stored.antt =====
-- What `setTicketValues` of custom-fields.service.ts leaves in the table of values.
use cursor_multi_agent.Prelude.{
  ◌≡◌, refl, String, true, false, ◌&&◌, Option, none, some, List, [], ◌∷◌, ◌==◌, arith, map,
  includes, ok, Bool-cases, inl, inr, guard, >>=-eq-ok, if◌then◌else◌, eq_iff, ok_injective, sym,
  ap, ◌∙◌, is_empty, forbidden,
}
use mathlib.Core.Path.{subst}
use cursor_multi_agent.Domain.{AuthUser}
use cursor_multi_agent.Access.{AccessTicket, can_write_ticket}
use cursor_multi_agent.Fields.{CustomField, FieldValue, FieldText, forbidden}
use cursor_multi_agent.Fields.Values.{
  StoredValue, upsert_value, upsert_all, set_ticket_values, ValuesWritten,
  validate_and_normalize_values_for_ticket, value_id,
}
use cursor_multi_agent.Fields.Items.{Distinct}
use cursor_multi_agent.Fields.Laws.{validate-IsAccepted}

-- The stored value of a ticket's field; none if there is no row.
pub stored : String → String → List StoredValue → Option (Option String)
stored ticket field [] = none
stored ticket field (row ∷ rows) =
    let rest = stored ticket field rows in
    if (row.ticket_id == ticket) && (row.custom_field_id == field) then some row.value else rest

stored-upsert :
    (ticket t field : String) (item : FieldValue) (rows : List StoredValue)
    → stored t field (upsert_value ticket item rows) ≡ (
        if (ticket == t) && (item.custom_field_id == field)
        then some item.value
        else stored t field rows)
unfolding stored upsert_value
stored-upsert ticket t field item [] = ground arith
stored-upsert ticket t field item (row ∷ rows) = ground (
  arith,
  eq_iff row.ticket_id ticket,
  eq_iff row.ticket_id t,
  eq_iff ticket t,
  eq_iff row.custom_field_id item.custom_field_id,
  eq_iff row.custom_field_id field,
  eq_iff item.custom_field_id field,
  stored-upsert ticket t field item rows,
)

-- The value of a field in a list.
pub listed : String → List FieldValue → Option (Option String)
listed field [] = none
listed field (v ∷ values) =
    let rest = listed field values in if v.custom_field_id == field then some v.value else rest

listed-none :
    (field : String) (values : List FieldValue)
    → includes (map value_id values) field ≡ false
    → listed field values ≡ none
unfolding listed
listed-none field [] h = refl
listed-none field (v ∷ values) h = ground (arith, listed-none field values)

-- `o ?? p` of two rows
abbrev pub first_of : Option (Option String) → Option (Option String) → Option (Option String)
first_of none p = p
first_of (some v) p = some v

stored-upsert_all :
    (ticket t field : String) (values : List FieldValue) (rows : List StoredValue)
    → Distinct (map value_id values)
    → stored t field (upsert_all ticket values rows) ≡ (
        if ticket == t
        then first_of (listed field values) (stored t field rows)
        else stored t field rows)
unfolding upsert_all listed
stored-upsert_all ticket t field [] rows d = ground arith
stored-upsert_all ticket t field (v ∷ values) rows (new, d) =
    stored-upsert_all ticket t field values (upsert_value ticket v rows) d
    ∙ elim (Bool-cases (v.custom_field_id == field)) [
      | inl own ↦
          let alone : listed field values ≡ none = listed-none field values (
            subst (λ id. includes (map value_id values) id ≡ false)
              ((eq_iff v.custom_field_id field).0 own) new) in
          ground (arith, stored-upsert ticket t field v rows)
      | inr other ↦ ground (arith, stored-upsert ticket t field v rows)
    ]

module _ (fns : FieldText) where
  -- A request that is accepted was made by a user who may write to the ticket; it stores for each field
  -- of the ticket the accepted value, if there is one, and leaves every other value, of this ticket and of
  -- others, as it was; and it writes an event exactly if it stores something.
  pub values_stored :
      (id : String) (ticket : AccessTicket) (category : Option String) (payload : List FieldValue)
      (user : AuthUser) (fields : List CustomField) (rows : List StoredValue)
      (written : ValuesWritten)
      → set_ticket_values fns id (some ticket) category payload user fields rows ≡ ok written
      → (can_write_ticket user ticket ≡ true)
        × ((values : List FieldValue) × (validate_and_normalize_values_for_ticket fns fields payload
                ticket.assigned_team_id category false
              ≡ ok values)
            × ((t field : String)
                → stored t field written.rows ≡ (
                    if id == t
                    then first_of (listed field values) (stored t field rows)
                    else stored t field rows))
            × (written.event ≡ (if is_empty values then none else some (map value_id values))))
  unfolding set_ticket_values
  values_stored id ticket category payload user fields rows written h =
      let check =
        validate_and_normalize_values_for_ticket fns fields payload ticket.assigned_team_id category
          false in
      let (may, allowed, later) =
        >>=-eq-ok
          (guard (can_write_ticket user ticket) (forbidden "No write access to this ticket")) _ h in
      let (values, accepted, done) = >>=-eq-ok check _ later in
      let (all, distinct, ids, asked) =
        validate-IsAccepted fns fields payload ticket.assigned_team_id category false values
          accepted in
      let same = ok_injective _ _ done in
      (
        ground arith,
        (
          values,
          accepted,
          (λ t field.
              ap (λ w. stored t field w.rows) (sym same)
              ∙ stored-upsert_all id t field values rows distinct),
          ap (λ w. w.event) (sym same),
        ),
      )
