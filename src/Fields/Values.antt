-- ===== src/Fields/Values.antt =====
-- `validateAndNormalizeValuesForTicket` and the transaction of `setTicketValues` in
-- apps/api/src/custom-fields/custom-fields.service.ts.
use cursor_multi_agent.Prelude.{
  String, Bool, true, false, not, ◌&&◌, ◌||◌, Option, none, some, List, [], ◌∷◌, ◌==◌,
  if◌then◌else◌, is_some, is_none, Result, ok, err, guard, ◌>>=◌, ◌>>◌, forbidden, bad_request,
  not_found, is_empty, map,
}
use cursor_multi_agent.Store.Tables.{find_by}
use cursor_multi_agent.Fields.{
  CustomField, FieldValue, FieldText, field_id, normalize_value_by_field_type, AuthUser, not_found,
  is_empty, map,
}
use cursor_multi_agent.Domain.{AuthUser}
use cursor_multi_agent.Access.{can_write_ticket, AccessTicket}

-- `deduped.set(id, value)` of a JavaScript map: an id that is there keeps its place.
unfoldable pub set_value : FieldValue → List FieldValue → List FieldValue
set_value item [] = item ∷ []
set_value item (v ∷ rest) =
    let later = set_value item rest in
    if v.custom_field_id == item.custom_field_id then item ∷ rest else v ∷ later

unfoldable pub dedupe_onto : List FieldValue → List FieldValue → List FieldValue
dedupe_onto deduped [] = deduped
dedupe_onto deduped (item ∷ items) = dedupe_onto (set_value item deduped) items

abbrev pub value_id : FieldValue → String
value_id v = v.custom_field_id

-- `deduped.get(id) ?? null`
unfoldable pub value_for : String → List FieldValue → Option String
value_for id [] = none
value_for id (v ∷ rest) = if v.custom_field_id == id then v.value else value_for id rest

-- `a === b` of two nullable texts
abbrev pub same_text : Option String → Option String → Bool
same_text none none = true
same_text (some a) (some b) = a == b
same_text _ _ = false

-- `{ OR: [{ teamId: null }, { teamId }] }`, and the same for the category
abbrev pub applies_to : Option String → Option String → CustomField → Bool
applies_to team category field =
    (is_none field.team_id || same_text field.team_id team)
    && (is_none field.category_id || same_text field.category_id category)

abbrev pub is_blank : Option String → Bool
is_blank none = true
is_blank (some s) = s == ""

-- The tests on one item, of a field that was found.
unfoldable pub check_scope : CustomField → Option String → Option String → Result (Unit {0})
check_scope field team category =
    guard (is_none field.team_id || same_text field.team_id team)
      (forbidden "Custom field does not apply to this ticket's team")
    >> (guard (is_none field.category_id || is_some category)
          (bad_request "Category-scoped custom field requires the ticket to have a category set")
        >> guard (is_none field.category_id || same_text field.category_id category)
            (forbidden "Custom field does not apply to this ticket's category"))

module _ (fns : FieldText) where
  -- `value == null ? null : String(value).trim()`
  abbrev pub trimmed : Option String → Option String
  trimmed none = none
  trimmed (some s) = some (fns.trim s)

  unfoldable pub check_required :
      List CustomField → Option String → Option String → List FieldValue → Result (Unit {0})
  check_required [] team category deduped = ok tt
  check_required (field ∷ fields) team category deduped =
      let later = check_required fields team category deduped in
      if applies_to team category field
        && (field.is_required && is_blank (trimmed (value_for field.id deduped)))
      then err (bad_request "Required custom field must be provided")
      else later

  unfoldable pub validate_item :
      List CustomField → Option String → Option String → FieldValue → Result FieldValue
  validate_item fields team category item = elim (find_by field_id item.custom_field_id fields) [
    | none ↦ err (bad_request "Unknown custom field")
    | some field ↦
        check_scope field team category
        >> (guard (not (field.is_required && is_blank (trimmed item.value)))
              (bad_request "Required custom field must have a value")
            >> (normalize_value_by_field_type fns field (trimmed item.value) >>= λ value.
                ok (record { custom_field_id = item.custom_field_id; value = value })))
  ]

  unfoldable pub validate_each :
      List CustomField → Option String → Option String → List FieldValue → Result (List FieldValue)
  validate_each fields team category [] = ok []
  validate_each fields team category (item ∷ items) =
      validate_item fields team category item >>= λ value.
      (validate_each fields team category items >>= λ values. ok (value ∷ values))

  unfoldable pub validate_and_normalize_values_for_ticket :
      List CustomField
      → List FieldValue
      → Option String
      → Option String
      → Bool
      → Result (List FieldValue)
  validate_and_normalize_values_for_ticket fields items team category require_all =
      let deduped = dedupe_onto [] items in
      (if require_all then check_required fields team category deduped else ok tt)
      >> validate_each fields team category deduped

-- A row of `CustomFieldValue`.
pub record StoredValue : Type 0 where
  pub ticket_id : String
  pub custom_field_id : String
  pub value : Option String

-- `upsert` on the unique pair of a ticket and a field.
unfoldable pub upsert_value : String → FieldValue → List StoredValue → List StoredValue
upsert_value ticket item [] =
    record { ticket_id = ticket; custom_field_id = item.custom_field_id; value = item.value } ∷ []
upsert_value ticket item (row ∷ rows) =
    let later = upsert_value ticket item rows in
    if (row.ticket_id == ticket) && (row.custom_field_id == item.custom_field_id)
    then record row { value = item.value } ∷ rows
    else row ∷ later

unfoldable pub upsert_all : String → List FieldValue → List StoredValue → List StoredValue
upsert_all ticket [] rows = rows
upsert_all ticket (item ∷ items) rows = upsert_all ticket items (upsert_value ticket item rows)

-- The rows, and the field ids of the ticket event, if one is written.
pub record ValuesWritten : Type 0 where
  pub rows : List StoredValue
  pub event : Option (List String)

module _ (fns : FieldText) where
  unfoldable pub set_ticket_values :
      String
      → Option AccessTicket
      → Option String
      → List FieldValue
      → AuthUser
      → List CustomField
      → List StoredValue
      → Result ValuesWritten
  set_ticket_values id none category payload user fields rows = err (not_found "Ticket not found")
  set_ticket_values id (some ticket) category payload user fields rows =
      guard (can_write_ticket user ticket) (forbidden "No write access to this ticket")
      >> (validate_and_normalize_values_for_ticket fns fields payload ticket.assigned_team_id
            category false
          >>= λ validated. ok (record {
            rows = upsert_all id validated rows;
            event = if is_empty validated then none else some (map value_id validated);
          }))
