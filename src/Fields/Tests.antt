-- ===== src/Fields/Tests.antt =====
-- Requests to custom-fields.service.ts at concrete inputs.
use cursor_multi_agent.Prelude.{
  ◌≡◌, refl, true, none, some, [], ◌∷◌, All, map, List, false, ok, String, if◌then◌else◌, ◌==◌,
  is_empty,
}
use cursor_multi_agent.Domain.{AuthUser, owner}
use cursor_multi_agent.Fields.{
  CustomField, FieldValue, FieldText, dropdown, update_field, UpdateCustomField, items, word,
  find_by, ensure_team_admin_or_owner, List, update_options, false, normalize_selectable_options,
  ok, normalize_each, String, normalize_option, refuse_duplicates, update_by,
  normalize_value_by_field_type, normalize_by_type, option_values, is_empty,
}
use cursor_multi_agent.Fields.Values.{
  set_ticket_values, validate_and_normalize_values_for_ticket, value_id, dedupe_onto, ValuesWritten,
  check_required, value_for, set_value, validate_each, validate_item, check_scope, upsert_all,
  upsert_value,
}
use cursor_multi_agent.Fields.Options.{HasOptions, update_field-HasOptions}
use cursor_multi_agent.Fields.Stored.{stored, listed, values_stored, first_of}
use cursor_multi_agent.Fields.Items.{IsAccepted, Distinct}
use cursor_multi_agent.Fields.Laws.{validate-IsAccepted, Answered}
use cursor_multi_agent.Store.Tables.{find_by, update_by}
use cursor_multi_agent.Access.{AccessTicket, can_write_ticket}

-- Texts with nothing to trim, in lower case, and without commas; every text is a number.
abbrev plain : FieldText
plain = record {
  trim = λ s. s;
  lower = λ s. s;
  as_number = λ s. some s;
  as_date = λ s. none;
  split_commas = λ s. s ∷ [];
  join_commas = λ parts. "";
}

abbrev colour : CustomField
colour = record {
  id = "colour";
  name = "Colour";
  field_type = dropdown;
  options = some (record { value = "red"; label = "Red" } ∷ []);
  is_required = true;
  team_id = some "it";
  category_id = none;
  sort_order = 0;
}

abbrev to_blue : UpdateCustomField
to_blue = record {
  name = none;
  field_type = none;
  options = items (word "blue" ∷ word "green" ∷ []);
  is_required = none;
  team_id = none;
  category_id = none;
  sort_order = none;
}

abbrev the_owner : AuthUser
the_owner = record {
  id = "o";
  role = owner;
  team_id = none;
  primary_team_id = none;
  member_team_ids = none;
}

abbrev blue_field : CustomField
blue_field = record colour {
  options = some (
      record { value = "blue"; label = "blue" } ∷ record { value = "green"; label = "green" } ∷ []);
}

fields_run : Unit {0}
unfolding update_field validate_and_normalize_values_for_ticket set_ticket_values find_by
    ensure_team_admin_or_owner update_options normalize_selectable_options normalize_each
    normalize_option refuse_duplicates update_by check_required value_for dedupe_onto set_value
    validate_each validate_item check_scope normalize_value_by_field_type normalize_by_type
    option_values can_write_ticket upsert_all upsert_value
fields_run = tt

update_field-HasOptions_example : All (HasOptions plain) (blue_field ∷ [])
unfolding fields_run
update_field-HasOptions_example =
    update_field-HasOptions plain "colour" to_blue the_owner (colour ∷ []) refl
      (record { some_option = refl; named = ((refl, refl), tt); distinct = (tt, tt) }, tt)

abbrev red : FieldValue
red = record { custom_field_id = "colour"; value = some "red" }

validate-IsAccepted_example :
    All (IsAccepted plain (colour ∷ []) (some "it") none) (red ∷ [])
    × Distinct (map value_id (red ∷ []))
    × (map value_id (red ∷ []) ≡ map value_id (dedupe_onto [] (red ∷ [])))
    × (true ≡ true → All (Answered plain (some "it") none (map value_id (red ∷ []))) (colour ∷ []))
unfolding fields_run
validate-IsAccepted_example =
    validate-IsAccepted plain (colour ∷ []) (red ∷ []) (some "it") none true (red ∷ []) refl

abbrev the_ticket : AccessTicket
the_ticket = record {
  requester_id = "r";
  assigned_team_id = some "it";
  assignee_id = none;
  access_grants = none;
  deleted_at = none;
}

abbrev red_written : ValuesWritten
red_written = record {
  rows = record { ticket_id = "t"; custom_field_id = "colour"; value = some "red" } ∷ [];
  event = some ("colour" ∷ []);
}

values_stored_example :
    (can_write_ticket the_owner the_ticket ≡ true)
    × ((values : List FieldValue) × (validate_and_normalize_values_for_ticket plain
            (colour ∷ [])
            (red ∷ [])
            (some "it")
            none
            false
          ≡ ok values)
        × ((t field : String)
            → stored t field red_written.rows ≡ (
                if "t" == t
                then first_of (listed field values) (stored t field [])
                else stored t field []))
        × (red_written.event ≡ (if is_empty values then none else some (map value_id values))))
unfolding fields_run
values_stored_example =
    values_stored plain "t" the_ticket none (red ∷ []) the_owner (colour ∷ []) [] red_written refl
