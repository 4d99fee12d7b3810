-- ===== src/Fields.antt =====
-- Custom fields of tickets: apps/api/src/custom-fields/custom-fields.service.ts, the handlers that write
-- and the validation of values. Texts of errors leave out the names that the source puts in.
pub mod Values
pub mod Options
pub mod Items
pub mod Laws
pub mod Stored
mod Tests
use cursor_multi_agent.Prelude.{
  ℕ, String, Bool, true, false, ◌&&◌, ◌||◌, Option, none, some, List, [], ◌∷◌, ◌==◌, filter, map,
  if◌then◌else◌, is_empty, truthy, includes, ◌===◌, or_else, Result, ok, err, guard, ◌>>=◌, ◌>>◌,
  forbidden, bad_request, or_option, is_some, find, not, not_found,
}
use cursor_multi_agent.Domain.{AuthUser, is_owner, is_team_admin}
use cursor_multi_agent.Store.Tables.{find_by, update_by}

pub data FieldType : Type 0 where
  text textarea number dropdown multiselect date checkbox user_reference : FieldType

pub record FieldOption : Type 0 where
  pub value : String
  pub label : String

pub record CustomField : Type 0 where
  pub id : String
  pub name : String
  pub field_type : FieldType
  pub options : Option (List FieldOption)
  pub is_required : Bool
  pub team_id : Option String
  pub category_id : Option String
  pub sort_order : ℕ

pub record FieldValue : Type 0 where
  pub custom_field_id : String
  pub value : Option String

-- The string functions that the service calls: `trim`, `toLowerCase`, `String(Number(s))` unless it is
-- NaN, the date of `new Date(s)` unless it is invalid, `split(',')` and `join(',')`.
pub record FieldText : Type 0 where
  pub trim : String → String
  pub lower : String → String
  pub as_number : String → Option String
  pub as_date : String → Option String
  pub split_commas : String → List String
  pub join_commas : List String → String

-- `toOptionText` of a field of an option: a number or a Boolean is the text that `String` gives.
pub data RawText : Type 0 where
  absent other : RawText
  primitive : String → RawText

pub data RawOption : Type 0 where
  word : String → RawOption
  entry : RawText → RawText → RawOption
  invalid : RawOption

-- `options` of a request: left out, a list, or another value (null included).
pub data RawOptions : Type 0 where
  undefined not_a_list null : RawOptions
  items : List RawOption → RawOptions

abbrev pub is_selectable_field_type : FieldType → Bool
is_selectable_field_type dropdown = true
is_selectable_field_type multiselect = true
is_selectable_field_type _ = false

abbrev pub option_text : RawText → String
option_text (primitive s) = s
option_text _ = ""

-- `a ?? b`
abbrev pub first_text : RawText → RawText → RawText
first_text absent b = b
first_text a b = a

unfoldable pub ensure_team_admin_or_owner : AuthUser → Option String → Result (Unit {0})
ensure_team_admin_or_owner user none =
    guard (is_owner user.role) (forbidden "Owner access required")
ensure_team_admin_or_owner user (some team) =
    guard (is_owner user.role || (is_team_admin user.role && (user.primary_team_id === team)))
      (forbidden "Team admin or owner access required")

-- `normalizeValueByFieldType`
unfoldable pub option_values : CustomField → List String
option_values field = map (λ o. o.value) (or_else field.options [])

abbrev pub all_allowed : List String → List String → Bool
all_allowed allowed [] = true
all_allowed allowed (part ∷ rest) = includes allowed part && all_allowed allowed rest

abbrev pub with_error : Option String → String → Result (Option String)
with_error none message = err (bad_request message)
with_error (some s) message = ok (some s)

module _ (fns : FieldText) where
  unfoldable pub normalize_option : RawOption → Result FieldOption
  normalize_option (word s) =
      let value = fns.trim s in
      guard (truthy value) (bad_request "Option cannot be empty")
      >> ok (record { value = value; label = value })
  normalize_option (entry raw_value raw_label) =
      let value = fns.trim (option_text (first_text raw_value raw_label)) in
      let label = fns.trim (option_text (first_text raw_label raw_value)) in
      guard (truthy value) (bad_request "Option value is required")
      >> (guard (truthy label) (bad_request "Option label is required")
          >> ok (record { value = value; label = label }))
  normalize_option invalid = err (bad_request "Option is invalid")

  unfoldable pub normalize_each : List RawOption → Result (List FieldOption)
  normalize_each [] = ok []
  normalize_each (raw ∷ rest) =
      normalize_option raw >>= λ option. (normalize_each rest >>= λ options. ok (option ∷ options))

  unfoldable pub refuse_duplicates : List String → List FieldOption → Result (Unit {0})
  refuse_duplicates seen [] = ok tt
  refuse_duplicates seen (option ∷ rest) =
      let later = refuse_duplicates (fns.lower option.value ∷ seen) rest in
      if includes seen (fns.lower option.value)
      then err (bad_request "Duplicate option value is not allowed")
      else later

  unfoldable pub normalize_selectable_options : RawOptions → Result (List FieldOption)
  normalize_selectable_options (items raws) =
      if is_empty raws
      then err (bad_request "at least one option is required")
      else (normalize_each raws >>= λ options. (refuse_duplicates [] options >> ok options))
  normalize_selectable_options _ = err (bad_request "at least one option is required")

  abbrev pub parts_of : String → List String
  parts_of value = filter truthy (map fns.trim (fns.split_commas value))

  abbrev pub is_checked : String → Bool
  is_checked s = s == "true" || s == "1" || fns.lower s == "yes"

  unfoldable pub normalize_by_type : FieldType → List String → String → Result (Option String)
  normalize_by_type number allowed s = with_error (fns.as_number s) "must be a number"
  normalize_by_type date allowed s = with_error (fns.as_date s) "must be a valid date"
  normalize_by_type checkbox allowed s = ok (some (if is_checked s then "true" else "false"))
  normalize_by_type dropdown allowed s =
      if includes allowed s
      then ok (some s)
      else err (bad_request "value is not in allowed options")
  normalize_by_type multiselect allowed s =
      if all_allowed allowed (parts_of s)
      then ok (some (fns.join_commas (parts_of s)))
      else err (bad_request "value is not in allowed options")
  normalize_by_type user_reference allowed s = ok (some s)
  normalize_by_type text allowed s = ok (some s)
  normalize_by_type textarea allowed s = ok (some s)

  unfoldable pub normalize_value_by_field_type :
      CustomField → Option String → Result (Option String)
  normalize_value_by_field_type field none = ok none
  normalize_value_by_field_type field (some s) =
      if s == "" then ok none else normalize_by_type field.field_type (option_values field) s

-- `none` is left out of the request; `some none` is a null.
pub record CreateCustomField : Type 0 where
  pub name : String
  pub field_type : FieldType
  pub options : RawOptions
  pub is_required : Option Bool
  pub team_id : Option String
  pub category_id : Option String
  pub sort_order : Option ℕ

pub record UpdateCustomField : Type 0 where
  pub name : Option String
  pub field_type : Option FieldType
  pub options : RawOptions
  pub is_required : Option Bool
  pub team_id : Option (Option String)
  pub category_id : Option (Option String)
  pub sort_order : Option ℕ

abbrev pub is_undefined : RawOptions → Bool
is_undefined undefined = true
is_undefined _ = false

abbrev pub is_nullish : RawOptions → Bool
is_nullish undefined = true
is_nullish null = true
is_nullish _ = false

abbrev pub field_id : CustomField → String
field_id f = f.id

abbrev pub created_field :
    String → CreateCustomField → Option String → Option (List FieldOption) → CustomField
created_field id dto team_id options = record {
  id = id;
  name = dto.name;
  field_type = dto.field_type;
  options = options;
  is_required = or_else dto.is_required false;
  team_id = team_id;
  category_id = dto.category_id;
  sort_order = or_else dto.sort_order 0;
}

abbrev pub create_team : CreateCustomField → AuthUser → Option String
create_team dto user =
    if is_team_admin user.role then or_option dto.team_id user.primary_team_id else dto.team_id

abbrev pub updated_field : UpdateCustomField → Option (List FieldOption) → CustomField → CustomField
updated_field dto options f = record f {
  name = or_else dto.name f.name;
  field_type = or_else dto.field_type f.field_type;
  options = options;
  is_required = or_else dto.is_required f.is_required;
  team_id = or_else dto.team_id f.team_id;
  category_id = or_else dto.category_id f.category_id;
  sort_order = or_else dto.sort_order f.sort_order;
}

abbrev pub ensure_new_team : AuthUser → Option (Option String) → Result (Unit {0})
ensure_new_team user none = ok tt
ensure_new_team user (some team) = ensure_team_admin_or_owner user team

module _ (fns : FieldText) where
  -- The options of a new field.
  unfoldable pub create_options : CreateCustomField → Result (Option (List FieldOption))
  create_options dto =
      if is_selectable_field_type dto.field_type
      then (normalize_selectable_options fns dto.options >>= λ options. ok (some options))
      else if is_undefined dto.options
      then ok none
      else err (bad_request "Options are only allowed for DROPDOWN or MULTISELECT fields")

  unfoldable pub create_field :
      String → CreateCustomField → AuthUser → List CustomField → Result (List CustomField)
  create_field id dto user fields =
      ensure_team_admin_or_owner user (create_team dto user)
      >> (create_options dto >>= λ options.
          ok (created_field id dto (create_team dto user) options ∷ fields))

  -- What an update makes of the options of a field.
  unfoldable pub update_options :
      UpdateCustomField → CustomField → Result (Option (List FieldOption))
  update_options dto existing =
      if is_selectable_field_type (or_else dto.field_type existing.field_type)
      then (if is_undefined dto.options
          then (if is_some dto.field_type && not (is_selectable_field_type existing.field_type)
              then err (bad_request "these fields require options")
              else ok existing.options)
          else (normalize_selectable_options fns dto.options >>= λ options. ok (some options)))
      else if not (is_nullish dto.options)
      then err (bad_request "Options are only allowed for DROPDOWN or MULTISELECT fields")
      else ok (
          if not (is_undefined dto.options) || is_some dto.field_type
          then none
          else existing.options)

  unfoldable pub update_field :
      String → UpdateCustomField → AuthUser → List CustomField → Result (List CustomField)
  update_field id dto user fields = elim (find_by field_id id fields) [
    | none ↦ err (not_found "Custom field not found")
    | some existing ↦
        ensure_team_admin_or_owner user existing.team_id
        >> (ensure_new_team user dto.team_id
            >> (update_options dto existing >>= λ options.
                ok (update_by field_id id (updated_field dto options) fields)))
  ]

unfoldable pub delete_field : String → AuthUser → List CustomField → Result (List CustomField)
delete_field id user fields = elim (find_by field_id id fields) [
  | none ↦ err (not_found "Custom field not found")
  | some existing ↦
      ensure_team_admin_or_owner user existing.team_id >> ok (filter (λ f. not (f.id == id)) fields)
]
