-- ===== src/Fields/Items.antt =====
-- Which values `validate_item` accepts.
use cursor_multi_agent.Prelude.{
  HttpError, ◌≢◌, ◌≡◌, ◌⊎◌, refl, String, Bool, true, false, ◌&&◌, Option, none, some, List, ◌==◌,
  arith, includes, Result, ok, err, Option-cases, Bool-cases, inl, inr, if◌then◌else◌, sym, ap, ◌∙◌,
  ◌≢◌, ◌∷◌, All, map, ok_injective, [], >>=-eq-ok,
}
use mathlib.Core.Path.{subst}
use cursor_multi_agent.Store.Tables.{find_by}
use cursor_multi_agent.Fields.{
  CustomField, FieldValue, FieldText, FieldType, text, textarea, number, dropdown, multiselect,
  date, checkbox, user_reference, field_id, normalize_value_by_field_type, normalize_by_type,
  option_values, parts_of, all_allowed, is_checked, ◌∷◌, map, [],
}
use cursor_multi_agent.Fields.Values.{
  applies_to, check_scope, validate_item, is_blank, trimmed, validate_each, value_id,
}

pub normal_cases {ℓ} :
    {A : Type ℓ} (r : Result A) → ((a : A) × (r ≡ ok a)) ⊎ ((e : HttpError) × (r ≡ err e))
normal_cases (ok a) = inl (a, refl)
normal_cases (err e) = inr (e, refl)

module _ (fns : FieldText) where
  -- A stored value is one that the type of the field allows; `allowed` are the values of its options.
  abbrev pub FitsType : FieldType → List String → String → Type 0
  FitsType number allowed v = (s : String) × (fns.as_number s ≡ some v)
  FitsType date allowed v = (s : String) × (fns.as_date s ≡ some v)
  FitsType checkbox allowed v = (v ≡ "true") ⊎ (v ≡ "false")
  FitsType dropdown allowed v = includes allowed v ≡ true
  FitsType multiselect allowed v =
      (parts : List String) × (v ≡ fns.join_commas parts) × (all_allowed allowed parts ≡ true)
  FitsType user_reference allowed v = Unit
  FitsType text allowed v = Unit
  FitsType textarea allowed v = Unit

  abbrev pub Fits : CustomField → Option String → Type 0
  Fits field none = field.is_required ≡ false
  Fits field (some v) = FitsType field.field_type (option_values field) v

  -- The value belongs to a field that is there, that applies to the ticket and that allows it.
  pub record IsAccepted (fields : List CustomField) (team category : Option String) (v : FieldValue)
      : Type 0 where
    pub field : CustomField
    pub found : find_by field_id v.custom_field_id fields ≡ some field
    pub applies : applies_to team category field ≡ true
    pub fits : Fits field v.value

  pub checked-FitsType :
      (b : Bool) (v : String) → (if b then "true" else "false") ≡ v → (v ≡ "true") ⊎ (v ≡ "false")
  checked-FitsType true v h = inl (sym h)
  checked-FitsType false v h = inr (sym h)

  pub by_type-FitsType :
      (t : FieldType) (allowed : List String) (s v : String)
      → normalize_by_type fns t allowed s ≡ ok (some v)
      → FitsType t allowed v
  unfolding normalize_by_type
  by_type-FitsType number allowed s v h = (s, ground arith)
  by_type-FitsType date allowed s v h = (s, ground arith)
  by_type-FitsType checkbox allowed s v h = checked-FitsType (is_checked fns s) v (ground arith)
  by_type-FitsType dropdown allowed s v h = ground arith
  by_type-FitsType multiselect allowed s v h = (parts_of fns s, ground arith, ground arith)
  by_type-FitsType user_reference allowed s v h = tt
  by_type-FitsType text allowed s v h = tt
  by_type-FitsType textarea allowed s v h = tt

  pub by_type_some :
      (t : FieldType) (allowed : List String) (s : String)
      → normalize_by_type fns t allowed s ≢ ok none
  unfolding normalize_by_type
  by_type_some number allowed s h = ground arith
  by_type_some date allowed s h = ground arith
  by_type_some checkbox allowed s h = ground arith
  by_type_some dropdown allowed s h = ground arith
  by_type_some multiselect allowed s h = ground arith
  by_type_some user_reference allowed s h = ground arith
  by_type_some text allowed s h = ground arith
  by_type_some textarea allowed s h = ground arith

  pub normalized-Fits :
      (field : CustomField) (raw v : Option String)
      → (field.is_required && is_blank raw) ≡ false
      → normalize_value_by_field_type fns field raw ≡ ok v
      → Fits field v
  unfolding normalize_value_by_field_type
  normalized-Fits field none none given h = ground arith
  normalized-Fits field none (some v) given h = absurd (ground arith)
  normalized-Fits field (some s) none given h = elim (Bool-cases (s == "")) [
    | inl blank ↦ ground arith
    | inr full ↦ absurd (
        by_type_some field.field_type (option_values field) s
          (rw (normalize_value_by_field_type, full) at h))
  ]
  normalized-Fits field (some s) (some v) given h = elim (Bool-cases (s == "")) [
    | inl blank ↦ absurd (ground arith)
    | inr full ↦
        by_type-FitsType field.field_type (option_values field) s v
          (rw (normalize_value_by_field_type, full) at h)
  ]

  pub item-IsAccepted :
      (fields : List CustomField) (team category : Option String) (item v : FieldValue)
      → validate_item fns fields team category item ≡ ok v
      → IsAccepted fields team category v × (v.custom_field_id ≡ item.custom_field_id)
  unfolding validate_item check_scope
  item-IsAccepted fields team category item v h =
      elim (Option-cases (find_by field_id item.custom_field_id fields)) [
        | inl gone ↦ absurd (ground arith)
        | inr (field, found) ↦
            elim (normal_cases (normalize_value_by_field_type fns field (trimmed fns item.value))) [
              | inl (value, made) ↦
                  let same : v.value ≡ value = ground arith in
                  let same_id : v.custom_field_id ≡ item.custom_field_id = ground arith in
                  (
                    record {
                      field = field;
                      found = ap (λ k. find_by field_id k fields) same_id ∙ found;
                      applies = ground arith;
                      fits = subst (Fits field) (sym same) (
                          normalized-Fits field (trimmed fns item.value) value (ground arith) made);
                    },
                    same_id,
                  )
              | inr (thrown, failed) ↦ absurd (ground arith)
            ]
      ]

  pub each-IsAccepted :
      (fields : List CustomField) (team category : Option String) (items values : List FieldValue)
      → validate_each fns fields team category items ≡ ok values
      → All (IsAccepted fields team category) values × (map value_id values ≡ map value_id items)
  unfolding validate_each
  each-IsAccepted fields team category [] values h =
      let same : [] ≡ values = ok_injective _ _ h in
      subst (λ vs. All (IsAccepted fields team category) vs × (map value_id vs ≡ [])) same
        (tt, refl)
  each-IsAccepted fields team category (item ∷ items) values h =
      let (v, first, later) = >>=-eq-ok (validate_item fns fields team category item) _ h in
      let (vs, others, done) = >>=-eq-ok (validate_each fns fields team category items) _ later in
      let (accepted, id) = item-IsAccepted fields team category item v first in
      let (all, ids) = each-IsAccepted fields team category items vs others in
      subst
        (λ vs.
          All (IsAccepted fields team category) vs
          × (map value_id vs ≡ map value_id (item ∷ items)))
        (ok_injective _ _ done) ((accepted, all), cc (id, ids))

-- No field has two values.
abbrev pub Distinct : List String → Type 0
Distinct [] = Unit
Distinct (id ∷ ids) = (includes ids id ≡ false) × Distinct ids
