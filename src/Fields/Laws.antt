-- ===== src/Fields/Laws.antt =====
-- What `validateAndNormalizeValuesForTicket` accepts, and what `setTicketValues` stores.
use cursor_multi_agent.Prelude.{
  ◌≡◌, refl, String, Bool, true, false, Option, some, List, ◌==◌, arith, includes, Result, ok,
  Option-cases, Bool-cases, inl, inr, if◌then◌else◌, sym, ◌∙◌, ◌∷◌, All, map, eq_iff, ◌||◌, [],
  >>=-eq-ok,
}
use mathlib.Core.Path.{subst}
use cursor_multi_agent.Fields.{CustomField, FieldValue, FieldText, ◌∷◌, map, []}
use cursor_multi_agent.Fields.Values.{
  applies_to, set_value, dedupe_onto, value_for, check_required,
  validate_and_normalize_values_for_ticket, value_id,
}
use cursor_multi_agent.Fields.Items.{each-IsAccepted, Distinct, IsAccepted}

set_value-ids :
    (item : FieldValue) (values : List FieldValue) (id : String)
    → includes (map value_id (set_value item values)) id
      ≡ (includes (map value_id values) id || item.custom_field_id == id)
unfolding set_value
set_value-ids item [] id = ground arith
set_value-ids item (v ∷ values) id = ground (
  arith,
  eq_iff v.custom_field_id item.custom_field_id,
  eq_iff v.custom_field_id id,
  eq_iff item.custom_field_id id,
  set_value-ids item values id,
)

set_value-Distinct :
    (item : FieldValue) (values : List FieldValue)
    → Distinct (map value_id values)
    → Distinct (map value_id (set_value item values))
unfolding set_value
set_value-Distinct item [] d = (refl, tt)
set_value-Distinct item (v ∷ values) (new, d) =
    elim (Bool-cases (v.custom_field_id == item.custom_field_id)) [
      | inl same ↦
          let e : v.custom_field_id ≡ item.custom_field_id =
            (eq_iff v.custom_field_id item.custom_field_id).0 same in
          rw same (subst (λ id. includes (map value_id values) id ≡ false) e new, d)
      | inr other ↦ rw other (
        set_value-ids item values v.custom_field_id
            ∙ ground (
              arith,
              eq_iff v.custom_field_id item.custom_field_id,
              eq_iff item.custom_field_id v.custom_field_id,
            ),
        set_value-Distinct item values d,
      )
    ]

dedupe-Distinct :
    (items deduped : List FieldValue)
    → Distinct (map value_id deduped)
    → Distinct (map value_id (dedupe_onto deduped items))
unfolding dedupe_onto
dedupe-Distinct [] deduped d = d
dedupe-Distinct (item ∷ items) deduped d =
    dedupe-Distinct items (set_value item deduped) (set_value-Distinct item deduped d)

-- A value that is read is one of the list.
read_included :
    (id : String) (values : List FieldValue) (s : String)
    → value_for id values ≡ some s
    → includes (map value_id values) id ≡ true
unfolding value_for
read_included id [] s h = absurd (ground arith)
read_included id (v ∷ values) s h = ground (arith, read_included id values s)

module _ (fns : FieldText) where
  -- A field that the ticket must have is among the ids.
  abbrev pub Answered : Option String → Option String → List String → CustomField → Type 0
  Answered team category ids f =
      applies_to team category f ≡ true → f.is_required ≡ true → includes ids f.id ≡ true

  required-Answered :
      (fields : List CustomField) (team category : Option String) (deduped : List FieldValue)
      → check_required fns fields team category deduped ≡ ok tt
      → All (Answered team category (map value_id deduped)) fields
  unfolding check_required
  required-Answered [] team category deduped h = tt
  required-Answered (f ∷ fields) team category deduped h =
      elim (Option-cases (value_for f.id deduped)) [
        | inl missing ↦ (
          λ a r. absurd (ground arith),
          required-Answered fields team category deduped (ground arith),
        )
        | inr (s, found) ↦ (
          λ a r. read_included f.id deduped s found,
          required-Answered fields team category deduped (ground arith),
        )
      ]

  -- The values that are accepted: each belongs to a field that exists and applies to the team and the
  -- category of the ticket, and is one that the type of the field allows, or null where the field is not
  -- required; no field has two; the fields are those of the request; and if all required fields are
  -- asked for, each that applies is among them.
  pub validate-IsAccepted :
      (fields : List CustomField) (items : List FieldValue) (team category : Option String)
      (require_all : Bool) (values : List FieldValue)
      → validate_and_normalize_values_for_ticket fns fields items team category require_all
        ≡ ok values
      → All (IsAccepted fns fields team category) values
        × Distinct (map value_id values)
        × (map value_id values ≡ map value_id (dedupe_onto [] items))
        × (require_all ≡ true → All (Answered team category (map value_id values)) fields)
  unfolding validate_and_normalize_values_for_ticket
  validate-IsAccepted fields items team category require_all values h =
      let deduped = dedupe_onto [] items in
      let check : Result (Unit {0}) =
        if require_all then check_required fns fields team category deduped else ok tt in
      let (checked, required, later) = >>=-eq-ok check _ h in
      let (all, ids) = each-IsAccepted fns fields team category deduped values later in
      (
        all,
        subst Distinct (sym ids) (dedupe-Distinct items [] tt),
        ids,
        λ asked.
            subst (λ ids. All (Answered team category ids) fields) (sym ids)
              (required-Answered fields team category deduped (
                subst
                  (λ b.
                    (if b then check_required fns fields team category deduped else ok tt) ≡ ok tt)
                  asked required)),
      )
