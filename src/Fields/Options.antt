-- ===== src/Fields/Options.antt =====
-- The options of a custom field: create and update of custom-fields.service.ts keep them in order.
use cursor_multi_agent.Prelude.{
  ◌≡◌, ◌==◌, includes, Bool, true, false, Option, none, some, List, [], ◌∷◌, arith, truthy,
  is_empty, All, ok, >>=-eq-ok, String, Bool-cases, or_else, inl, inr, if◌then◌else◌, is_some,
  ◌>>=◌, err, ◌&&◌, bad_request, not, ◌||◌, Option-cases, refl, ok_injective,
}
use mathlib.Core.Path.{subst}
use cursor_multi_agent.Fields.{
  CustomField, FieldOption, FieldText, RawOption, RawOptions, word, entry, invalid, undefined,
  not_a_list, null, items, is_selectable_field_type, normalize_option, normalize_each,
  refuse_duplicates, normalize_selectable_options, create_options, update_options, create_field,
  update_field, CreateCustomField, UpdateCustomField, String, or_else, AuthUser, is_some,
  is_undefined, err, bad_request, not, is_nullish, ensure_team_admin_or_owner, find_by, create_team,
  field_id, update_by, updated_field, ensure_new_team,
}
use cursor_multi_agent.Domain.{AuthUser}
use cursor_multi_agent.Store.Tables.{find_by, All-update_by, update_by, All-find_by}

-- Both texts of an option are there.
abbrev pub IsNamed : FieldOption → Type 0
IsNamed o = (truthy o.value ≡ true) × (truthy o.label ≡ true)

module _ (fns : FieldText) where
  -- No two values are the same once their case is dropped.
  abbrev pub DifferByMore : List FieldOption → Type 0
  DifferByMore [] = Unit
  DifferByMore (o ∷ rest) =
      All (λ p. (fns.lower o.value == fns.lower p.value) ≡ false) rest × DifferByMore rest

  -- At least one option, each with its texts, and no two values that differ in case only.
  pub record AreOptions (options : List FieldOption) : Type 0 where
    pub some_option : is_empty options ≡ false
    pub named : All IsNamed options
    pub distinct : DifferByMore options

  -- A field to choose from has options, and another has none.
  abbrev pub Allows : Bool → Option (List FieldOption) → Type 0
  Allows true none = ⊥
  Allows true (some options) = AreOptions options
  Allows false options = options ≡ none

  abbrev pub HasOptions : CustomField → Type 0
  HasOptions f = Allows (is_selectable_field_type f.field_type) f.options

  option-IsNamed : (raw : RawOption) (o : FieldOption) → normalize_option fns raw ≡ ok o → IsNamed o
  unfolding normalize_option
  option-IsNamed (word s) o h = ground arith
  option-IsNamed (entry v l) o h = ground arith
  option-IsNamed invalid o h = ground arith

  each-IsNamed :
      (raws : List RawOption) (options : List FieldOption)
      → normalize_each fns raws ≡ ok options
      → All IsNamed options × (is_empty options ≡ is_empty raws)
  unfolding normalize_each
  each-IsNamed [] options h = ground arith
  each-IsNamed (raw ∷ rest) options h =
      let (o, first, later) = >>=-eq-ok (normalize_option fns raw) _ h in
      let (os, others, done) = >>=-eq-ok (normalize_each fns rest) _ later in
      let ih = each-IsNamed rest os others in let named = option-IsNamed raw o first in ground arith

  unseen :
      (x : String) (seen : List String) (rest : List FieldOption)
      → All (λ p. includes (x ∷ seen) (fns.lower p.value) ≡ false) rest
      → All (λ p. (x == fns.lower p.value) ≡ false) rest
        × All (λ p. includes seen (fns.lower p.value) ≡ false) rest
  unseen x seen [] all = (tt, tt)
  unseen x seen (p ∷ rest) (here, all) =
      let (differ, new_ones) = unseen x seen rest all in
      ((ground arith, differ), (ground arith, new_ones))

  -- The values that pass the check are new, and differ from each other.
  checked-DifferByMore :
      (seen : List String) (options : List FieldOption)
      → refuse_duplicates fns seen options ≡ ok tt
      → All (λ p. includes seen (fns.lower p.value) ≡ false) options × DifferByMore options
  unfolding refuse_duplicates
  checked-DifferByMore seen [] h = (tt, tt)
  checked-DifferByMore seen (o ∷ rest) h = elim (Bool-cases (includes seen (fns.lower o.value))) [
    | inl old ↦ absurd (ground arith)
    | inr new_one ↦
        let (all, differ) =
          checked-DifferByMore (fns.lower o.value ∷ seen) rest (rw new_one at h) in
        let (apart, others) = unseen (fns.lower o.value) seen rest all in
        ((new_one, others), (apart, differ))
  ]

  normalized-AreOptions :
      (raws : RawOptions) (options : List FieldOption)
      → normalize_selectable_options fns raws ≡ ok options
      → AreOptions options
  unfolding normalize_selectable_options
  normalized-AreOptions undefined options h = ground arith
  normalized-AreOptions not_a_list options h = ground arith
  normalized-AreOptions null options h = ground arith
  normalized-AreOptions (items []) options h = ground arith
  normalized-AreOptions (items (raw ∷ raws)) options h =
      let (os, each, later) = >>=-eq-ok (normalize_each fns (raw ∷ raws)) _ h in
      let (checked, distinct, done) = >>=-eq-ok (refuse_duplicates fns [] os) _ later in
      let (named, full) = each-IsNamed (raw ∷ raws) os each in
      let same : os ≡ options = ground arith in
      subst AreOptions same (record {
        some_option = full;
        named = named;
        distinct = (checked-DifferByMore [] os distinct).1;
      })

  allowed_new :
      (chosen : Bool) (raws : RawOptions) (options : Option (List FieldOption))
      → (if chosen
          then (normalize_selectable_options fns raws >>= λ os. ok (some os))
          else if is_undefined raws
          then ok none
          else err (bad_request "Options are only allowed for DROPDOWN or MULTISELECT fields"))
        ≡ ok options
      → Allows chosen options
  allowed_new true raws options h =
      let (os, normal, done) = >>=-eq-ok (normalize_selectable_options fns raws) _ h in
      let same : some os ≡ options = ground arith in
      subst (Allows true) same (normalized-AreOptions raws os normal)
  allowed_new false raws options h = ground arith

  created-Allows :
      (dto : CreateCustomField) (options : Option (List FieldOption))
      → create_options fns dto ≡ ok options
      → Allows (is_selectable_field_type dto.field_type) options
  unfolding create_options
  created-Allows dto options h =
      allowed_new (is_selectable_field_type dto.field_type) dto.options options h

  kept_options :
      (now typed : Bool) (old options : Option (List FieldOption))
      → (typed ≡ false → true ≡ now)
      → (if typed && not now then err (bad_request "these fields require options") else ok old)
        ≡ ok options
      → Allows now old
      → Allows true options
  kept_options true typed old options kept h before =
      let same : old ≡ options = ground arith in subst (Allows true) same before
  kept_options false true old options kept h before = absurd (ground arith)
  kept_options false false old options kept h before = absurd (cc (kept refl))

  -- With the types of the field after and before the request; without a new type they are one.
  allowed_next :
      (next now : Bool) (dto : UpdateCustomField) (old options : Option (List FieldOption))
      → (is_some dto.field_type ≡ false → next ≡ now)
      → (if next
          then (if is_undefined dto.options
              then (if is_some dto.field_type && not now
                  then err (bad_request "these fields require options")
                  else ok old)
              else (normalize_selectable_options fns dto.options >>= λ os. ok (some os)))
          else if not (is_nullish dto.options)
          then err (bad_request "Options are only allowed for DROPDOWN or MULTISELECT fields")
          else ok (if not (is_undefined dto.options) || is_some dto.field_type then none else old))
        ≡ ok options
      → Allows now old
      → Allows next options
  allowed_next true now dto old options kept h before =
      elim (Bool-cases (is_undefined dto.options)) [
        | inl left_out ↦
            kept_options now (is_some dto.field_type) old options kept (rw left_out at h) before
        | inr given ↦
            let (os, normal, done) =
              >>=-eq-ok (normalize_selectable_options fns dto.options) _ (rw given at h) in
            let same : some os ≡ options = ground arith in
            subst (Allows true) same (normalized-AreOptions dto.options os normal)
      ]
  allowed_next false true dto old options kept h before = ground (arith, kept)
  allowed_next false false dto old options kept h before = ground arith

  updated-Allows :
      (dto : UpdateCustomField) (f : CustomField) (options : Option (List FieldOption))
      → update_options fns dto f ≡ ok options
      → HasOptions f
      → Allows (is_selectable_field_type (or_else dto.field_type f.field_type)) options
  unfolding update_options
  updated-Allows dto f options h before =
      allowed_next (is_selectable_field_type (or_else dto.field_type f.field_type))
        (is_selectable_field_type f.field_type) dto f.options options (λ kept. ground (arith, kept))
        h before

  pub create_field-HasOptions :
      (id : String) (dto : CreateCustomField) (user : AuthUser) (rows : List CustomField)
      {after : List CustomField}
      → create_field fns id dto user rows ≡ ok after
      → All HasOptions rows
      → All HasOptions after
  unfolding create_field
  create_field-HasOptions id dto user rows h all =
      let (allowed, team, later) =
        >>=-eq-ok (ensure_team_admin_or_owner user (create_team dto user)) _ h in
      let (options, made, done) = >>=-eq-ok (create_options fns dto) _ later in
      subst (All HasOptions) (ok_injective _ _ done) (created-Allows dto options made, all)

  written_parts :
      (id : String) (dto : UpdateCustomField) (user : AuthUser) (rows : List CustomField)
      (f : CustomField) {after : List CustomField}
      → find_by field_id id rows ≡ some f
      → update_field fns id dto user rows ≡ ok after
      → (options : Option (List FieldOption)) × (update_options fns dto f ≡ ok options)
        × (update_by field_id id (updated_field dto options) rows ≡ after)
  unfolding update_field
  written_parts id dto user rows f found h =
      let (first, own, later) =
        >>=-eq-ok (ensure_team_admin_or_owner user f.team_id) _ (rw (found, update_field) at h) in
      let (second, new_team, last) = >>=-eq-ok (ensure_new_team user dto.team_id) _ later in
      let (options, made, done) = >>=-eq-ok (update_options fns dto f) _ last in
      (options, made, ok_injective _ _ done)

  -- If every field is consistent with its type, so it is after an accepted update: a field to choose
  -- from has at least one option, each with its texts and with values that differ by more than case, and
  -- another has none.
  pub update_field-HasOptions :
      (id : String) (dto : UpdateCustomField) (user : AuthUser) (rows : List CustomField)
      {after : List CustomField}
      → update_field fns id dto user rows ≡ ok after
      → All HasOptions rows
      → All HasOptions after
  unfolding update_field
  update_field-HasOptions id dto user rows h all = elim (Option-cases (find_by field_id id rows)) [
    | inl gone ↦ absurd (ground arith)
    | inr (f, found) ↦
        let (options, made, done) = written_parts id dto user rows f found h in
        subst (All HasOptions) done (
          All-update_by field_id HasOptions (updated_field dto options) id rows found
            (updated-Allows dto f options made (All-find_by field_id HasOptions id rows found all))
            all)
  ]
