-- ===== src/Categories.antt =====
-- The tree of categories: apps/api/src/categories/categories.service.ts, its handlers that write. The id
-- of a new row is the database's, and so are the unique slug and the foreign key of the parent.
pub mod Walk
pub mod Tree
pub mod Updates
pub mod Forests
pub mod Laws
pub mod Races
mod Tests
use cursor_multi_agent.Prelude.{
  ℕ, zero, suc, String, Bool, true, false, not, ◌&&◌, ◌||◌, Option, none, some, List, [], ◌∷◌, ◌++◌,
  ◌==◌, any, filter, if◌then◌else◌, is_some, present, truthy, includes, ◌===◌, length, or_else,
  Result, ok, err, guard, ◌>>=◌, ◌>>◌, forbidden, not_found, bad_request, conflict, plain_error,
  ◌+◌,
}
use cursor_multi_agent.Domain.{AuthUser, is_owner}
use cursor_multi_agent.Store.Tables.{find_by, update_by}

pub record Category : Type 0 where
  pub id : String
  pub name : String
  pub slug : String
  pub description : Option String
  pub parent_id : Option String
  pub is_active : Bool

-- The category of each ticket, deleted ones included, and of each custom field.
pub record CategoryDb : Type 0 where
  pub categories : List Category
  pub ticket_categories : List (Option String)
  pub field_categories : List (Option String)

pub record CreateCategory : Type 0 where
  pub name : String
  pub slug : Option String
  pub description : Option String
  pub parent_id : Option String
  pub is_active : Option Bool

-- `none` is a field that the request leaves out; `some none` is a null.
pub record UpdateCategory : Type 0 where
  pub name : Option String
  pub slug : Option String
  pub description : Option (Option String)
  pub parent_id : Option (Option String)
  pub is_active : Option Bool

abbrev pub category_id : Category → String
category_id c = c.id

unfoldable pub find_category : String → List Category → Option Category
find_category id rows = find_by category_id id rows

abbrev pub ensure_owner : AuthUser → Result (Unit {0})
ensure_owner user =
    guard (is_owner user.role) (forbidden "Category management is restricted to owners")

unfoldable pub ensure_category : String → List Category → Result Category
ensure_category id rows = elim (find_category id rows) [
  | none ↦ err (not_found "Parent category not found")
  | some category ↦ ok category
]

-- The loop of `validateParentUpdate`, with fuel for the tests of its condition.
unfoldable pub walk :
    ℕ → String → List String → Option String → List Category → Option (Result (Unit {0}))
walk zero id seen cursor rows = none
walk (suc fuel) id seen none rows = some (ok tt)
walk (suc fuel) id seen (some cursor) rows =
    if not (truthy cursor)
    then some (ok tt)
    else if cursor == id
    then some (err (forbidden "Category hierarchy cannot contain cycles"))
    else if includes seen cursor
    then some (err (forbidden "Category hierarchy is invalid"))
    else elim (find_category cursor rows) [
      | none ↦ some (ok tt)
      | some next ↦ walk fuel id (cursor ∷ seen) next.parent_id rows
    ]

unfoldable pub validate_parent_update : String → Option String → List Category → Result (Unit {0})
validate_parent_update id none rows = ok tt
validate_parent_update id (some parent_id) rows =
    guard (not (parent_id == id)) (forbidden "Category cannot be its own parent")
    >> (ensure_category parent_id rows >>= λ parent.
        or_else (walk (length rows + 2) id (parent.id ∷ []) parent.parent_id rows)
          (err (plain_error "the walk does not end")))

-- The constraints of the table.
abbrev pub slug_free : String → String → List Category → Bool
slug_free id slug rows = not (any (λ c. (c.slug == slug) && not (c.id == id)) rows)

abbrev pub parent_exists : Option String → List Category → Bool
parent_exists none rows = true
parent_exists (some parent) rows = is_some (find_category parent rows)

abbrev pub constraints : String → String → Option String → List Category → Result (Unit {0})
constraints id slug parent rows =
    guard (slug_free id slug rows) (conflict "A record with the same unique value already exists.")
    >> guard (parent_exists parent rows)
        (conflict "Operation failed due to related data constraints.")

-- `if (payload.parentId) await this.ensureCategory(payload.parentId)`
abbrev pub ensure_parent : Option String → List Category → Result (Unit {0})
ensure_parent none rows = ok tt
ensure_parent (some parent) rows =
    if truthy parent then (ensure_category parent rows >>= λ found. ok tt) else ok tt

abbrev pub with_categories : CategoryDb → List Category → CategoryDb
with_categories db rows = record db { categories = rows }

abbrev pub created_row : (String → String) → String → CreateCategory → Category
created_row slugify id payload = record {
  id = id;
  name = payload.name;
  slug = or_else payload.slug (slugify payload.name);
  description = payload.description;
  parent_id = payload.parent_id;
  is_active = or_else payload.is_active true;
}

abbrev pub updated_row : UpdateCategory → Category → Category
updated_row payload c = record c {
  name = or_else payload.name c.name;
  slug = or_else payload.slug c.slug;
  description = or_else payload.description c.description;
  parent_id = or_else payload.parent_id c.parent_id;
  is_active = or_else payload.is_active c.is_active;
}

unfoldable pub create :
    (String → String) → String → CreateCategory → AuthUser → CategoryDb → Result CategoryDb
create slugify id payload user db =
    let row = created_row slugify id payload in
    ensure_owner user
    >> (ensure_parent payload.parent_id db.categories
        >> (constraints id row.slug row.parent_id db.categories
            >> ok (with_categories db (row ∷ db.categories))))

-- The tests of `update`, and its write.
unfoldable pub validate_update : String → UpdateCategory → List Category → Result (Unit {0})
validate_update id payload rows = elim payload.parent_id [
  | none ↦ ok tt
  | some parent ↦ validate_parent_update id parent rows
]

unfoldable pub write_update : String → UpdateCategory → CategoryDb → Result CategoryDb
write_update id payload db = elim (find_category id db.categories) [
  | none ↦ err (not_found "Record not found.")
  | some category ↦
      let row = updated_row payload category in
      constraints id row.slug row.parent_id db.categories
      >> ok (with_categories db (update_by category_id id (updated_row payload) db.categories))
]

unfoldable pub update : String → UpdateCategory → AuthUser → CategoryDb → Result CategoryDb
update id payload user db =
    ensure_owner user
    >> (guard (is_some (find_category id db.categories)) (not_found "Category not found")
        >> (validate_update id payload db.categories >> write_update id payload db))

abbrev pub has_children : String → List Category → Bool
has_children id rows = any (λ c. c.parent_id === id) rows

abbrev pub is_used : String → CategoryDb → Bool
is_used id db = any (λ o. o === id) db.ticket_categories || any (λ o. o === id) db.field_categories

-- The message of the source also counts the tickets and the fields.
unfoldable pub remove : String → AuthUser → CategoryDb → Result CategoryDb
remove id user db =
    ensure_owner user
    >> (guard (is_some (find_category id db.categories)) (not_found "Category not found")
        >> (guard (not (has_children id db.categories)) (forbidden "Category has subcategories")
            >> (guard (not (is_used id db)) (bad_request "Category is used. Deactivate it instead.")
                >> ok (with_categories db (filter (λ c. not (c.id == id)) db.categories)))))
