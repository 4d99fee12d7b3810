-- ===== src/Categories/Laws.antt =====
-- Any sequence of requests to categories.service.ts keeps the categories a forest.
use mathlib.Core.Path.{subst}
use cursor_multi_agent.Prelude.{
  ◌≡◌, refl, String, not, none, List, [], ◌∷◌, ◌==◌, filter, arith, if◌then◌else◌, ok, err,
  Option-cases, inl, inr, is_some, sym, ap,
}
use cursor_multi_agent.Domain.{AuthUser}
use cursor_multi_agent.Categories.{
  CategoryDb, find_category, UpdateCategory, CreateCategory, create, update, remove,
  with_categories, Result, created_row,
}
use cursor_multi_agent.Categories.Updates.{IsForest, update-IsForest}
use cursor_multi_agent.Categories.Forests.{created-IsForest, deleted-IsForest}

-- A request that writes, with the id that the database would give a new row.
pub data CategoryRequest : Type 0 where
  to_create : String → CreateCategory → CategoryRequest
  to_update : String → UpdateCategory → CategoryRequest
  to_remove : String → CategoryRequest

remove-IsForest :
    (id : String) (user : AuthUser) (db : CategoryDb) {after : CategoryDb}
    → remove id user db ≡ ok after
    → IsForest db.categories
    → IsForest after.categories
unfolding remove
remove-IsForest id user db {after} h forest =
    let written : after ≡ with_categories db (filter (λ c. not (c.id == id)) db.categories) =
      ground arith in
    subst (λ x. IsForest x.categories) (sym written)
      (deleted-IsForest id db.categories (ground arith) forest)

-- A request that throws leaves the database as it was.
abbrev pub answered : Result CategoryDb → CategoryDb → CategoryDb
answered (ok after) db = after
answered (err thrown) db = db

answered-IsForest :
    (result : Result CategoryDb) (db : CategoryDb)
    → ((after : CategoryDb) → result ≡ ok after → IsForest after.categories)
    → IsForest db.categories
    → IsForest (answered result db).categories
answered-IsForest (ok after) db h forest = h after refl
answered-IsForest (err thrown) db h forest = forest

module _ (slugify : String → String) where
  -- The new id is one that no row has.
  pub serve : CategoryRequest → AuthUser → CategoryDb → CategoryDb
  serve (to_create id payload) user db =
      if is_some (find_category id db.categories)
      then db
      else answered (create slugify id payload user db) db
  serve (to_update id payload) user db = answered (update id payload user db) db
  serve (to_remove id) user db = answered (remove id user db) db

  pub serve_all : List (CategoryRequest × AuthUser) → CategoryDb → CategoryDb
  serve_all [] db = db
  serve_all ((request, user) ∷ rest) db = serve_all rest (serve request user db)

  create-IsForest :
      (id : String) (payload : CreateCategory) (user : AuthUser) (db : CategoryDb)
      {after : CategoryDb}
      → create slugify id payload user db ≡ ok after
      → find_category id db.categories ≡ none
      → IsForest db.categories
      → IsForest after.categories
  unfolding create
  create-IsForest id payload user db {after} h fresh forest =
      let row = created_row slugify id payload in
      let written : after ≡ with_categories db (row ∷ db.categories) = ground arith in
      subst (λ x. IsForest x.categories) (sym written)
        (created-IsForest row db.categories fresh (ground arith) forest)

  served-IsForest :
      (request : CategoryRequest) (user : AuthUser) (db : CategoryDb)
      → IsForest db.categories
      → IsForest (serve request user db).categories
  unfolding serve
  served-IsForest (to_create id payload) user db forest =
      elim (Option-cases (find_category id db.categories)) [
        | inl fresh ↦
            subst
              (λ b.
                IsForest
                  (if b then db else answered (create slugify id payload user db) db).categories)
              (ap is_some (sym fresh))
              (answered-IsForest (create slugify id payload user db) db
                (λ after h. create-IsForest id payload user db h fresh forest) forest)
        | inr (c, found) ↦
            subst
              (λ b.
                IsForest
                  (if b then db else answered (create slugify id payload user db) db).categories)
              (ap is_some (sym found)) forest
      ]
  served-IsForest (to_update id payload) user db forest =
      answered-IsForest (update id payload user db) db
        (λ after h. update-IsForest id payload user db h forest) forest
  served-IsForest (to_remove id) user db forest =
      answered-IsForest (remove id user db) db (λ after h. remove-IsForest id user db h forest)
        forest

  -- After any sequence of requests, accepted or refused, the categories are a forest if they were one:
  -- every chain of parents ends, and every parent is there.
  pub serve_all-IsForest :
      (requests : List (CategoryRequest × AuthUser)) (db : CategoryDb)
      → IsForest db.categories
      → IsForest (serve_all requests db).categories
  unfolding serve_all
  serve_all-IsForest [] db forest = forest
  serve_all-IsForest ((request, user) ∷ rest) db forest =
      serve_all-IsForest rest (serve request user db) (served-IsForest request user db forest)
