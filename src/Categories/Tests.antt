-- ===== src/Categories/Tests.antt =====
-- Requests to categories.service.ts at concrete inputs.
use cursor_multi_agent.Prelude.{
  ◌≡◌, refl, String, true, none, some, List, [], ◌∷◌, ok, Option-cases, inl, inr, arith,
}
use cursor_multi_agent.Domain.{AuthUser, owner}
use cursor_multi_agent.Store.Tables.{find_by, update_by}
use cursor_multi_agent.Categories.{
  Category, CategoryDb, CreateCategory, find_category, write_update, validate_update, category_id,
  with_categories, updated_row,
}
use cursor_multi_agent.Categories.Tree.{Ends, missing, root}
use cursor_multi_agent.Categories.Updates.{IsForest}
use cursor_multi_agent.Categories.Laws.{
  CategoryRequest, to_create, to_update, to_remove, serve_all, serve_all-IsForest,
}
use cursor_multi_agent.Categories.Races.{crossing_moves, move_under}

abbrev the_owner : AuthUser
the_owner = record {
  id = "o";
  role = owner;
  team_id = none;
  primary_team_id = none;
  member_team_ids = none;
}

abbrev top_level : String → String → Category
top_level id name = record {
  id = id;
  name = name;
  slug = id;
  description = none;
  parent_id = none;
  is_active = true;
}

abbrev two_roots : CategoryDb
two_roots = record {
  categories = top_level "hardware" "Hardware" ∷ top_level "software" "Software" ∷ [];
  ticket_categories = some "software" ∷ [];
  field_categories = [];
}

abbrev laptops : CreateCategory
laptops = record {
  name = "Laptops";
  slug = some "laptops";
  description = none;
  parent_id = some "hardware";
  is_active = none;
}

-- A cycle is refused, and so is the removal of a category with a child or a ticket.
abbrev a_day : List (CategoryRequest × AuthUser)
a_day =
    (to_create "laptops" laptops, the_owner)
    ∷ (to_update "hardware" (move_under "laptops"), the_owner)
    ∷ (to_remove "hardware", the_owner)
    ∷ (to_remove "software", the_owner)
    ∷ []

no_slug : String → String
no_slug s = s

two_roots-IsForest : IsForest two_roots.categories
unfolding find_category find_by
two_roots-IsForest = record {
  chains = λ id. elim (Option-cases (find_category id two_roots.categories)) [
    | inl gone ↦ missing gone
    | inr (c, found) ↦ root {c = c} found (ground arith)
  ];
  parents = λ id c found. ground arith;
}

serve_all-IsForest_example : IsForest (serve_all no_slug a_day two_roots).categories
serve_all-IsForest_example = serve_all-IsForest no_slug a_day two_roots two_roots-IsForest

abbrev moved : String → String → CategoryDb → CategoryDb
moved id parent db =
    with_categories db (update_by category_id id (updated_row (move_under parent)) db.categories)

crossing_moves_example :
    (validate_update "hardware" (move_under "software") two_roots.categories ≡ ok tt)
    × (validate_update "software" (move_under "hardware") two_roots.categories ≡ ok tt)
    × ¬ Ends
        (moved "software" "hardware" (moved "hardware" "software" two_roots)).categories
        "hardware"
    × ¬ Ends
        (moved "software" "hardware" (moved "hardware" "software" two_roots)).categories
        "software"
unfolding find_category find_by write_update update_by
crossing_moves_example =
    crossing_moves "hardware" "software" two_roots (moved "hardware" "software" two_roots)
      (moved "software" "hardware" (moved "hardware" "software" two_roots))
      (top_level "hardware" "Hardware") (top_level "software" "Software") refl refl refl refl refl
      refl refl refl refl
