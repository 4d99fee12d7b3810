-- ===== src/Store/Pairs.antt =====
-- The laws of the two-key rows of `Store`, in `if` form.
use cursor_multi_agent.Prelude.{
  String, ◌≡◌, true, false, ◌&&◌, List, [], ◌∷◌, ◌==◌, arith, eq_iff, eq_refl, if◌then◌else◌,
  Bool-cases, inl, inr,
}
use cursor_multi_agent.Store.{has_pair, add_pair, remove_pair}

pub has_pair-add :
    (a b c d : String) (rows : List (String × String))
    → has_pair c d (add_pair a b rows) ≡ (if a == c && b == d then true else has_pair c d rows)
unfolding has_pair add_pair
has_pair-add a b c d rows = elim (Bool-cases (has_pair a b rows)) [
  | inl old ↦ ground (arith, eq_iff a c, eq_iff b d)
  | inr fresh ↦ ground arith
]

pub has_pair-add_self :
    (a b : String) (rows : List (String × String)) → has_pair a b (add_pair a b rows) ≡ true
has_pair-add_self a b rows = ground (arith, has_pair-add a b a b rows, eq_refl a, eq_refl b)

pub has_pair-remove :
    (a b c d : String) (rows : List (String × String))
    → has_pair c d (remove_pair a b rows) ≡ (if a == c && b == d then false else has_pair c d rows)
unfolding has_pair remove_pair
has_pair-remove a b c d [] = ground arith
has_pair-remove a b c d ((x, y) ∷ rows) = ground (
  arith,
  eq_iff a c,
  eq_iff b d,
  eq_iff x a,
  eq_iff y b,
  eq_iff x c,
  eq_iff y d,
  has_pair-remove a b c d rows,
)
