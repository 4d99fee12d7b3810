-- ===== src/Routing/RoundRobin/Laws.antt =====
-- The turns of the members of a team.
use native.Mathlib.Nat.{mod-eq_of_lt, mod_self}
use cursor_multi_agent.Prelude.{
  ℕ, suc, String, ◌≡◌, refl, true, false, none, some, List, [], ◌∷◌, ◌++◌, ◌+◌, ◌%◌, arith, length,
  length-append, eq_iff, eq_refl, All, map, sym, ◌∙◌, truthy, get_elem?, ◌==◌, ap, ◌⊎◌, inl, inr,
}
use cursor_multi_agent.Routing.RoundRobin.{
  find_index, next_member, resolve_assignee, resolve_for_team, Team, find_by, team_key, with_last,
  update_by, resolve_times,
}
use cursor_multi_agent.Store.Tables.{find_by, find_by-key, update_by, find_by-update}
use mathlib.Core.Path.{subst}

-- No two members are the same, and none has an empty id.
abbrev pub IsDistinct : List String → Type 0
IsDistinct [] = Unit
IsDistinct (x ∷ xs) = (truthy x ≡ true) × All (λ y. (x == y) ≡ false) xs × IsDistinct xs

differs_append :
    (y : String) (before : List String) (x : String) (after : List String)
    → All (λ z. (y == z) ≡ false) (before ++ (x ∷ after))
    → (y == x) ≡ false
differs_append y [] x after d = d.0
differs_append y (z ∷ before) x after d = differs_append y before x after d.1

-- The place of a member.
find_index-append :
    (before : List String) (x : String) (after : List String)
    → IsDistinct (before ++ (x ∷ after))
    → find_index x (before ++ (x ∷ after)) ≡ some (length before)
unfolding find_index
find_index-append [] x after d = rw (eq_refl x)
find_index-append (y ∷ before) x after d =
    ground (arith, find_index-append before x after, differs_append y before x after d.1)

get-append :
    (before : List String) (x : String) (after : List String)
    → get_elem? (before ++ (x ∷ after)) (length before) ≡ some x
get-append [] x after = refl
get-append (y ∷ before) x after = get-append before x after

present_of_distinct :
    (before : List String) (x : String) (after : List String)
    → IsDistinct (before ++ (x ∷ after))
    → truthy x ≡ true
present_of_distinct [] x after d = d.0
present_of_distinct (y ∷ before) x after d = present_of_distinct before x after d.2

shift :
    (before : List String) (x : String) (after : List String)
    → before ++ (x ∷ after) ≡ (before ++ (x ∷ [])) ++ after
shift [] x after = refl
shift (z ∷ before) x after = ap (λ l. z ∷ l) (shift before x after)

get-next :
    (before : List String) (x y : String) (after : List String)
    → get_elem? (before ++ (x ∷ y ∷ after)) (suc (length before)) ≡ some y
get-next [] x y after = refl
get-next (z ∷ before) x y after = get-next before x y after

-- The member at the next place, around the end.
next_at :
    (first : String) (members : List String) (x : String) (i j : ℕ) {y : String}
    → truthy x ≡ true
    → find_index x members ≡ some i
    → (i + 1) % length members ≡ j
    → get_elem? members j ≡ some y
    → next_member first members (some x) ≡ y
unfolding next_member
next_at first members x i j named place turn here = rw (named, place, turn, here)

-- After a member comes the next one.
next_in_turn :
    (first : String) (before : List String) (x y : String) (after : List String)
    → IsDistinct (before ++ (x ∷ y ∷ after))
    → next_member first (before ++ (x ∷ y ∷ after)) (some x) ≡ y
next_in_turn first before x y after d =
    next_at first (before ++ (x ∷ y ∷ after)) x (length before) (suc (length before))
      (present_of_distinct before x (y ∷ after) d) (find_index-append before x (y ∷ after) d)
      (mod-eq_of_lt (omega (arith, length-append before (x ∷ y ∷ after))) ∙ omega arith)
      (get-next before x y after)

-- After the last member comes the first one.
first_after_last :
    (first : String) (before : List String) (x : String)
    → IsDistinct (before ++ (x ∷ []))
    → get_elem? (before ++ (x ∷ [])) 0 ≡ some first
    → next_member first (before ++ (x ∷ [])) (some x) ≡ first
first_after_last first before x d head =
    next_at first (before ++ (x ∷ [])) x (length before) 0 (present_of_distinct before x [] d)
      (find_index-append before x [] d)
      (ap (λ n. n % length (before ++ (x ∷ []))) (omega (arith, length-append before (x ∷ [])))
        ∙ mod_self (length (before ++ (x ∷ []))))
      head

-- Resolutions for a team whose row is stored with round robin.
module _ (members_of : String → List String) where
  resolved_eq :
      (id : String) (teams : List Team) {t : Team} {first : String} {rest : List String}
      {next : String}
      → find_by team_key id teams ≡ some t
      → t.round_robin ≡ true
      → truthy id ≡ true
      → members_of id ≡ first ∷ rest
      → next_member first (first ∷ rest) t.last_assigned_user_id ≡ next
      → resolve_assignee (some id) members_of teams
        ≡ (some next, update_by team_key t.id (with_last next) teams)
  unfolding resolve_assignee resolve_for_team
  resolved_eq id teams here robin named team turn =
      rw (named, resolve_assignee, here, robin, team, resolve_for_team, turn)

  row_after :
      (id next : String) (teams : List Team) {t : Team}
      → find_by team_key id teams ≡ some t
      → find_by team_key id (update_by team_key t.id (with_last next) teams)
        ≡ some (with_last next t)
  row_after id next teams {t} here =
      find_by-update team_key (with_last next) (λ r. refl) t.id id teams
      ∙ rw ((eq_iff t.id id).1 (find_by-key team_key id teams here), here)

  -- The members after `x`, one after the other.
  turns_from :
      (id : String) (first : String) (before : List String) (x : String) (after : List String)
      (teams : List Team) {t : Team} {rest : List String}
      → find_by team_key id teams ≡ some t
      → t.round_robin ≡ true
      → truthy id ≡ true
      → members_of id ≡ first ∷ rest
      → first ∷ rest ≡ before ++ (x ∷ after)
      → IsDistinct (first ∷ rest)
      → t.last_assigned_user_id ≡ some x
      → (resolve_times (length after) id members_of teams).0 ≡ map some after
  unfolding resolve_times
  turns_from id first before x [] teams here robin named team split d last = refl
  turns_from id first before x (y ∷ after) teams {t} {rest} here robin named team split d last =
      let turn : next_member first (first ∷ rest) t.last_assigned_user_id ≡ y = rw last (
        subst (λ l. next_member first l (some x) ≡ y) (sym split)
          (next_in_turn first before x y after (subst IsDistinct split d))) in
      let step = resolved_eq id teams here robin named team turn in
      let later =
        turns_from id first (before ++ (x ∷ [])) y after
          (update_by team_key t.id (with_last y) teams) (row_after id y teams here) robin named team
          (split ∙ shift before x (y ∷ after)) d refl in
      rw (step, later)

  first_turn :
      (id : String) (first : String) (rest : List String) (t : Team)
      → IsDistinct (first ∷ rest)
      → (t.last_assigned_user_id ≡ none)
        ⊎ ((before : List String) × (z : String) × (t.last_assigned_user_id ≡ some z)
            × (first ∷ rest ≡ before ++ (z ∷ [])))
      → next_member first (first ∷ rest) t.last_assigned_user_id ≡ first
  first_turn id first rest t d (inl fresh) = rw fresh (unfold next_member in refl)
  first_turn id first rest t d (inr (before, z, last, split)) = rw last (
      subst (λ l. next_member first l (some z) ≡ first) (sym split)
        (first_after_last first before z (subst IsDistinct split d)
          (ap (λ l. get_elem? l 0) (sym split))))

  -- Round robin is fair: if the members of a stored team with that strategy are distinct, and the team
  -- has assigned nobody yet or has assigned its last member last, then as many resolutions as it has
  -- members give each of them, in their order.
  pub full_turn :
      (id : String) (first : String) (rest : List String) (teams : List Team) {t : Team}
      → find_by team_key id teams ≡ some t
      → t.round_robin ≡ true
      → truthy id ≡ true
      → members_of id ≡ first ∷ rest
      → IsDistinct (first ∷ rest)
      → (t.last_assigned_user_id ≡ none)
        ⊎ ((before : List String) × (z : String) × (t.last_assigned_user_id ≡ some z)
            × (first ∷ rest ≡ before ++ (z ∷ [])))
      → (resolve_times (length (first ∷ rest)) id members_of teams).0 ≡ map some (first ∷ rest)
  unfolding resolve_times
  full_turn id first rest teams {t} here robin named team d at_start =
      let step =
        resolved_eq id teams here robin named team (first_turn id first rest t d at_start) in
      let later =
        turns_from id first [] first rest (update_by team_key t.id (with_last first) teams)
          (row_after id first teams here) robin named team refl d refl in
      rw (step, later)
