-- ===== src/Prelude/Text.antt =====
-- Identifiers and the truth values that JavaScript gives to them: "" counts as absent.
use Prim.Native.Char.{code}
use Prim.Native.Nat.{ℕ}
use Prim.Native.String.{String}
use mathlib.Core.Path.{◌≡◌}
use mathlib.Core.Bool.{Bool, true, false, not}
use mathlib.Core.Logic.{◌↔◌}
use mathlib.Core.Option.{Option, none, some}
use mathlib.Core.List.{List, [], ◌∷◌}
use native.Mathlib.Omega.{arith}
use text.Mathlib.Text.{◌==◌}
use text.Mathlib.TextEquality.{eq_iff}
use cursor_multi_agent.Prelude.Lists.{any}

-- The code points of a text. `String` has its own `[]` and `∷`.
abbrev pub codes : String → List ℕ
codes String.[] = []
codes (String.◌∷◌ c s) = code c ∷ codes s

-- `Boolean(s)` of a string
abbrev pub truthy : String → Bool
truthy s = not (s == "")

-- `Boolean(o)` of a nullable string
abbrev pub present : Option String → Bool
present none = false
present (some s) = truthy s

infix 50 ◌===◌
-- `o === s` of a nullable string and a string
abbrev pub ◌===◌ : Option String → String → Bool
none === s = false
some r === s = r == s

-- `xs.includes(s)`
abbrev pub includes : List String → String → Bool
includes xs s = any (λ x. x == s) xs

-- `o != null && xs.includes(o)`
abbrev pub includes_some : List String → Option String → Bool
includes_some xs none = false
includes_some xs (some s) = includes xs s

pub ===_iff : (o : Option String) (s : String) → ((o === s) ≡ true) ↔ (o ≡ some s)
===_iff none s = ground arith
===_iff (some r) s = ground (arith, eq_iff r s)
