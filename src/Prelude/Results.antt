-- ===== src/Prelude/Results.antt =====
-- What a request handler gives: a value, or the HTTP exception that it throws.
use Prim.Native.String.{String}
use mathlib.Core.Path.{◌≡◌, refl}
use mathlib.Core.Bool.{Bool, true, false}

-- Nest's exceptions, with their message.
pub data HttpError : Type 0 where
  bad_request forbidden not_found conflict unauthorized : String → HttpError
  -- `throw new Error(message)`
  plain_error : String → HttpError

-- `ok` is a return, `err` a throw.
pub data Result {ℓ} (Value : Type ℓ) : Type ℓ where
  err : HttpError → Result Value
  ok : Value → Result Value

-- A handler that returned.
abbrev pub is_ok {ℓ} : {Value : Type ℓ} → Result Value → Bool
is_ok (err thrown) = false
is_ok (ok value) = true

-- `if (!test) throw thrown;`
abbrev pub guard : Bool → HttpError → Result (Unit {0})
guard test thrown = elim test [ true ↦ ok tt | false ↦ err thrown ]

module _ {ℓ κ} {Value : Type ℓ} {Next : Type κ} where
  infixl 5 ◌>>=◌
  abbrev pub ◌>>=◌ : Result Value → (Value → Result Next) → Result Next
  err thrown >>= continue = err thrown
  ok value >>= continue = continue value

  -- Both steps of a chain that returned did.
  pub >>=-eq-ok :
      (first : Result Value) (continue : Value → Result Next) {last : Next}
      → (first >>= continue) ≡ ok last
      → (value : Value) × (first ≡ ok value) × (continue value ≡ ok last)
  >>=-eq-ok (err thrown) continue h = cc
  >>=-eq-ok (ok value) continue h = (value, refl, h)

infixl 5 ◌>>◌
abbrev pub ◌>>◌ {κ} : {Next : Type κ} → Result (Unit {0}) → Result Next → Result Next
check >> next = check >>= λ done. next

pub ok_injective {ℓ} : {Value : Type ℓ} (a b : Value) → ok a ≡ ok b → a ≡ b
ok_injective a b h = cc h
