-- ===== src/Base/Decimal.antt =====
-- A natural number in a template string.
use Prim.Native.Nat.{ℕ, zero, suc, ◌<◌, ◌/◌, ◌%◌}
use Prim.Native.String.{String, ◌++◌}
use mathlib.Core.Path.{◌≡◌, refl}
use mathlib.Core.Bool.{false}
use mathlib.Core.Logic.{inl, inr}
use native.Mathlib.Omega.{arith}
use mathlib.Core.List.{List, [], ◌∷◌}
use private_deploy.Base.Lists.{get_elem?}
use private_deploy.Base.Tests.{ltb, or_else, if◌then◌else◌, Bool-cases}

abbrev digits : List String
digits = "0" ∷ "1" ∷ "2" ∷ "3" ∷ "4" ∷ "5" ∷ "6" ∷ "7" ∷ "8" ∷ "9" ∷ []

-- For a number below ten.
abbrev digit : ℕ → String
digit n = or_else (get_elem? digits n) ""

unfoldable show_digits : ℕ → ℕ → String
show_digits zero n = ""
show_digits (suc fuel) n =
    let rest = show_digits fuel (n / 10) in if ltb n 10 then digit n else rest ++ digit (n % 10)

-- `${n}`
unfoldable pub show : ℕ → String
unfolding show_digits
show n = show_digits (suc n) n

shorter : (n f : ℕ) → ltb n 10 ≡ false → n < suc f → n / 10 < f
shorter n f h e = ground arith

-- Any fuel above the number gives its digits.
show_digits-fuel : (f g n : ℕ) → n < f → n < g → show_digits f n ≡ show_digits g n
unfolding show_digits
show_digits-fuel zero g n h k = ground arith
show_digits-fuel (suc f) zero n h k = ground arith
show_digits-fuel (suc f) (suc g) n h k = elim (Bool-cases (ltb n 10)) [
  | inl e ↦ rw e refl
  | inr e ↦ rw (e, show_digits-fuel f g (n / 10) (shorter n f e h) (shorter n g e k)) refl
]
