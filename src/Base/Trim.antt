-- ===== src/Base/Trim.antt =====
-- A trimmed text stays as it is.
use Prim.Native.Char.{Char, code}
use Prim.Native.String.{String}
use mathlib.Core.Path.{◌≡◌, refl}
use mathlib.Core.Bool.{false, ◌&&◌}
use mathlib.Core.Logic.{inl, inr}
use native.Mathlib.Omega.{arith}
use private_deploy.Base.Tests.{Bool-cases}
use private_deploy.Base.Texts.{is_empty, is_space, trim_start, trim_end, trim}

trim_end_idem : (s : String) → trim_end (trim_end s) ≡ trim_end s
unfolding trim_end
trim_end_idem String.[] = refl
trim_end_idem (String.◌∷◌ c s) = elim (Bool-cases (is_empty (trim_end s) && is_space (code c))) [
  | inl e ↦ rw e refl
  | inr e ↦ rw e (rw (trim_end_idem s) (rw e refl))
]

-- What is left of a text that begins with no white space begins with none either.
trim_start-trim_end :
    (c : Char) (s : String)
    → is_space (code c) ≡ false
    → trim_start (trim_end (String.◌∷◌ c s)) ≡ trim_end (String.◌∷◌ c s)
unfolding trim_end trim_start
trim_start-trim_end c s h = ground arith

trim_start-trim_end-trim_start :
    (s : String) → trim_start (trim_end (trim_start s)) ≡ trim_end (trim_start s)
unfolding trim_start trim_end
trim_start-trim_end-trim_start String.[] = refl
trim_start-trim_end-trim_start (String.◌∷◌ c s) = elim (Bool-cases (is_space (code c))) [
  | inl e ↦ rw e (trim_start-trim_end-trim_start s)
  | inr e ↦ rw e (trim_start-trim_end c s e)
]

pub trim_idem : (s : String) → trim (trim s) ≡ trim s
unfolding trim
trim_idem s = rw (trim_start-trim_end-trim_start s) (trim_end_idem (trim_start s))
