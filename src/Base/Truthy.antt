-- ===== src/Base/Truthy.antt =====
-- JavaScript's truth of optional numbers and texts.
use Prim.Native.Nat.{ℕ, zero, suc}
use Prim.Native.String.{String}
use mathlib.Core.Bool.{Bool, true, false, not}
use mathlib.Core.Option.{Option, none, some}
use private_deploy.Base.Texts.{is_empty}

abbrev pub has_number : Option ℕ → Bool
has_number none = false
has_number (some zero) = false
has_number (some (suc n)) = true

abbrev pub has_text : Option String → Bool
has_text none = false
has_text (some s) = not (is_empty s)

-- `s || d`
abbrev pub text_or : Option String → String → String
text_or none d = d
text_or (some String.[]) d = d
text_or (some (String.◌∷◌ c s)) d = String.◌∷◌ c s

-- `s || undefined`
abbrev pub text_or_none : String → Option String
text_or_none String.[] = none
text_or_none (String.◌∷◌ c s) = some (String.◌∷◌ c s)
