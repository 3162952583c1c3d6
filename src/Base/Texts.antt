-- ===== src/Base/Texts.antt =====
-- JavaScript's operations on strings, over the characters of a text.
use Prim.Native.Nat.{ℕ, ◌+◌}
use Prim.Native.Char.{Char, code}
use Prim.Native.String.{String}
use mathlib.Core.Bool.{Bool, true, false, ◌&&◌, ◌||◌}
use mathlib.Core.List.{List, [], ◌∷◌}
use text.Mathlib.Text.{◌==◌ as text_eq}
use private_deploy.Base.Tests.{◌==◌, leb, if◌then◌else◌}

abbrev pub str_eq : String → String → Bool
str_eq = text_eq

abbrev pub is_empty : String → Bool
is_empty String.[] = true
is_empty (String.◌∷◌ c s) = false

-- The code points of a text.
abbrev pub codes : String → List ℕ
codes String.[] = []
codes (String.◌∷◌ c s) = code c ∷ codes s

-- `s.startsWith(t)`
unfoldable pub starts_with : String → String → Bool
starts_with s String.[] = true
starts_with String.[] (String.◌∷◌ d t) = false
starts_with (String.◌∷◌ c s) (String.◌∷◌ d t) = code c == code d && starts_with s t

-- `s.includes(t)`
unfoldable pub includes : String → String → Bool
unfolding starts_with
includes String.[] t = is_empty t
includes (String.◌∷◌ c s) t = starts_with (String.◌∷◌ c s) t || includes s t

-- `list.includes(s)`
abbrev pub one_of : String → List String → Bool
one_of s [] = false
one_of s (t ∷ ts) = str_eq s t || one_of s ts

-- White space and line ends, as `String.prototype.trim` removes them.
unfoldable pub is_space : ℕ → Bool
is_space c =
    (leb 9 c && leb c 13)
    || c == 32
    || c == 160
    || c == 5760
    || (leb 8192 c && leb c 8202)
    || c == 8232
    || c == 8233
    || c == 8239
    || c == 8287
    || c == 12288
    || c == 65279

unfoldable pub trim_start : String → String
unfolding is_space
trim_start String.[] = ""
trim_start (String.◌∷◌ c s) = if is_space (code c) then trim_start s else String.◌∷◌ c s

unfoldable pub trim_end : String → String
unfolding is_space
trim_end String.[] = ""
trim_end (String.◌∷◌ c s) =
    let rest = trim_end s in if is_empty rest && is_space (code c) then "" else String.◌∷◌ c rest

-- `s.trim()`
unfoldable pub trim : String → String
unfolding trim_start trim_end
trim s = trim_end (trim_start s)

-- `toLowerCase` as far as an ASCII text that is looked for can tell: the ASCII letters, and the two
-- characters beyond ASCII (U+0130 and U+212A) whose lower case holds an ASCII letter.
unfoldable pub lower_codes : List ℕ → List ℕ
lower_codes [] = []
lower_codes (c ∷ cs) =
    let rest = lower_codes cs in
    if leb b'A' c && leb c b'Z'
    then (c + 32) ∷ rest
    else if c == 304
    then b'i' ∷ 775 ∷ rest
    else if c == 8490
    then b'k' ∷ rest
    else c ∷ rest

unfoldable pub codes_start : List ℕ → List ℕ → Bool
codes_start cs [] = true
codes_start [] (d ∷ ds) = false
codes_start (c ∷ cs) (d ∷ ds) = c == d && codes_start cs ds

unfoldable pub codes_include : List ℕ → List ℕ → Bool
unfolding codes_start
codes_include [] ds = codes_start [] ds
codes_include (c ∷ cs) ds = codes_start (c ∷ cs) ds || codes_include cs ds

-- `s.toLowerCase().includes(t)` for an ASCII text `t`.
unfoldable pub lower_includes : String → String → Bool
unfolding lower_codes codes_include
lower_includes s t = codes_include (lower_codes (codes s)) (codes t)

abbrev cons_head : Char → List String → List String
cons_head c [] = String.◌∷◌ c "" ∷ []
cons_head c (p ∷ ps) = String.◌∷◌ c p ∷ ps

-- `s.split(d)` for a text of one character with code `d`.
unfoldable pub split : ℕ → String → List String
split d String.[] = "" ∷ []
split d (String.◌∷◌ c s) =
    let rest = split d s in if code c == d then "" ∷ rest else cons_head c rest
