-- ===== src/Base/Members.antt =====
-- Lists of texts as sets: membership, distinctness.
use Prim.Native.String.{String}
use mathlib.Core.Path.{◌≡◌, refl}
use mathlib.Core.Bool.{Bool, true, false, ◌&&◌, ◌||◌}
use mathlib.Core.List.{List, [], ◌∷◌, ◌++◌}
use native.Mathlib.Omega.{arith}
use text.Mathlib.TextEquality.{eq_iff}
use text.Mathlib.TextPositions.{eq_refl}
use private_deploy.Base.Lists.{filter, All}
use private_deploy.Base.Texts.{str_eq, one_of}

abbrev pub Distinct : List String → Type 0
Distinct [] = Unit
Distinct (x ∷ xs) = (one_of x xs ≡ false) × Distinct xs

pub one_of-append :
    (s : String) (xs ys : List String) → one_of s (xs ++ ys) ≡ (one_of s xs || one_of s ys)
one_of-append s [] ys = refl
one_of-append s (x ∷ xs) ys = ground (arith, one_of-append s xs ys)

pub one_of-filter :
    (s : String) (p : String → Bool) (xs : List String)
    → one_of s (filter p xs) ≡ (one_of s xs && p s)
one_of-filter s p [] = refl
one_of-filter s p (x ∷ xs) = ground (arith, one_of-filter s p xs, eq_iff s x)

pub str_eq_sym : (s t : String) → str_eq s t ≡ str_eq t s
str_eq_sym s t = ground (arith, eq_iff s t, eq_iff t s)

pub Distinct-filter : (p : String → Bool) (xs : List String) → Distinct xs → Distinct (filter p xs)
Distinct-filter p [] h = tt
Distinct-filter p (x ∷ xs) h = ground (arith, Distinct-filter p xs, one_of-filter x p xs)

-- No text is in both lists.
abbrev pub Disjoint : List String → List String → Type 0
Disjoint xs ys = All (λ x. one_of x ys ≡ false) xs

pub Distinct-append :
    (xs ys : List String) → Distinct xs → Distinct ys → Disjoint xs ys → Distinct (xs ++ ys)
Distinct-append [] ys hx hy d = hy
Distinct-append (x ∷ xs) ys hx hy d =
    (rw (one_of-append x xs ys) (ground arith), Distinct-append xs ys hx.1 hy d.1)

-- Texts that pass a test which the others fail are not among the others.
pub one_of_self : (x : String) (xs : List String) → one_of x (x ∷ xs) ≡ true
one_of_self x xs = ground (arith, eq_refl x)
