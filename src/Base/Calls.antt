-- ===== src/Base/Calls.antt =====
-- What a call that may throw gives back; an error is the text that `String(error)` shows.
use Prim.Native.String.{String}
use mathlib.Core.Path.{◌≡◌, refl, ap, subst}
use mathlib.Core.Bool.{Bool, true, false}

pub data Outcome {ℓ} (A : Type ℓ) : Type ℓ where
  ok : A → Outcome A
  threw : String → Outcome A

-- A call changes the world `W` and returns or throws.
abbrev pub Action : Type 0 → Type 0 → Type 0
Action W A = W → Outcome A × W

-- The rest of an `async` function, skipped where an error was thrown.
abbrev pub continue : {W A B : Type 0} → (A → Action W B) → Outcome A × W → Outcome B × W
continue f (ok a, w) = f a w
continue f (threw e, w) = (threw e, w)

infixl 5 ◌>>=◌ ◌>>◌
abbrev pub ◌>>=◌ : {W A B : Type 0} → Action W A → (A → Action W B) → Action W B
◌>>=◌ m f w = continue f (m w)

abbrev pub ◌>>◌ : {W A B : Type 0} → Action W A → Action W B → Action W B
m >> k = m >>= λ _. k

abbrev pub done : {W A : Type 0} → A → Action W A
done a w = (ok a, w)

-- `action().catch(() => undefined)`: an error is dropped.
abbrev pub ignored : {W A : Type 0} → Action W A → W → W
ignored m w = (m w).1

abbrev pub is_ok {ℓ} : {A : Type ℓ} → Outcome A → Bool
is_ok (ok a) = true
is_ok (threw e) = false

-- The world is left with `M`, and an error thrown has `P`.
abbrev pub Leaves : {W A : Type 0} → (W → Type 0) → (String → Type 0) → Outcome A × W → Type 0
Leaves M P (ok a, w) = M w
Leaves M P (threw e, w) = M w × P e

pub continue-Leaves :
    {W A B : Type 0} (M : W → Type 0) (P : String → Type 0) (f : A → Action W B) (r : Outcome A × W)
    → Leaves M P r
    → ((a : A) (w : W) → M w → Leaves M P (f a w))
    → Leaves M P (continue f r)
continue-Leaves M P f (ok a, w) h k = k a w h
continue-Leaves M P f (threw e, w) h k = h

pub Leaves-of_world :
    {W A : Type 0} (M : W → Type 0) (r : Outcome A × W) → M r.1 → Leaves M (λ _. Unit {0}) r
Leaves-of_world M (ok a, w) m = m
Leaves-of_world M (threw e, w) m = (m, tt)

pub world_of_Leaves :
    {W A : Type 0} (M : W → Type 0) (P : String → Type 0) (r : Outcome A × W) → Leaves M P r → M r.1
world_of_Leaves M P (ok a, w) m = m
world_of_Leaves M P (threw e, w) (m, p) = m

abbrev error_or : {A : Type 0} → String → Outcome A → String
error_or d (ok a) = d
error_or d (threw e) = e

pub error_of_Leaves :
    {W A : Type 0} (M : W → Type 0) (P : String → Type 0) (r : Outcome A × W) (e : String)
    → Leaves M P r
    → r.0 ≡ threw e
    → P e
error_of_Leaves M P (ok a, w) e m q = cc
error_of_Leaves M P (threw e', w) e (m, p) q = subst P (ap (error_or e') q) p

-- A successful chain: its first step succeeded, and the rest ran in the world that it left.
pub continue-ok :
    {W A B : Type 0} (f : A → Action W B) (r : Outcome A × W) {b : B}
    → (continue f r).0 ≡ ok b
    → (a : A) × (continue f r ≡ f a r.1)
continue-ok f (ok a, w) h = (a, refl)
continue-ok f (threw e, w) h = cc
