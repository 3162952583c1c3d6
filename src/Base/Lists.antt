-- ===== src/Base/Lists.antt =====
-- Lists measured and searched by native numbers and Boolean tests, under the library's names.
use Prim.Native.Nat.{ℕ, zero, suc, ◌+◌, ◌-◌, ◌≤◌}
use mathlib.Core.Path.{◌≡◌, refl, ap}
use mathlib.Core.Logic.{inl, inr}
use mathlib.Core.Bool.{Bool, true, false, ◌&&◌, ◌||◌}
use mathlib.Core.List.{List, [], ◌∷◌, ◌++◌, map, Memᴰ}
use mathlib.Core.Option.{Option, none, some}
use native.Mathlib.Omega.{arith}
use private_deploy.Base.Tests.{if◌then◌else◌, Bool-cases}

module _ {ℓ} {A : Type ℓ} where
  abbrev pub length : List A → ℕ
  length [] = 0
  length (x ∷ xs) = suc (length xs)

  abbrev pub get_elem? : List A → ℕ → Option A
  get_elem? [] i = none
  get_elem? (x ∷ xs) zero = some x
  get_elem? (x ∷ xs) (suc i) = get_elem? xs i

  abbrev pub take : ℕ → List A → List A
  take zero xs = []
  take (suc n) [] = []
  take (suc n) (x ∷ xs) = x ∷ take n xs

  abbrev pub drop : ℕ → List A → List A
  drop zero xs = xs
  drop (suc n) [] = []
  drop (suc n) (x ∷ xs) = drop n xs

  -- `xs.filter(p)`
  abbrev pub filter : (A → Bool) → List A → List A
  filter p [] = []
  filter p (x ∷ xs) = let rest = filter p xs in if p x then x ∷ rest else rest

  -- `xs.some(p)`
  abbrev pub any : (A → Bool) → List A → Bool
  any p [] = false
  any p (x ∷ xs) = p x || any p xs

  -- `xs.every(p)`
  abbrev pub all : (A → Bool) → List A → Bool
  all p [] = true
  all p (x ∷ xs) = p x && all p xs

  -- `xs.find(p)`
  abbrev pub find : (A → Bool) → List A → Option A
  find p [] = none
  find p (x ∷ xs) = if p x then some x else find p xs

  abbrev pub head? : List A → Option A
  head? [] = none
  head? (x ∷ xs) = some x

  abbrev pub All {κ} : (A → Type κ) → List A → Type κ
  All P [] = Unit
  All P (x ∷ xs) = P x × All P xs

  pub length-append : (xs ys : List A) → length (xs ++ ys) ≡ length xs + length ys
  length-append [] ys = omega arith
  length-append (x ∷ xs) ys = omega (arith, length-append xs ys)

  pub length-filter-le : (p : A → Bool) (xs : List A) → length (filter p xs) ≤ length xs
  length-filter-le p [] = omega arith
  length-filter-le p (x ∷ xs) = ground (arith, length-filter-le p xs)

  pub length-drop : (n : ℕ) (xs : List A) → length (drop n xs) ≡ length xs - n
  length-drop zero xs = omega arith
  length-drop (suc n) [] = omega arith
  length-drop (suc n) (x ∷ xs) = omega (arith, length-drop n xs)

  pub filter-append :
      (p : A → Bool) (xs ys : List A) → filter p (xs ++ ys) ≡ filter p xs ++ filter p ys
  filter-append p [] ys = refl
  filter-append p (x ∷ xs) ys = ground (arith, filter-append p xs ys)

  pub filter_idem : (p : A → Bool) (xs : List A) → filter p (filter p xs) ≡ filter p xs
  filter_idem p [] = refl
  filter_idem p (x ∷ xs) = ground (arith, filter_idem p xs)

module _ {ℓ} {A : Type ℓ} where
  pub All-append {κ} : (P : A → Type κ) (xs ys : List A) → All P xs → All P ys → All P (xs ++ ys)
  All-append P [] ys hx hy = hy
  All-append P (x ∷ xs) ys hx hy = (hx.0, All-append P xs ys hx.1 hy)

  -- The kept elements pass the test.
  pub filter-All : (p : A → Bool) (xs : List A) → All (λ x. p x ≡ true) (filter p xs)
  filter-All p [] = tt
  filter-All p (x ∷ xs) = elim (Bool-cases (p x)) [
    | inl e ↦ rw e (e, filter-All p xs)
    | inr e ↦ rw e (filter-All p xs)
  ]

  -- A property of all the elements is one of those kept.
  pub All-filter {κ} :
      (P : A → Type κ) (p : A → Bool) (xs : List A) → All P xs → All P (filter p xs)
  All-filter P p [] h = tt
  All-filter P p (x ∷ xs) h = elim (Bool-cases (p x)) [
    | inl e ↦ rw e (h.0, All-filter P p xs h.1)
    | inr e ↦ rw e (All-filter P p xs h.1)
  ]

  pub filter-eq_self : (p : A → Bool) (xs : List A) → All (λ x. p x ≡ true) xs → filter p xs ≡ xs
  filter-eq_self p [] h = refl
  filter-eq_self p (x ∷ xs) h = rw (h.0) (ap (λ r. x ∷ r) (filter-eq_self p xs h.1))

  pub All-drop {κ} : (P : A → Type κ) (n : ℕ) (xs : List A) → All P xs → All P (drop n xs)
  All-drop P zero xs h = h
  All-drop P (suc n) [] h = tt
  All-drop P (suc n) (x ∷ xs) h = All-drop P n xs h.1

  pub All-take {κ} : (P : A → Type κ) (n : ℕ) (xs : List A) → All P xs → All P (take n xs)
  All-take P zero xs h = tt
  All-take P (suc n) [] h = tt
  All-take P (suc n) (x ∷ xs) h = (h.0, All-take P n xs h.1)

  pub length-map {κ} : {B : Type κ} (f : A → B) (xs : List A) → length (map f xs) ≡ length xs
  length-map f [] = refl
  length-map f (x ∷ xs) = ap suc (length-map f xs)

  pub All-Memᴰ {κ} : (P : A → Type κ) {a : A} {xs : List A} → All P xs → Memᴰ a xs → P a
  All-Memᴰ P h (Memᴰ.head e) = rw e h.0
  All-Memᴰ P h (Memᴰ.tail m) = All-Memᴰ P h.1 m

  pub Memᴰ-append : (xs : List A) (x : A) → Memᴰ x (xs ++ (x ∷ []))
  Memᴰ-append [] x = Memᴰ.head refl
  Memᴰ-append (y ∷ xs) x = Memᴰ.tail (Memᴰ-append xs x)

  pub Memᴰ-filter :
      (p : A → Bool) {a : A} {xs : List A} → Memᴰ a xs → p a ≡ true → Memᴰ a (filter p xs)
  Memᴰ-filter p (Memᴰ.head {x} {xs} e) h = rw (← e, h) (Memᴰ.head refl)
  Memᴰ-filter p (Memᴰ.tail {x} {xs} m) h = elim (Bool-cases (p x)) [
    | inl k ↦ rw k (Memᴰ.tail (Memᴰ-filter p m h))
    | inr k ↦ rw k (Memᴰ-filter p m h)
  ]

module _ {ℓ} {A : Type ℓ} where
  pub append-nil' : (xs : List A) → xs ++ [] ≡ xs
  append-nil' [] = refl
  append-nil' (x ∷ xs) = ap (λ r. x ∷ r) (append-nil' xs)

  -- Nothing passes.
  pub filter-nil_of_All :
      (p : A → Bool) (xs : List A) → All (λ x. p x ≡ false) xs → filter p xs ≡ []
  filter-nil_of_All p [] h = refl
  filter-nil_of_All p (x ∷ xs) h = rw (h.0) (filter-nil_of_All p xs h.1)

module _ {ℓ} {A : Type ℓ} where
  pub All-mono {κ μ} :
      (P : A → Type κ) (Q : A → Type μ) (xs : List A) → ((x : A) → P x → Q x) → All P xs → All Q xs
  All-mono P Q [] e h = tt
  All-mono P Q (x ∷ xs) e h = (e x h.0, All-mono P Q xs e h.1)
