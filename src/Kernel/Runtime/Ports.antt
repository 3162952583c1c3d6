-- ===== src/Kernel/Runtime/Ports.antt =====
-- What an allocated port may be.
use private_deploy.Base.{
  ℕ, zero, suc, ◌≡◌, refl, Bool, true, false, inl, inr, ◌⊎◌, List, [], ◌∷◌, ◌++◌, Outcome, ok,
  threw, Action, continue, arith, Bool-cases, if◌then◌else◌,
}
use private_deploy.Kernel.Runtime.{has_port, taken, allocate, allocate_port}

has_port-push : (p : ℕ) (ps : List ℕ) → has_port p (ps ++ (p ∷ [])) ≡ true
has_port-push p [] = ground arith
has_port-push p (q ∷ ps) = ground (arith, has_port-push p ps)

has_port-taken :
    (p : ℕ) (ps : List ℕ) → has_port p (if has_port p ps then ps else ps ++ (p ∷ [])) ≡ true
has_port-taken p ps = elim (Bool-cases (has_port p ps)) [
  | inl e ↦ rw e e
  | inr e ↦ rw e (has_port-push p ps)
]

module _ {W : Type 0} (get_available_port : Action W ℕ) where
  -- The first answer and the `n - 1` after it are ports in use, as far as there are answers.
  abbrev pub AllUsed : ℕ → List ℕ → Outcome ℕ × W → Type 0
  AllUsed zero used r = Unit
  AllUsed (suc n) used (ok port, w) =
      (has_port port used ≡ true) × AllUsed n used (get_available_port w)
  AllUsed (suc n) used (threw e, w) = Unit

  -- A port and the ports in use after it.
  abbrev pub Allocated : ℕ → List ℕ → Outcome ℕ × W → Outcome (ℕ × List ℕ) → Type 0
  Allocated n used first (ok (port, used')) =
      (has_port port used' ≡ true) × (has_port port used ≡ false ⊎ AllUsed n used first)
  Allocated n used first (threw e) = Unit

  last-Allocated :
      (used : List ℕ) (r : Outcome ℕ × W)
      → Allocated zero used r (continue (λ port w. (taken used port, w)) r).0
  last-Allocated used (ok port, w) = (has_port-taken port used, inr tt)
  last-Allocated used (threw e, w) = tt

  later-Allocated :
      (n : ℕ) (used : List ℕ) (port : ℕ) (w : W)
      → has_port port used ≡ true
      → (r : Outcome (ℕ × List ℕ)) → Allocated n used (get_available_port w) r
      → Allocated (suc n) used (ok port, w) r
  later-Allocated n used port w e (ok (p, u)) (m, inl x) = (m, inl x)
  later-Allocated n used port w e (ok (p, u)) (m, inr a) = (m, inr (e, a))
  later-Allocated n used port w e (threw e') h = tt

  answer-Allocated :
      (n : ℕ) (used : List ℕ) (port : ℕ) (w : W)
      → Allocated n used (get_available_port w) (allocate get_available_port n used w).0
      → (b : Bool) → has_port port used ≡ b
      → Allocated
          (suc n)
          used
          (ok port, w)
          (elim b as (λ _. Outcome (ℕ × List ℕ) × W) [
            | true ↦ allocate get_available_port n used w
            | false ↦ (taken used port, w)
          ]).0
  answer-Allocated n used port w ih true e = later-Allocated n used port w e _ ih
  answer-Allocated n used port w ih false e = (has_port-taken port used, inl e)

  step-Allocated :
      (n : ℕ) (used : List ℕ)
      → ((w : W) → Allocated n used (get_available_port w) (allocate get_available_port n used w).0)
      → (r : Outcome ℕ × W)
      → Allocated
          (suc n)
          used
          r
          (continue
            (λ port w. elim (has_port port used) [
              | true ↦ allocate get_available_port n used w
              | false ↦ (taken used port, w)
            ])
            r).0
  step-Allocated n used ih (ok port, w) =
      answer-Allocated n used port w (ih w) (has_port port used) refl
  step-Allocated n used ih (threw e, w) = tt

  allocate-Allocated :
      (n : ℕ) (used : List ℕ) (w : W)
      → Allocated n used (get_available_port w) (allocate get_available_port n used w).0
  unfolding allocate
  allocate-Allocated zero used w = last-Allocated used (get_available_port w)
  allocate-Allocated (suc n) used w =
      step-Allocated n used (allocate-Allocated n used) (get_available_port w)

  -- A port that is allocated is marked as in use, and was not in use before, unless the first ten
  -- answers were all ports in use.
  pub allocate_port-Allocated :
      (used : List ℕ) (w : W)
      → Allocated 10 used (get_available_port w) (allocate_port get_available_port used w).0
  unfolding allocate_port
  allocate_port-Allocated used w = allocate-Allocated 10 used w
