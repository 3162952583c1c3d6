-- ===== src/Utils/Debounce/Served.antt =====
-- The last call is served.
use private_deploy.Base.{
  ℕ, zero, suc, ◌+◌, ◌≤◌, ◌<◌, ◌≡◌, refl, sym, ◌∙◌, subst, false, ◌==◌, ==_iff, ◌⊎◌, inl, inr,
  Option, some, List, [], ◌∷◌, length, get_elem?, length-append, arith, Bool-cases,
}
use private_deploy.Utils.Debounce.{
  Status, pending, running, settled, Timer, Debounced, start, without, set_status, has_timer, call,
  fire, finish, timer_of, Quiet, passed, fired, finished, Reach, QuietReach, here, next,
}
use private_deploy.Utils.Debounce.Lost.{
  has_timer-without, timer_of-ne, cleared, length-set_status, get_elem?-set_status, Reach-IsSound,
}

-- A timer is set for the call.
abbrev Armed : ℕ → Debounced → Type 0
Armed n s = (t : Timer) × (timer_of n s.live ≡ some t)

-- The timer fired.
abbrev Begun : ℕ → Debounced → Type 0
Begun n s =
    (has_timer n s.live ≡ false)
    × ((get_elem? s.promises n ≡ some running) ⊎ (get_elem? s.promises n ≡ some settled))

abbrev Served : ℕ → Debounced → Type 0
Served n s = (n < length s.promises) × (Armed n s ⊎ Begun n s)

get_elem?-set_status_self :
    (n : ℕ) (q : Status) (ps : List Status)
    → n < length ps
    → get_elem? (set_status n q ps) n ≡ some q
get_elem?-set_status_self n q [] h = absurd (omega arith)
get_elem?-set_status_self zero q (p ∷ ps) h = refl
get_elem?-set_status_self (suc n) q (p ∷ ps) h = get_elem?-set_status_self n q ps (omega arith)

has_timer-without_self : (n : ℕ) (live : List Timer) → has_timer n (without n live) ≡ false
has_timer-without_self n [] = refl
has_timer-without_self n (t ∷ live) = ground (arith, has_timer-without_self n live)

timer_of-without :
    (n m : ℕ) (live : List Timer) → (m == n) ≡ false → timer_of n (without m live) ≡ timer_of n live
timer_of-without n m [] h = refl
timer_of-without n m (t ∷ live) h =
    ground (arith, timer_of-without n m live h, ==_iff t.call n, ==_iff t.call m, ==_iff m n)

-- A status that is set at a call leaves another call's, and is the call's own.
fired-Begun :
    (n m : ℕ) (s : Debounced)
    → n < length s.promises
    → Begun n s
    → (m == n) ≡ false
    → Begun n (fire m s)
unfolding fire
fired-Begun n m s k (h, inl e) d =
    (has_timer-without n m s.live h, inl (get_elem?-set_status n m running s.promises d ∙ e))
fired-Begun n m s k (h, inr e) d =
    (has_timer-without n m s.live h, inr (get_elem?-set_status n m running s.promises d ∙ e))

finished-Begun :
    (n m : ℕ) (s : Debounced) → n < length s.promises → Begun n s → Begun n (finish m s)
unfolding finish
finished-Begun n m s k (h, b) = elim (Bool-cases (m == n)) [
  | inl e ↦
      let q : m ≡ n = (==_iff m n).0 e in
      (
        h,
        inr (
            subst (λ j. get_elem? (set_status j settled s.promises) n ≡ some settled) (sym q)
              (get_elem?-set_status_self n settled s.promises k)),
      )
  | inr e ↦ (h, kept (get_elem?-set_status n m settled s.promises e) b)
]
  where
    kept :
        {a b : Option Status}
        → a ≡ b
        → (b ≡ some running) ⊎ (b ≡ some settled)
        → (a ≡ some running) ⊎ (a ≡ some settled)
    kept q (inl e) = inl (q ∙ e)
    kept q (inr e) = inr (q ∙ e)

fired-Served :
    (n m : ℕ) (t : Timer) (s : Debounced)
    → timer_of m s.live ≡ some t
    → Served n s
    → Served n (fire m s)
unfolding fire
fired-Served n m t s q (k, inr b) = (
  rw (length-set_status m running s.promises) k,
  inr (fired-Begun n m s k b (timer_of-ne n m s.live q b.0)),
)
fired-Served n m t s q (k, inl (u, e)) = elim (Bool-cases (m == n)) [
  | inl d ↦
      let p : m ≡ n = (==_iff m n).0 d in
      (
        rw (length-set_status m running s.promises) k,
        inr (
          subst (λ j. has_timer n (without j s.live) ≡ false) (sym p)
              (has_timer-without_self n s.live),
          inl (
              subst (λ j. get_elem? (set_status j running s.promises) n ≡ some running) (sym p)
                (get_elem?-set_status_self n running s.promises k)),
        ),
      )
  | inr d ↦
      (rw (length-set_status m running s.promises) k, inl (u, timer_of-without n m s.live d ∙ e))
]

Quiet-Served : (n : ℕ) {s t : Debounced} → Quiet s t → Served n s → Served n t
unfolding finish
Quiet-Served n (passed s ms) h = h
Quiet-Served n (fired s m t q d) h = fired-Served n m t s q h
Quiet-Served n (finished s m q) (k, inl a) = (rw (length-set_status m settled s.promises) k, inl a)
Quiet-Served n (finished s m q) (k, inr b) =
    (rw (length-set_status m settled s.promises) k, inr (finished-Begun n m s k b))

QuietReach-Served : (n : ℕ) {s t : Debounced} → QuietReach s t → Served n s → Served n t
QuietReach-Served n here h = h
QuietReach-Served n (next r q) h = Quiet-Served n q (QuietReach-Served n r h)

-- The promise is settled in some state behind this one.
abbrev pub Settles : ℕ → Debounced → Type 0
Settles n t = (u : Debounced) × QuietReach t u × (get_elem? u.promises n ≡ some settled)

running-Settles :
    (n : ℕ) (t u : Debounced)
    → QuietReach t u
    → n < length u.promises
    → get_elem? u.promises n ≡ some running
    → Settles n t
unfolding finish
running-Settles n t u r k e =
    (finish n u, next r (finished u n e), get_elem?-set_status_self n settled u.promises k)

late : (due clock : ℕ) → due ≤ clock + due
late due clock = omega arith

Served-Settles : (n : ℕ) (t : Debounced) → Served n t → Settles n t
unfolding fire
Served-Settles n t (k, inr (h, inr e)) = (t, here, e)
Served-Settles n t (k, inr (h, inl e)) = running-Settles n t t here k e
Served-Settles n t (k, inl (timer, e)) =
    let t' : Debounced = record t { clock = t.clock + timer.due } in
    running-Settles n t (fire n t')
      (next (next here (passed t timer.due)) (fired t' n timer e (late timer.due t.clock)))
      (rw (length-set_status n running t.promises) k)
      (get_elem?-set_status_self n running t.promises k)

-- The call that the function was called by last is served: as long as the function is neither called
-- again nor cancelled, there is always a way on, by time passing, the timer firing and the function
-- ending, that settles the promise.
pub call-Settles :
    (wait : ℕ) (s t : Debounced)
    → Reach wait start s
    → QuietReach (call wait s) t
    → Settles (length s.promises) t
unfolding call
call-Settles wait s t r q =
    let n = length s.promises in
    let v = Reach-IsSound wait r in
    Served-Settles n t (
      QuietReach-Served n q (
        rw (length-append s.promises (pending ∷ [])) (omega arith),
        inl (
          record { call = n; due = s.clock + wait },
          rw (cleared s.timer s.live v.named) (ground arith),
        ),
      ))
