-- ===== src/Utils/Debounce/Lost.antt =====
-- A call that another one follows before its timer fires.
use private_deploy.Base.{
  ℕ, zero, suc, ◌<◌, ◌≡◌, refl, sym, ap, ◌∙◌, false, not, ◌||◌, ◌==◌, ==_iff, inl, inr, Option,
  none, some, List, [], ◌∷◌, ◌++◌, length, get_elem?, length-append, All, All-filter, arith,
  Bool-cases,
}
use private_deploy.Utils.Debounce.{
  Status, pending, running, settled, Timer, Debounced, start, without, clear_timeout, set_status,
  has_timer, call, cancel, fire, finish, timer_of, Quiet, passed, fired, finished, Step, called,
  cancelled, quiet, Reach, here, next,
}

-- The call waits, and no timer is there to start it.
abbrev pub Lost : ℕ → Debounced → Type 0
Lost i s = (get_elem? s.promises i ≡ some pending) × (has_timer i s.live ≡ false)

get_elem?-append :
    (i : ℕ) (ps : List Status) {p : Status} (q : Status)
    → get_elem? ps i ≡ some p
    → (get_elem? (ps ++ (q ∷ [])) i ≡ some p) × (i < length ps)
get_elem?-append i [] q h = cc
get_elem?-append zero (x ∷ ps) q h = (h, omega arith)
get_elem?-append (suc i) (x ∷ ps) q h = let (e, k) = get_elem?-append i ps q h in (e, omega arith)

pub get_elem?-set_status :
    (i n : ℕ) (status : Status) (ps : List Status)
    → (n == i) ≡ false
    → get_elem? (set_status n status ps) i ≡ get_elem? ps i
get_elem?-set_status i n status [] h = refl
get_elem?-set_status zero zero status (p ∷ ps) h = ground arith
get_elem?-set_status zero (suc n) status (p ∷ ps) h = refl
get_elem?-set_status (suc i) zero status (p ∷ ps) h = refl
get_elem?-set_status (suc i) (suc n) status (p ∷ ps) h =
    get_elem?-set_status i n status ps (ground arith)

pub has_timer-append :
    (i : ℕ) (live : List Timer) (t : Timer)
    → has_timer i (live ++ (t ∷ [])) ≡ (has_timer i live || t.call == i)
has_timer-append i [] t = ground arith
has_timer-append i (u ∷ live) t = ground (arith, has_timer-append i live t)

pub has_timer-without :
    (i n : ℕ) (live : List Timer) → has_timer i live ≡ false → has_timer i (without n live) ≡ false
has_timer-without i n [] h = refl
has_timer-without i n (t ∷ live) h = ground (arith, has_timer-without i n live)

has_timer-clear_timeout :
    (i : ℕ) (timer : Option ℕ) (live : List Timer)
    → has_timer i live ≡ false
    → has_timer i (clear_timeout timer live) ≡ false
has_timer-clear_timeout i none live h = h
has_timer-clear_timeout i (some n) live h = has_timer-without i n live h

-- A timer that is found is not one of a call without timers.
pub timer_of-ne :
    (i n : ℕ) (live : List Timer) {t : Timer}
    → timer_of n live ≡ some t
    → has_timer i live ≡ false
    → (n == i) ≡ false
timer_of-ne i n [] e h = cc
timer_of-ne i n (u ∷ live) e h = elim (Bool-cases (u.call == n)) [
  | inl k ↦ ground (arith, ==_iff u.call n, ==_iff u.call i, ==_iff n i)
  | inr k ↦ timer_of-ne i n live (rw k at e) (ground arith)
]

call-Lost : (wait i : ℕ) (s : Debounced) → Lost i s → Lost i (call wait s)
unfolding call
call-Lost wait i s (p, h) =
    let (e, k) = get_elem?-append i s.promises pending p in
    (
      e,
      rw
          (
            has_timer-append i (clear_timeout s.timer s.live) _,
            has_timer-clear_timeout i s.timer s.live h,
          )
          (ground arith),
    )

Quiet-Lost : (i : ℕ) {s t : Debounced} → Quiet s t → Lost i s → Lost i t
unfolding fire finish
Quiet-Lost i (passed s ms) l = l
Quiet-Lost i (fired s n t e d) (p, h) = (
  get_elem?-set_status i n running s.promises (timer_of-ne i n s.live e h) ∙ p,
  has_timer-without i n s.live h,
)
Quiet-Lost i (finished s n e) (p, h) =
    (get_elem?-set_status i n settled s.promises (other i n s.promises p e) ∙ p, h)
  where
    other :
        (i n : ℕ) (ps : List Status)
        → get_elem? ps i ≡ some pending
        → get_elem? ps n ≡ some running
        → (n == i) ≡ false
    other i n ps p e = elim (Bool-cases (n == i)) [
      | inl k ↦ absurd (clash (sym p ∙ (ap (get_elem? ps) (sym ((==_iff n i).0 k)) ∙ e)))
      | inr k ↦ k
    ]
      where
        clash : ◌≡◌ {A = Option Status} (some pending) (some running) → ⊥
        clash q = cc

Step-Lost : (wait i : ℕ) {s t : Debounced} → Step wait s t → Lost i s → Lost i t
unfolding cancel
Step-Lost wait i (called s) l = call-Lost wait i s l
Step-Lost wait i (cancelled s) (p, h) = (p, has_timer-clear_timeout i s.timer s.live h)
Step-Lost wait i (quiet q) l = Quiet-Lost i q l

Reach-Lost : (wait i : ℕ) {s t : Debounced} → Lost i s → Reach wait s t → Lost i t
Reach-Lost wait i l here = l
Reach-Lost wait i l (next r st) = Step-Lost wait i st (Reach-Lost wait i l r)

-- What holds of the timers while the function is used: the only one that is live is the one that the
-- variable names, and it is that of a call which was made.
pub record IsSound (s : Debounced) : Type 0 where
  pub named : All (λ t. s.timer ≡ some t.call) s.live
  pub made : All (λ t. t.call < length s.promises) s.live

pub cleared :
    (timer : Option ℕ) (live : List Timer)
    → All (λ t. timer ≡ some t.call) live
    → clear_timeout timer live ≡ []
cleared none [] a = refl
cleared none (t ∷ live) a = cc (a.0)
cleared (some n) [] a = refl
cleared (some n) (t ∷ live) a = ground (arith, cleared (some n) live a.1, a.0, ==_iff t.call n)

pub length-set_status :
    (n : ℕ) (q : Status) (ps : List Status) → length (set_status n q ps) ≡ length ps
length-set_status n q [] = refl
length-set_status zero q (p ∷ ps) = refl
length-set_status (suc n) q (p ∷ ps) = ap suc (length-set_status n q ps)

call-IsSound : (wait : ℕ) {s : Debounced} → IsSound s → IsSound (call wait s)
unfolding call
call-IsSound wait {s} v =
    let e = cleared s.timer s.live v.named in
    record {
      named = rw e (refl, tt);
      made = rw e (rw (length-append s.promises (pending ∷ [])) (omega arith, tt));
    }

All-without : (P : Timer → Type 0) (n : ℕ) (live : List Timer) → All P live → All P (without n live)
All-without P n live a = All-filter P (λ t. not (t.call == n)) live a

Quiet-IsSound : {s t : Debounced} → Quiet s t → IsSound s → IsSound t
unfolding fire finish
Quiet-IsSound (passed s ms) v = record { named = v.named; made = v.made }
Quiet-IsSound (fired s n t e d) v = record {
  named = All-without _ n s.live v.named;
  made = rw (length-set_status n running s.promises) (All-without _ n s.live v.made);
}
Quiet-IsSound (finished s n e) v = record {
  named = v.named;
  made = rw (length-set_status n settled s.promises) v.made;
}

pub Step-IsSound : (wait : ℕ) {s t : Debounced} → Step wait s t → IsSound s → IsSound t
unfolding cancel
Step-IsSound wait (called s) v = call-IsSound wait v
Step-IsSound wait (cancelled s) v =
    let e = cleared s.timer s.live v.named in record { named = rw e tt; made = rw e tt }
Step-IsSound wait (quiet q) v = Quiet-IsSound q v

pub Reach-IsSound : (wait : ℕ) {s : Debounced} → Reach wait start s → IsSound s
Reach-IsSound wait here = record { named = tt; made = tt }
Reach-IsSound wait (next r st) = Step-IsSound wait st (Reach-IsSound wait r)

-- A call that waits for its timer when the function is called again waits for ever: whatever happens
-- from then on, its promise neither resolves nor rejects.
pub call-Lost_for_ever :
    (wait i : ℕ) (s t : Debounced)
    → Reach wait start s
    → get_elem? s.promises i ≡ some pending
    → Reach wait (call wait s) t
    → get_elem? t.promises i ≡ some pending
unfolding call
call-Lost_for_ever wait i s t r p r' =
    let v = Reach-IsSound wait r in
    let (e, k) = get_elem?-append i s.promises pending p in
    (Reach-Lost wait i (e, rw (cleared s.timer s.live v.named) (ground arith)) r').0
