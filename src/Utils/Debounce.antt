-- ===== src/Utils/Debounce.antt =====
-- Debounced functions: `debounce` of frontend/src/utils/others.ts, which the stores save their files
-- by. The calls are numbered, and a call's timer has the number of the call; what happens to the
-- calls is a step relation over a clock in milliseconds.
pub mod Lost
pub mod Served
mod Tests
use private_deploy.Base.{
  ℕ, zero, suc, ◌+◌, ◌≤◌, ◌≡◌, Bool, true, false, not, ◌||◌, ◌==◌, Option, none, some, List, [],
  ◌∷◌, ◌++◌, filter, length, get_elem?, if◌then◌else◌,
}

-- The promise of a call: its timer has not fired, the function runs, or it resolved or rejected.
pub data Status : Type 0 where
  pending : Status
  running : Status
  settled : Status

-- A timer that was set and neither fired nor was cleared.
pub record Timer : Type 0 where
  pub call : ℕ
  pub due : ℕ

-- `timer` is the variable of the closure.
pub record Debounced : Type 0 where
  pub clock : ℕ
  pub timer : Option ℕ
  pub live : List Timer
  pub promises : List Status

abbrev pub start : Debounced
start = record { clock = 0; timer = none; live = []; promises = [] }

abbrev pub without : ℕ → List Timer → List Timer
without call live = filter (λ t. not (t.call == call)) live

-- `timer && clearTimeout(timer)`
abbrev pub clear_timeout : Option ℕ → List Timer → List Timer
clear_timeout none live = live
clear_timeout (some call) live = without call live

abbrev pub set_status : ℕ → Status → List Status → List Status
set_status i status [] = []
set_status zero status (p ∷ ps) = status ∷ ps
set_status (suc i) status (p ∷ ps) = p ∷ set_status i status ps

abbrev pub has_timer : ℕ → List Timer → Bool
has_timer call [] = false
has_timer call (t ∷ live) = t.call == call || has_timer call live

-- A call of the debounced function.
unfoldable pub call : ℕ → Debounced → Debounced
call wait s =
    let n = length s.promises in
    record s {
      timer = some n;
      live = clear_timeout s.timer s.live ++ (record { call = n; due = s.clock + wait } ∷ []);
      promises = s.promises ++ (pending ∷ []);
    }

unfoldable pub cancel : Debounced → Debounced
cancel s = record s { timer = none; live = clear_timeout s.timer s.live }

-- The timer of a call fires, and the function starts.
unfoldable pub fire : ℕ → Debounced → Debounced
fire n s = record s { live = without n s.live; promises = set_status n running s.promises }

-- The function of a call returned or threw.
unfoldable pub finish : ℕ → Debounced → Debounced
finish n s = record s { promises = set_status n settled s.promises }

-- The first timer of a call that is live.
abbrev pub timer_of : ℕ → List Timer → Option Timer
timer_of n [] = none
timer_of n (t ∷ live) = if t.call == n then some t else timer_of n live

-- What can happen while the function is neither called nor cancelled.
pub data Quiet : Debounced → Debounced → Type 0 where
  passed : (s : Debounced) (ms : ℕ) → Quiet s (record s { clock = s.clock + ms })
  fired :
      (s : Debounced) (n : ℕ) (t : Timer)
      → timer_of n s.live ≡ some t
      → t.due ≤ s.clock
      → Quiet s (fire n s)
  finished : (s : Debounced) (n : ℕ) → get_elem? s.promises n ≡ some running → Quiet s (finish n s)

pub data Step (wait : ℕ) : Debounced → Debounced → Type 0 where
  called : (s : Debounced) → Step wait s (call wait s)
  cancelled : (s : Debounced) → Step wait s (cancel s)
  quiet : {s t : Debounced} → Quiet s t → Step wait s t

pub data Reach (wait : ℕ) (s : Debounced) : Debounced → Type 0 where
  here : Reach wait s s
  next : {t u : Debounced} → Reach wait s t → Step wait t u → Reach wait s u

pub data QuietReach (s : Debounced) : Debounced → Type 0 where
  here : QuietReach s s
  next : {t u : Debounced} → QuietReach s t → Quiet t u → QuietReach s u
