-- ===== src/Utils/Debounce/Tests.antt =====
-- Two calls of a function that waits 100 ms, one right behind the other.
use private_deploy.Base.{◌+◌, ◌≤◌, ◌≡◌, refl, some, [], ◌∷◌, length, get_elem?, arith}
use private_deploy.Utils.Debounce.{
  pending, running, settled, Debounced, start, call, fire, finish, timer_of, passed, fired,
  finished, called, quiet, Reach, here, next,
}
use private_deploy.Utils.Debounce.Lost.{call-Lost_for_ever}
use private_deploy.Utils.Debounce.Served.{Settles, call-Settles}

abbrev once : Debounced
once = call 100 start

abbrev twice : Debounced
twice = call 100 once

abbrev later : Debounced
later = record twice { clock = twice.clock + 100 }

once-reached : Reach 100 start once
once-reached = next here (called start)

second_timer : timer_of 1 later.live ≡ some (record { call = 1; due = 100 })
unfolding call
second_timer = refl

second_due : 100 ≤ later.clock
unfolding call
second_due = omega arith

second_runs : get_elem? (fire 1 later).promises 1 ≡ some running
unfolding call fire
second_runs = refl

-- The second call is served.
served : Reach 100 twice (finish 1 (fire 1 later))
served =
    next
      (next (next here (quiet (passed twice 100)))
        (quiet (fired later 1 (record { call = 1; due = 100 }) second_timer second_due)))
      (quiet (finished (fire 1 later) 1 second_runs))

served_promises : (finish 1 (fire 1 later)).promises ≡ pending ∷ settled ∷ []
unfolding call fire finish
served_promises = refl

first_waits : get_elem? once.promises 0 ≡ some pending
unfolding call
first_waits = refl

call-Lost_for_ever_example : get_elem? (finish 1 (fire 1 later)).promises 0 ≡ some pending
call-Lost_for_ever_example =
    call-Lost_for_ever 100 0 once (finish 1 (fire 1 later)) once-reached first_waits served

call-Settles_example : Settles (length once.promises) (record twice { clock = twice.clock + 40 })
call-Settles_example =
    call-Settles 100 once (record twice { clock = twice.clock + 40 }) once-reached
      (next here (passed twice 40))
