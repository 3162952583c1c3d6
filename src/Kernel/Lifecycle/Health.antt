-- ===== src/Kernel/Lifecycle/Health.antt =====
-- What a check of the kernel's health leaves in the store.
use private_deploy.Base.{
  ◌≡◌, refl, ◌∙◌, ap, Bool, true, false, not, ◌&&◌, ◌||◌, String, Outcome, ok, threw, ◌>>=◌,
  continue, ==_iff, if_cases, subst, sym,
}
use private_deploy.Kernel.Lifecycle.{
  Pid, absent, pid, not_a_number, unbounded, other, pid_eq, same_flag, is_core_name, Core, Machine,
  LifecycleDeps, set_core, quietly, read_disk_pid, process_name, when, start_silently,
  on_core_stopped, core_crashed, on_drift, compare_core, observe_core, health_task,
  check_core_health,
}
use private_deploy.Kernel.Lifecycle.Quiet.{Quiet, refresh_all-core}
use private_deploy.Kernel.Lifecycle.Stop.{on_core_stopped-core}

-- The store agrees with a process and a process id that were seen.
abbrev pub Agrees : Pid → Bool → Core → Type 0
Agrees p observed c = (c.running ≡ observed) × (observed ≡ true → c.core_pid ≡ p)

same_flag→≡ : {a b : Bool} → same_flag a b ≡ true → a ≡ b
same_flag→≡ {a = true} {b = true} e = refl
same_flag→≡ {a = true} {b = false} e = cc
same_flag→≡ {a = false} {b = true} e = cc
same_flag→≡ {a = false} {b = false} e = refl

both_true : {a b : Bool} → a && b ≡ true → (a ≡ true) × (b ≡ true)
both_true {a = true} {b = true} e = (refl, refl)
both_true {a = true} {b = false} e = cc
both_true {a = false} e = cc

pid_eq→≡ : (p q : Pid) → pid_eq p q ≡ true → p ≡ q
pid_eq→≡ absent absent e = refl
pid_eq→≡ absent (pid b0) e = cc
pid_eq→≡ absent not_a_number e = cc
pid_eq→≡ absent (unbounded b0) e = cc
pid_eq→≡ absent (other b0 b1 b2) e = cc
pid_eq→≡ (pid a0) absent e = cc
pid_eq→≡ (pid a0) (pid b0) e = ap pid ((==_iff a0 b0).0 e)
pid_eq→≡ (pid a0) not_a_number e = cc
pid_eq→≡ (pid a0) (unbounded b0) e = cc
pid_eq→≡ (pid a0) (other b0 b1 b2) e = cc
pid_eq→≡ not_a_number absent e = cc
pid_eq→≡ not_a_number (pid b0) e = cc
pid_eq→≡ not_a_number not_a_number e = cc
pid_eq→≡ not_a_number (unbounded b0) e = cc
pid_eq→≡ not_a_number (other b0 b1 b2) e = cc
pid_eq→≡ (unbounded a0) absent e = cc
pid_eq→≡ (unbounded a0) (pid b0) e = cc
pid_eq→≡ (unbounded a0) not_a_number e = cc
pid_eq→≡ (unbounded a0) (unbounded b0) e = ap unbounded (same_flag→≡ e)
pid_eq→≡ (unbounded a0) (other b0 b1 b2) e = cc
pid_eq→≡ (other a0 a1 a2) absent e = cc
pid_eq→≡ (other a0 a1 a2) (pid b0) e = cc
pid_eq→≡ (other a0 a1 a2) not_a_number e = cc
pid_eq→≡ (other a0 a1 a2) (unbounded b0) e = cc
pid_eq→≡ (other a0 a1 a2) (other b0 b1 b2) e =
    let (x, yz) = both_true e in
    let (y, z) = both_true yz in
    let sign : a0 ≡ b0 = same_flag→≡ x in
    let digits : a1 ≡ b1 = (==_iff a1 b1).0 y in
    let places : a2 ≡ b2 = (==_iff a2 b2).0 z in rw (sign, digits, places) refl

not-false : {b : Bool} → not b ≡ false → b ≡ true
not-false {b = true} e = refl
not-false {b = false} e = cc

absurd_left : {A : Type 0} (a b : Bool) → a ≡ true → (a || b) ≡ false → A
absurd_left true b p q = cc
absurd_left false b p q = cc

absurd_right : {A : Type 0} (a b : Bool) → b ≡ true → (a || b) ≡ false → A
absurd_right true b p q = cc
absurd_right false b p q = cc

absurd_flags : {A : Type 0} {a b : Bool} → a ≡ false → b ≡ false → (a || b) ≡ true → A
absurd_flags {a = true} p q r = cc
absurd_flags {a = false} p q r = cc

some_value : {A : Type 0} → A → Outcome A → A
some_value d (ok a) = a
some_value d (threw e) = d

-- Two results of calls that returned.
value_eq : {A : Type 0} (a : A) {b : A} → ok a ≡ ok b → a ≡ b
unfolding some_value
value_eq a e = ap (some_value a) e

module _ {P W : Type 0} (deps : LifecycleDeps P W) (q : Quiet deps) where
  ended_by :
      (r : Outcome (Unit {0}) × Machine W)
      → (r.0 ≡ ok tt → r.1.core.running ≡ false)
      → deps.is_auto_start_kernel_enabled r.1 ≡ false
      → (continue
          (λ _. when deps deps.is_auto_start_kernel_enabled (quietly (start_silently deps)))
          r).0
        ≡ ok tt
      → (continue
          (λ _. when deps deps.is_auto_start_kernel_enabled (quietly (start_silently deps)))
          r).1.core.running
        ≡ false
  unfolding when
  ended_by (ok a, s) h e k = rw e (h refl)
  ended_by (threw e', s) h e k = cc

  core_crashed-running :
      (s : Machine W)
      → deps.is_auto_start_kernel_enabled (on_core_stopped deps s).1 ≡ false
      → (core_crashed deps s).0 ≡ ok tt
      → (core_crashed deps s).1.core.running ≡ false
  unfolding core_crashed when
  core_crashed-running s a k =
      ended_by (on_core_stopped deps s) (λ h. ap Core.running (on_core_stopped-core deps q s h)) a k

  on_drift-Agrees :
      ((t : Machine W) → deps.is_auto_start_kernel_enabled t ≡ false)
      → (r o : Bool) (was disk : Pid) (s : Machine W) → s.core.running ≡ r
      → s.core.core_pid ≡ was
      → (on_drift deps r o was disk s).0 ≡ ok tt
      → Agrees disk o (on_drift deps r o was disk s).1.core
  unfolding on_drift
  on_drift-Agrees a true false was disk s hr hp k = (core_crashed-running s (a _) k, cc)
  on_drift-Agrees a false true was disk s hr hp k =
      let e =
        refresh_all-core deps q (set_core (λ c. record c { core_pid = disk; running = true }) s) in
      (ap Core.running e, λ _. ap Core.core_pid e)
  on_drift-Agrees a false false was disk s hr hp k = (hr, cc)
  on_drift-Agrees a true true was disk s hr hp k0 =
      if_cases (not (pid_eq was disk))
        (λ (r : Outcome (Unit {0}) × Machine W). r.0 ≡ ok tt → Agrees disk true r.1.core)
        (λ _ _.
          let e = refresh_all-core deps q (set_core (λ c. record c { core_pid = disk }) s) in
          (ap Core.running e ∙ hr, λ _. ap Core.core_pid e))
        (λ e _. (hr, λ _. hp ∙ pid_eq→≡ was disk (not-false e))) k0

  compare_core-Agrees :
      ((t : Machine W) → deps.is_auto_start_kernel_enabled t ≡ false)
      → (disk : Pid) (o : Bool) (s : Machine W) → (compare_core deps disk o s).0 ≡ ok tt
      → Agrees disk o (compare_core deps disk o s).1.core
  unfolding compare_core
  compare_core-Agrees a disk o s =
      if_cases (same_flag s.core.running o && pid_eq s.core.core_pid disk)
        (λ (r : Outcome (Unit {0}) × Machine W). r.0 ≡ ok tt → Agrees disk o r.1.core)
        (λ e _. let (e1, e2) = both_true e in (same_flag→≡ e1, λ _. pid_eq→≡ _ disk e2))
        λ _. on_drift-Agrees a s.core.running o s.core.core_pid disk s refl refl

  named_by :
      ((t : Machine W) → deps.is_auto_start_kernel_enabled t ≡ false)
      → (disk : Pid) (name : String) (r : Outcome String × Machine W) → r.0 ≡ ok name
      → (continue (λ n. compare_core deps disk (is_core_name n)) r).0 ≡ ok tt
      → Agrees disk
          (is_core_name name)
          (continue (λ n. compare_core deps disk (is_core_name n)) r).1.core
  named_by a disk name (ok n, s) e k =
      subst (λ m. Agrees disk (is_core_name m) (compare_core deps disk (is_core_name n) s).1.core)
        (value_eq n e) (compare_core-Agrees a disk (is_core_name n) s k)
  named_by a disk name (threw e', s) e k = cc

  found_by :
      ((t : Machine W) → deps.is_auto_start_kernel_enabled t ≡ false)
      → (disk : Pid) (name : String) (r : Outcome Pid × Machine W) → r.0 ≡ ok disk
      → (process_name deps disk r.1).0 ≡ ok name
      → (continue (λ d. do n ← process_name deps d; compare_core deps d (is_core_name n)) r).0
        ≡ ok tt
      → Agrees disk
          (is_core_name name)
          (continue
            (λ d. do n ← process_name deps d; compare_core deps d (is_core_name n))
            r).1.core
  found_by a disk name (ok d, s) e h k0 =
      subst
        (λ m.
          (continue (λ n. compare_core deps m (is_core_name n)) (process_name deps m s)).0 ≡ ok tt
          → Agrees disk (is_core_name name)
              (continue (λ n. compare_core deps m (is_core_name n)) (process_name deps m s)).1.core)
        (sym (value_eq d e)) (named_by a disk name (process_name deps disk s) h) k0
  found_by a disk name (threw e', s) e h k = cc

  -- Where the calls made leave the store's own refs alone, the kernel is not started by itself and
  -- nothing is under way, a check that returns leaves
  -- a store that agrees with the process found under the id on disk.
  pub health_task-Agrees :
      ((t : Machine W) → deps.is_auto_start_kernel_enabled t ≡ false)
      → (s : Machine W) (disk : Pid) (name : String)
      → (s.core.core_state_loading || (s.core.stopping || s.core.restarting)) ≡ false
      → (read_disk_pid deps s).0 ≡ ok disk
      → (process_name deps disk (read_disk_pid deps s).1).0 ≡ ok name
      → (health_task deps s).0 ≡ ok tt
      → Agrees disk (is_core_name name) (health_task deps s).1.core
  unfolding health_task observe_core
  health_task-Agrees a s disk name hb hp hn =
      let M : Outcome (Unit {0}) × Machine W → Type 0 =
        λ r. r.0 ≡ ok tt → Agrees disk (is_core_name name) r.1.core in
      if_cases s.core.core_state_loading M (λ e. absurd_left _ _ e hb)
        λ _.
          if_cases (s.core.stopping || s.core.restarting) M
            (λ e. absurd_right s.core.core_state_loading _ e hb)
            λ _. found_by a disk name (read_disk_pid deps s) hp hn

module _ {P W : Type 0} (deps : LifecycleDeps P W) where
  health_task-idle :
      (s : Machine W)
      → (s.core.core_state_loading || (s.core.stopping || s.core.restarting)) ≡ true
      → health_task deps s ≡ (ok tt, s)
  unfolding health_task
  health_task-idle s b =
      if_cases s.core.core_state_loading (λ r. r ≡ (ok tt, s)) (λ _. refl)
        λ e.
          if_cases (s.core.stopping || s.core.restarting) (λ r. r ≡ (ok tt, s)) (λ _. refl)
            λ e'. absurd_flags e e' b

  -- While the state is loading, or the kernel stops or restarts, and no check is under way, a check
  -- calls nothing and changes nothing but its own flag, which it resets.
  pub check_core_health-idle :
      (s : Machine W)
      → s.core.health_check_in_flight ≡ false
      → (s.core.core_state_loading || (s.core.stopping || s.core.restarting)) ≡ true
      → check_core_health deps s
        ≡ (ok tt, set_core (λ c. record c { health_check_in_flight = false }) s)
  unfolding check_core_health
  check_core_health-idle s h b =
      rw (h, health_task-idle (set_core (λ c. record c { health_check_in_flight = true }) s) b) refl
