-- ===== src/Cloud/Subscription/Edits.antt =====
-- `editProfile` of frontend/src/stores/profiles.ts for several profiles at once: each edit changes the
-- list and calls the debounced save, and `Promise.all` waits for them. Between the calls and the end
-- of the save nothing else runs, and no earlier save is waiting. The profiles are some of the list, so
-- that the early return of `editProfile` for an unknown id is not taken.
use private_deploy.Base.{
  ℕ, zero, suc, Option, none, some, List, [], ◌∷◌, map, length, get_elem?, String, str_eq, Bool,
  Outcome, ok, threw,
}
use private_deploy.Cloud.Subscription.Calls.{
  Progress, finished, failed, waiting, StoredProfile, ApplyStore, ApplyDeps, Handler,
}
use private_deploy.Stores.Lists.{find_index, splice_over}
use private_deploy.Utils.Debounce.{Debounced, Timer, start, call}

abbrev pub is_profile : String → StoredProfile → Bool
is_profile id p = str_eq p.id id

-- `profiles.value.splice(idx, 1, p)`, and the profile that stood there.
abbrev pub replaced_at :
    Option ℕ → StoredProfile → List StoredProfile → List StoredProfile × Option StoredProfile
replaced_at none p ps = (ps, none)
replaced_at (some i) p ps = splice_over i p ps

unfoldable pub replace_profile :
    StoredProfile → List StoredProfile → List StoredProfile × Option StoredProfile
unfolding find_index splice_over
replace_profile p ps = replaced_at (find_index (is_profile p.id) ps) p ps

-- The rollback of one edit.
unfoldable pub restore_profile :
    String → Option StoredProfile → List StoredProfile → List StoredProfile
unfolding find_index splice_over
restore_profile id none ps = ps
restore_profile id (some backup) ps = (replaced_at (find_index (is_profile id) ps) backup ps).0

-- What an edit keeps for its rollback.
pub record Edit : Type 0 where
  pub id : String
  pub backup : Option StoredProfile

unfoldable pub start_edits :
    {W : Type 0} → List StoredProfile → ApplyStore W → List Edit × ApplyStore W
unfolding replace_profile
start_edits [] s = ([], s)
start_edits (p ∷ ps) s =
    let (profiles, backup) = replace_profile p s.profiles in
    let (edits, t) = start_edits ps (record s { profiles = profiles }) in
    (record { id = p.id; backup = backup } ∷ edits, t)

-- The debounced `saveProfiles` after so many calls at once.
abbrev pub save_calls : ℕ → Debounced → Debounced
save_calls zero d = d
save_calls (suc n) d = save_calls n (call 100 d)

-- The rest of an edit, once the promise of its save has settled.
abbrev pub saved_edit :
    {W : Type 0}
    → Option Edit
    → ApplyStore W
    → Outcome (Unit {0}) × W
    → Progress (Unit {0}) × ApplyStore W
saved_edit e s (ok u, w) = (finished tt, record s { world = w })
saved_edit none s (threw x, w) = (failed x, record s { world = w })
saved_edit (some e) s (threw x, w) =
    (failed x, record s { profiles = restore_profile e.id e.backup s.profiles; world = w })

abbrev pub set_progress :
    ℕ → Progress (Unit {0}) → List (Progress (Unit {0})) → List (Progress (Unit {0}))
set_progress i r [] = []
set_progress zero r (x ∷ xs) = r ∷ xs
set_progress (suc i) r (x ∷ xs) = x ∷ set_progress i r xs

-- Where one promise is not settled.
abbrev pub with_waiting : Progress (Unit {0}) → Progress (Unit {0})
with_waiting (finished u) = waiting
with_waiting (failed e) = failed e
with_waiting waiting = waiting

-- `Promise.all`
abbrev pub all_of : List (Progress (Unit {0})) → Progress (Unit {0})
all_of [] = finished tt
all_of (finished u ∷ rs) = all_of rs
all_of (failed e ∷ rs) = failed e
all_of (waiting ∷ rs) = with_waiting (all_of rs)

module _ {W : Type 0} (deps : ApplyDeps W) where
  -- Each timer that is live fires: its save runs, and the edit that made the call goes on. The edits
  -- begin with the promises of their calls unsettled.
  unfoldable pub run_saves :
      List Timer
      → List Edit
      → List (Progress (Unit {0}))
      → ApplyStore W
      → List (Progress (Unit {0})) × ApplyStore W
  unfolding restore_profile
  run_saves [] edits rs s = (rs, s)
  run_saves (t ∷ ts) edits rs s =
      let (r, s') = saved_edit (get_elem? edits t.call) s (deps.save_profiles s.profiles s.world) in
      run_saves ts edits (set_progress t.call r rs) s'

  unfoldable pub edit_profiles : List StoredProfile → Handler W (Unit {0})
  unfolding start_edits call run_saves
  edit_profiles ps s =
      let (edits, t) = start_edits ps s in
      let (rs, u) = run_saves (save_calls (length ps) start).live edits (map (λ _. waiting) ps) t in
      (all_of rs, u)
