-- ===== src/Cloud/Subscription/Edited.antt =====
-- Several edits at once are one edit of each profile, of which only the last is saved.
use private_deploy.Base.{
  ℕ, zero, suc, ◌+◌, ◌≡◌, refl, sym, ap, ◌∙◌, Bool, true, false, some, List, [], ◌∷◌, ◌++◌, subst,
  ==_iff, map, length, get_elem?, Outcome, ok, threw, arith,
}
use private_deploy.Cloud.Subscription.Calls.{
  Progress, finished, failed, waiting, StoredProfile, ApplyStore, ApplyDeps, Handler,
}
use private_deploy.Cloud.Subscription.Edits.{
  Edit, replace_profile, start_edits, save_calls, saved_edit, set_progress, with_waiting, all_of,
  run_saves, edit_profiles,
}
use private_deploy.Utils.Debounce.{pending, Debounced, start, call}

-- The calls of a burst: the last one alone keeps its timer.
abbrev Last : ℕ → Debounced → Type 0
Last m d =
    (d.timer ≡ some m)
    × (d.live ≡ record { call = m; due = 100 } ∷ [])
    × (length d.promises ≡ suc m)
    × (d.clock ≡ 0)

length-snoc : {A : Type 0} (xs : List A) (x : A) → length (xs ++ (x ∷ [])) ≡ suc (length xs)
length-snoc [] x = refl
length-snoc (y ∷ xs) x = ap suc (length-snoc xs x)

call-Last : (m : ℕ) (d : Debounced) → Last m d → Last (suc m) (call 100 d)
unfolding call
call-Last m d (t, l, p, c) = (
  ap some p,
  rw (t, l, c) (rw ((==_iff m m).1 refl) (ap (λ n. record { call = n; due = 100 } ∷ []) p)),
  length-snoc d.promises pending ∙ ap suc p,
  c,
)

save_calls-Last : (n m : ℕ) (d : Debounced) → Last m d → Last (n + m) (save_calls n d)
save_calls-Last zero m d h = subst (λ k. Last k d) left_zero h
  where
    left_zero : m ≡ 0 + m
    left_zero = omega arith
save_calls-Last (suc n) m d h =
    subst (λ k. Last k (save_calls n (call 100 d))) (shift n)
      (save_calls-Last n (suc m) (call 100 d) (call-Last m d h))
  where
    shift : (n : ℕ) → n + suc m ≡ suc n + m
    shift n = omega arith

save_calls-live : (n : ℕ) → (save_calls (suc n) start).live ≡ record { call = n; due = 100 } ∷ []
unfolding call
save_calls-live n =
    (save_calls-Last n 0 (call 100 start) (refl, refl, refl, refl)).1
    ∙ ap (λ k. record { call = k; due = 100 } ∷ []) (right_zero n)
  where
    right_zero : (n : ℕ) → n + 0 ≡ n
    right_zero n = omega arith

abbrev pub waits :
    {W : Type 0} → Bool → Progress (Unit {0}) × ApplyStore W → Progress (Unit {0}) × ApplyStore W
waits true (r, s) = (r, s)
waits false (r, s) = (with_waiting r, s)

waits_idem :
    {W : Type 0} (r : Progress (Unit {0}) × ApplyStore W)
    → waits false (waits false r) ≡ waits false r
waits_idem (finished u, s) = refl
waits_idem (failed e, s) = refl
waits_idem (waiting, s) = refl

module _ {W : Type 0} (deps : ApplyDeps W) where
  -- The save of the last edit, in the state that the edits left.
  abbrev pub last_edit : StoredProfile → Handler W (Unit {0})
  last_edit p s =
      let (profiles, backup) = replace_profile p s.profiles in
      saved_edit (some (record { id = p.id; backup = backup })) (record s { profiles = profiles })
        (deps.save_profiles profiles s.world)

  -- One edit after the other, the last of which is saved; the edits before it wait for ever.
  abbrev pub edits_in_turn : Bool → List StoredProfile → Handler W (Unit {0})
  edits_in_turn alone [] s = (finished tt, s)
  edits_in_turn alone (p ∷ []) s = waits alone (last_edit p s)
  edits_in_turn alone (p ∷ (q ∷ ps)) s =
      edits_in_turn false (q ∷ ps) (record s { profiles = (replace_profile p s.profiles).0 })

  in_turn-waits :
      (p : StoredProfile) (ps : List StoredProfile) (s : ApplyStore W)
      → edits_in_turn false (p ∷ ps) s ≡ waits false (edits_in_turn true (p ∷ ps) s)
  in_turn-waits p [] s = refl
  in_turn-waits p (q ∷ qs) s =
      let s' = record s { profiles = (replace_profile p s.profiles).0 } in
      in_turn-waits q qs s'
      ∙ sym (waits_idem (edits_in_turn true (q ∷ qs) s'))
      ∙ ap (waits false) (sym (in_turn-waits q qs s'))

  -- The end of a burst of which the last timer fires.
  abbrev ended :
      List StoredProfile → ℕ → List Edit × ApplyStore W → Progress (Unit {0}) × ApplyStore W
  ended ps n (edits, t) =
      let (r, u) = saved_edit (get_elem? edits n) t (deps.save_profiles t.profiles t.world) in
      (all_of (set_progress n r (map (λ _. waiting) ps)), u)

  all_of-one :
      (e : Edit) (t : ApplyStore W) (r : Outcome (Unit {0}) × W)
      → (all_of ((saved_edit (some e) t r).0 ∷ []), (saved_edit (some e) t r).1)
        ≡ saved_edit (some e) t r
  all_of-one e t (ok u, w) = refl
  all_of-one e t (threw x, w) = refl

  ended-in_turn :
      (p : StoredProfile) (ps : List StoredProfile) (s : ApplyStore W)
      → ended (p ∷ ps) (length ps) (start_edits (p ∷ ps) s) ≡ edits_in_turn true (p ∷ ps) s
  unfolding start_edits
  ended-in_turn p [] s =
      let (profiles, backup) = replace_profile p s.profiles in
      all_of-one (record { id = p.id; backup = backup }) (record s { profiles = profiles })
        (deps.save_profiles profiles s.world)
  ended-in_turn p (q ∷ qs) s =
      let s' = record s { profiles = (replace_profile p s.profiles).0 } in
      ap (waits false) (ended-in_turn q qs s') ∙ sym (in_turn-waits q qs s')

  -- What the calls, the debounced save and `Promise.all` come to.
  pub edit_profiles-in_turn :
      (ps : List StoredProfile) (s : ApplyStore W)
      → edit_profiles deps ps s ≡ edits_in_turn true ps s
  unfolding edit_profiles run_saves start_edits
  edit_profiles-in_turn [] s = refl
  edit_profiles-in_turn (p ∷ ps) s =
      ap
        (λ l.
          let (edits, t) = start_edits (p ∷ ps) s in
          let (rs, u) = run_saves deps l edits (map (λ _. waiting) (p ∷ ps)) t in (all_of rs, u))
        (save_calls-live (length ps))
      ∙ ended-in_turn p ps s
