-- ===== src/Cloud/Subscription/Stored.antt =====
-- The profiles after one of them was added or edited, as `applyNodeToProfile` does it.
use private_deploy.Base.{
  ℕ, ◌≡◌, refl, sym, ap, subst, Bool, true, false, inl, inr, Option, none, some, List, [], ◌∷◌,
  ◌++◌, Memᴰ, Memᴰ-append, All, All-append, String, str_eq, eq_refl, Outcome, ok, threw, Bool-cases,
  if◌then◌else◌,
}
use private_deploy.Cloud.SmartRouting.Closed.{RulesClosed}
use private_deploy.Cloud.Subscription.Apply.{
  Progress, finished, failed, waiting, StoredProfile, ApplyStore, ApplyDeps, is_profile,
  replaced_at, replace_profile, restore_profile, edit_profiles,
}
use private_deploy.Cloud.Subscription.Edits.{saved_edit}
use private_deploy.Cloud.Subscription.Edited.{edit_profiles-in_turn}
use private_deploy.Cloud.Subscription.Calls.{settled_profiles, get_profile_by_id}
use private_deploy.Cloud.Subscription.ApplyNode.{add_profile, store_profile}
use private_deploy.Stores.Lists.{
  next_index, find_index, splice_over, pop, after_save, add_item, put_over,
}
use private_deploy.Stores.Lists.Changes.{pop-append, with_first, IsCut, find_index-IsCut}

-- The rules of the profile name outbounds that it has.
abbrev pub IsClosedProfile : StoredProfile → Type 0
IsClosedProfile p = RulesClosed p.profile.outbounds p.profile.rules

-- The outcome of storing a profile: a call that returns leaves closed profiles with this one, a call
-- that throws, with the error of the save, leaves what was there, and none waits for ever.
abbrev pub Stored :
    {W : Type 0}
    → ApplyDeps W
    → StoredProfile
    → ApplyStore W
    → Progress (Unit {0}) × ApplyStore W
    → Type 0
Stored deps p s (finished u, t) = All IsClosedProfile t.profiles × Memᴰ p t.profiles
Stored deps p s (failed e, t) =
    (t.profiles ≡ s.profiles)
    × (t.kernel_profile ≡ s.kernel_profile)
    × ((ps : List StoredProfile) × ((w : _) × ((deps.save_profiles ps w).0 ≡ threw e)))
Stored deps p s (waiting, t) = ⊥

All-with_first :
    {A : Type 0} (P : A → Type 0) (q : A → Bool) (x : A) (xs : List A)
    → P x
    → All P xs
    → All P (with_first q (x ∷ []) xs)
All-with_first P q x [] h k = tt
All-with_first P q x (y ∷ xs) h k = elim (Bool-cases (q y)) [
  | inl e ↦ rw e (h, k.1)
  | inr e ↦ rw e (k.0, All-with_first P q x xs h k.1)
]

Memᴰ-with_first :
    (p : StoredProfile) (id : String) (o : StoredProfile) (ps : List StoredProfile)
    → get_profile_by_id id ps ≡ some o
    → Memᴰ p (with_first (is_profile id) (p ∷ []) ps)
unfolding get_profile_by_id
Memᴰ-with_first p id o [] h = absurd (clash h)
  where
    clash : ◌≡◌ {A = Option StoredProfile} none (some o) → ⊥
    clash q = cc
Memᴰ-with_first p id o (x ∷ ps) h = elim (Bool-cases (str_eq x.id id)) [
  | inl e ↦ rw e (Memᴰ.head refl)
  | inr e ↦ rw e (
      Memᴰ.tail (
        Memᴰ-with_first p id o ps
          (subst (λ b. (if b then some x else get_profile_by_id id ps) ≡ some o) e h)))
]

-- The place of an element is that of what replaces it.
find-behind :
    (q : StoredProfile → Bool) (p y : StoredProfile) (ps : List StoredProfile) (o : Option ℕ)
    → q y ≡ false
    → find_index q ps ≡ o
    → find_index q (replaced_at o p ps).0 ≡ o
    → find_index q (replaced_at (next_index o) p (y ∷ ps)).0 ≡ next_index o
unfolding find_index splice_over
find-behind q p y ps none e f h = rw (e, f) refl
find-behind q p y ps (some i) e f h = rw (e, h) refl

find_index-replaced :
    (q : StoredProfile → Bool) (p : StoredProfile) (ps : List StoredProfile)
    → q p ≡ true
    → find_index q (replaced_at (find_index q ps) p ps).0 ≡ find_index q ps
unfolding find_index splice_over
find_index-replaced q p [] h = refl
find_index-replaced q p (y ∷ ps) h = elim (Bool-cases (q y)) [
  | inl e ↦ rw e (rw h refl)
  | inr e ↦ rw e (find-behind q p y ps (find_index q ps) e refl (find_index-replaced q p ps h))
]

replaced-with_first :
    (q : StoredProfile → Bool) (p : StoredProfile) (ps : List StoredProfile) (o : Option ℕ)
    → IsCut q ps o
    → (replaced_at o p ps).0 ≡ with_first q (p ∷ []) ps
replaced-with_first q p ps none h = sym (h.1 p)
replaced-with_first q p ps (some i) h = (h.2 p).0

restored :
    (id : String) (p : StoredProfile) (ps : List StoredProfile) (i : ℕ) (b : Option StoredProfile)
    (next : List StoredProfile)
    → find_index (is_profile id) next ≡ some i
    → put_over i b next ≡ ps
    → restore_profile id b next ≡ ps
unfolding restore_profile
restored id p ps i none next f h = h
restored id p ps i (some b) next f h = rw (restore_profile, f) h

replaced-restored :
    (p : StoredProfile) (ps : List StoredProfile) (o : Option ℕ)
    → IsCut (is_profile p.id) ps o
    → find_index (is_profile p.id) (replaced_at o p ps).0 ≡ o
    → restore_profile p.id (replaced_at o p ps).1 (replaced_at o p ps).0 ≡ ps
unfolding restore_profile
replaced-restored p ps none h f = refl
replaced-restored p ps (some i) h f = restored p.id p ps i _ _ f (h.2 p).1

restore-replace_profile :
    (p : StoredProfile) (ps : List StoredProfile)
    → restore_profile p.id (replace_profile p ps).1 (replace_profile p ps).0 ≡ ps
unfolding replace_profile
restore-replace_profile p ps =
    replaced-restored p ps (find_index (is_profile p.id) ps) (find_index-IsCut (is_profile p.id) ps)
      (find_index-replaced (is_profile p.id) p ps (eq_refl p.id))

pub replace_profile-with_first :
    (p : StoredProfile) (ps : List StoredProfile)
    → (replace_profile p ps).0 ≡ with_first (is_profile p.id) (p ∷ []) ps
unfolding replace_profile
replace_profile-with_first p ps =
    replaced-with_first (is_profile p.id) p ps (find_index (is_profile p.id) ps)
      (find_index-IsCut (is_profile p.id) ps)

module _ {W : Type 0} (deps : ApplyDeps W) (p : StoredProfile) (closed : IsClosedProfile p) where
  added-Stored :
      (s : ApplyStore W) (r : Outcome (Unit {0}) × W)
      → All IsClosedProfile s.profiles
      → deps.save_profiles (s.profiles ++ (p ∷ [])) s.world ≡ r
      → Stored deps p s (settled_profiles s (after_save pop (s.profiles ++ (p ∷ [])) r))
  added-Stored s (ok u, w) h e =
      (All-append IsClosedProfile s.profiles (p ∷ []) h (closed, tt), Memᴰ-append s.profiles p)
  added-Stored s (threw x, w) h e = (pop-append s.profiles p, refl, (_, (_, ap (λ r. r.0) e)))

  edited-Stored :
      (s : ApplyStore W) (r : Outcome (Unit {0}) × W)
      → All IsClosedProfile s.profiles
      → Memᴰ p (replace_profile p s.profiles).0
      → deps.save_profiles (replace_profile p s.profiles).0 s.world ≡ r
      → Stored deps p s (
          saved_edit
            (some (record { id = p.id; backup = (replace_profile p s.profiles).1 }))
            (record s { profiles = (replace_profile p s.profiles).0 })
            r)
  edited-Stored s (ok u, w) h m e = (
    subst (All IsClosedProfile) (sym (replace_profile-with_first p s.profiles))
        (All-with_first _ _ p s.profiles closed h),
    m,
  )
  edited-Stored s (threw x, w) h m e =
      (restore-replace_profile p s.profiles, refl, (_, (_, ap (λ r. r.0) e)))

  pub store_profile-Stored :
      (created : Bool) (o : StoredProfile) (s : ApplyStore W)
      → All IsClosedProfile s.profiles
      → (created ≡ false → get_profile_by_id p.id s.profiles ≡ some o)
      → Stored deps p s (store_profile deps created p s)
  unfolding add_profile add_item edit_profiles
  store_profile-Stored true o s h f = added-Stored s _ h refl
  store_profile-Stored false o s h f =
      subst (Stored deps p s) (sym (edit_profiles-in_turn deps (p ∷ []) s)) (
        edited-Stored s _ h
          (subst (Memᴰ p) (sym (replace_profile-with_first p s.profiles))
            (Memᴰ-with_first p p.id o s.profiles (f refl)))
          refl)
