-- ===== src/Cloud/Subscription/Keys.antt =====
-- The public key of VLESS in the alphabet that URLs can hold.
use Prim.Native.Char.{Char, code}
use private_deploy.Base.{
  ◌≡◌, refl, ap, ◌∙◌, Bool, true, false, not, ◌&&◌, ◌||◌, inl, inr, String, ◌==◌, ◌↔◌, subst,
  is_empty, arith, Bool-cases,
}
use private_deploy.Cloud.Subscription.Payload.{url_safe_chars, without_padding, url_safe}

-- The last code is not that of `=`.
abbrev pub ends_well : String → Bool
ends_well String.[] = true
ends_well (String.◌∷◌ c String.[]) = not (code c == b'=')
ends_well (String.◌∷◌ c (String.◌∷◌ d s)) = ends_well (String.◌∷◌ d s)

-- No `+` and no `/`.
abbrev pub clean_codes : String → Bool
clean_codes String.[] = true
clean_codes (String.◌∷◌ c s) = not (code c == b'+' || code c == b'/') && clean_codes s

url_safe_chars-clean : (s : String) → clean_codes (url_safe_chars s) ≡ true
url_safe_chars-clean String.[] = refl
url_safe_chars-clean (String.◌∷◌ c s) = elim (Bool-cases (code c == b'+')) [
  | inl e ↦ rw e (url_safe_chars-clean s)
  | inr e ↦ rw e (elim (Bool-cases (code c == b'/')) [
    | inl f ↦ rw f (url_safe_chars-clean s)
    | inr f ↦ rw f (rw (e, f) (url_safe_chars-clean s))
  ])
]

without_padding-clean : (s : String) → clean_codes s ≡ true → clean_codes (without_padding s) ≡ true
without_padding-clean String.[] h = refl
without_padding-clean (String.◌∷◌ c s) h =
    elim (Bool-cases (is_empty (without_padding s) && code c == b'=')) [
      | inl e ↦ rw e refl
      | inr e ↦ rw e (ground (arith, without_padding-clean s))
    ]

ends_cons :
    (c : Char) (s : String)
    → ends_well s ≡ true
    → (is_empty s && code c == b'=') ≡ false
    → ends_well (String.◌∷◌ c s) ≡ true
ends_cons c String.[] h e = ground arith
ends_cons c (String.◌∷◌ d s) h e = h

without_padding-ends_well : (s : String) → ends_well (without_padding s) ≡ true
without_padding-ends_well String.[] = refl
without_padding-ends_well (String.◌∷◌ c s) =
    elim (Bool-cases (is_empty (without_padding s) && code c == b'=')) [
      | inl e ↦ rw e refl
      | inr e ↦ rw e (ends_cons c (without_padding s) (without_padding-ends_well s) e)
    ]

clean-chars : (s : String) → clean_codes s ≡ true → url_safe_chars s ≡ s
clean-chars String.[] h = refl
clean-chars (String.◌∷◌ c s) h = ground (arith, clean-chars s)

well-padding : (s : String) → ends_well s ≡ true → without_padding s ≡ s
well-padding String.[] h = refl
well-padding (String.◌∷◌ c String.[]) h = ground arith
well-padding (String.◌∷◌ c (String.◌∷◌ d s)) h = rw (well-padding (String.◌∷◌ d s) h) refl

-- A key in the form that is written holds no plus sign and no slash and does not end with padding;
-- a text is in this form already exactly when these hold of it.
pub url_safe-fixed :
    (key : String)
    → (clean_codes (url_safe key) ≡ true)
      × (ends_well (url_safe key) ≡ true)
      × ((url_safe key ≡ key) ↔ ((clean_codes key ≡ true) × (ends_well key ≡ true)))
unfolding url_safe
url_safe-fixed key =
    let clean = without_padding-clean (url_safe_chars key) (url_safe_chars-clean key) in
    let well = without_padding-ends_well (url_safe_chars key) in
    (
      clean,
      well,
      (
        λ e. (subst (λ k. clean_codes k ≡ true) e clean, subst (λ k. ends_well k ≡ true) e well),
        λ h. ap without_padding (clean-chars key h.0) ∙ well-padding key h.1,
      ),
    )
