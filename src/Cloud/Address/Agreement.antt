-- ===== src/Cloud/Address/Agreement.antt =====
-- Where the three tests for a public address agree.
use Prim.Native.Char.{code}
use private_deploy.Base.{
  ℕ, ◌≡◌, refl, true, false, some, [], ◌∷◌, String, is_empty, split, trim, trim_start, trim_end,
  is_space, str_eq, codes, arith, if◌then◌else◌,
}
use private_deploy.Cloud.Address.{
  is_digit, all_digits, to_number, parse_int, is_public_ipv4_number, is_public_ipv4,
  is_public_ipv4_address,
}

-- A part of an address in canonical form: decimal digits, at least one.
abbrev pub IsDecimal : String → Type 0
IsDecimal s = (is_empty s ≡ false) × (all_digits (codes s) ≡ true)

trim_start_of_digits : (s : String) → all_digits (codes s) ≡ true → trim_start s ≡ s
unfolding trim_start all_digits
trim_start_of_digits String.[] h = refl
trim_start_of_digits (String.◌∷◌ c s) h = ground arith

not-space_of_digit : (c : ℕ) → is_digit c ≡ true → is_space c ≡ false
unfolding is_space
not-space_of_digit c h = ground arith

trim_end_of_digits : (s : String) → all_digits (codes s) ≡ true → trim_end s ≡ s
unfolding trim_end all_digits
trim_end_of_digits String.[] h = refl
trim_end_of_digits (String.◌∷◌ c s) h =
    ground (arith, trim_end_of_digits s, not-space_of_digit (code c))

to_number-parse_int : (s : String) → IsDecimal s → to_number s ≡ parse_int s
unfolding to_number parse_int trim all_digits
to_number-parse_int String.[] (e, d) = cc
to_number-parse_int (String.◌∷◌ c s) (e, d) =
    rw (trim_start_of_digits _ d, trim_end_of_digits _ d) (rw (d) (ground arith))

-- On an address of four decimal parts the test that guards the kernel's groups and the one that
-- picks a node's links agree, and the cloud store's test differs from them at "0.0.0.0" only.
pub is_public_ipv4-agree :
    (ip a b c d : String)
    → split b'.' ip ≡ a ∷ b ∷ c ∷ d ∷ []
    → IsDecimal a
    → IsDecimal b
    → (is_public_ipv4_number (some ip) ≡ is_public_ipv4 (some ip))
      × (is_public_ipv4_address (some ip)
          ≡ (if str_eq ip "0.0.0.0" then false else is_public_ipv4 (some ip)))
unfolding is_public_ipv4_number is_public_ipv4 is_public_ipv4_address
is_public_ipv4-agree ip a b c d e ha hb =
    (rw (e, to_number-parse_int a ha, to_number-parse_int b hb) refl, ground arith)
