-- ===== src/Cloud/Address.antt =====
-- Which IPv4 addresses count as public. Three functions of the source decide this, each its own way:
-- stores/kernelApiProxyGroups.ts (by `Number`), stores/cloud/helpers.ts and
-- views/CloudView/cloudNodeDisplay.ts (by `parseInt`).
pub mod Number
pub mod Agreement
mod Tests
use private_deploy.Base.{
  ℕ, zero, suc, ◌+◌, ◌*◌, ◌^◌, Bool, true, false, not, ◌&&◌, ◌||◌, Option, none, some, List, [],
  ◌∷◌, String, ◌==◌, leb, if◌then◌else◌, is_empty, split, trim, trim_start, str_eq, codes,
}
pub use private_deploy.Cloud.Address.Number.{Numeral, nan, infinite, decimal, natural, is_digit}
unfoldable pub use private_deploy.Cloud.Address.Number.{digits_value, all_digits, to_number}

abbrev pub starts_with_digit : List ℕ → Bool
starts_with_digit [] = false
starts_with_digit (c ∷ cs) = is_digit c

-- `Number.parseInt(s, 10)`; a negative number counts as NaN, which every test treats like it.
unfoldable pub parse_int : String → Numeral
unfolding digits_value
parse_int s =
    if starts_with_digit (codes (trim_start s))
    then natural (digits_value 0 (codes (trim_start s)))
    else nan

-- `x === n`, `x >= n` and `x <= n` for a natural number `n`; what is absent counts as NaN.
abbrev pub number_is : ℕ → Numeral → Bool
number_is n (decimal false digits zero) = digits == n
number_is n _ = false

abbrev pub number_within : ℕ → ℕ → Numeral → Bool
number_within lo hi (decimal false digits places) =
    leb (lo * 10 ^ places) digits && leb digits (hi * 10 ^ places)
number_within lo hi _ = false

-- The ranges that are not public, by the first two numbers of the address.
unfoldable pub is_private_start : Numeral → Numeral → Bool
is_private_start first second =
    number_is 10 first
    || (number_is 172 first && number_within 16 31 second)
    || (number_is 192 first && number_is 168 second)
    || (number_is 100 first && number_within 64 127 second)

-- `isPublicIPv4` of kernelApiProxyGroups.ts: only the first two parts are looked at.
abbrev pub parts_private : List String → Bool
parts_private [] = is_private_start nan nan
parts_private (a ∷ []) = is_private_start (to_number a) nan
parts_private (a ∷ b ∷ _) = is_private_start (to_number a) (to_number b)

unfoldable pub is_public_ipv4_number : Option String → Bool
is_public_ipv4_number none = false
is_public_ipv4_number (some ip) = if is_empty ip then false else not (parts_private (split b'.' ip))

abbrev pub octets_public : List String → Bool
octets_public (a ∷ b ∷ c ∷ d ∷ []) = not (is_private_start (parse_int a) (parse_int b))
octets_public _ = false

-- `isPublicIPv4` of cloudNodeDisplay.ts
unfoldable pub is_public_ipv4 : Option String → Bool
is_public_ipv4 none = false
is_public_ipv4 (some ip) = if is_empty ip then false else octets_public (split b'.' ip)

-- `isPublicIPv4Address` of helpers.ts
unfoldable pub is_public_ipv4_address : Option String → Bool
is_public_ipv4_address none = false
is_public_ipv4_address (some ip) =
    if is_empty ip then false else octets_public (split b'.' ip) && not (str_eq ip "0.0.0.0")
