-- ===== src/Cloud/Address/Tests.antt =====
-- The three tests at addresses.
use private_deploy.Base.{◌≡◌, refl, true, false, some, split, str_eq, if◌then◌else◌, trim}
use private_deploy.Cloud.Address.{
  natural, decimal, nan, is_private_start, to_number, parse_int, is_public_ipv4_number,
  is_public_ipv4, is_public_ipv4_address, all_digits,
}
use private_deploy.Cloud.Address.Agreement.{is_public_ipv4-agree}

address : Unit {0}
unfolding is_private_start to_number parse_int is_public_ipv4_number is_public_ipv4
    is_public_ipv4_address split trim all_digits
address = tt

private_ranges :
    (is_public_ipv4 (some "100.64.0.1") ≡ false)
    × (is_public_ipv4 (some "172.32.0.1") ≡ true)
    × (is_public_ipv4_number (some "10.0.0.1") ≡ false)
    × (is_public_ipv4_address (some "0.0.0.0") ≡ false)
    × (is_public_ipv4 (some "0.0.0.0") ≡ true)
unfolding address
private_ranges = (refl, refl, refl, refl, refl)

is_public_ipv4-agree_example :
    (is_public_ipv4_number (some "203.0.113.7") ≡ is_public_ipv4 (some "203.0.113.7"))
    × (is_public_ipv4_address (some "203.0.113.7")
        ≡ (if str_eq "203.0.113.7" "0.0.0.0" then false else is_public_ipv4 (some "203.0.113.7")))
unfolding address
is_public_ipv4-agree_example =
    is_public_ipv4-agree "203.0.113.7" "203" "0" "113" "7" refl (refl, refl) (refl, refl)

notations :
    (to_number " 0xA " ≡ natural 10)
    × (to_number "1e1" ≡ natural 10)
    × (to_number "165e-1" ≡ decimal false 165 1)
    × (to_number "-1" ≡ decimal true 1 0)
    × (to_number "1.50" ≡ decimal false 15 1)
    × (to_number "" ≡ natural 0)
    × (to_number "10x" ≡ nan)
    × (to_number "." ≡ nan)
unfolding address
notations = (refl, refl, refl, refl, refl, refl, refl, refl)
