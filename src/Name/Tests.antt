-- ===== src/Name/Tests.antt =====
-- Names that match, and names that do not.
use govisor.Common.{true, false, ◌≡◌, refl, str_eq, ◌&&◌}
use govisor.Name.{service_matches}
use govisor.Name.Order.{is_base, with_variant, service_matches-parts}

web_is_base : is_base "web" ≡ true
unfolding is_base
web_is_base = refl

base_of_variant : service_matches "a" "a:b" ≡ true
unfolding service_matches
base_of_variant = refl

variant_of_base : service_matches "a:b" "a" ≡ false
unfolding service_matches
variant_of_base = refl

service_matches-parts_example :
    (service_matches "web" "web" ≡ str_eq "web" "web")
    × (service_matches "web" (with_variant "web" "b") ≡ str_eq "web" "web")
    × (service_matches (with_variant "web" "a") "web" ≡ false)
    × (service_matches (with_variant "web" "a") (with_variant "web" "b")
        ≡ (str_eq "web" "web" && str_eq "a" "b"))
service_matches-parts_example = service_matches-parts "web" "web" "a" "b" web_is_base web_is_base
