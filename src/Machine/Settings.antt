-- ===== src/Machine/Settings.antt =====
-- Properties set at a new manager.
use govisor.Common.{true, ◌≡◌, refl, none, some, [], ◌∷◌}
use govisor.Common.Refs.{Ref}
use govisor.World.{
  World, Env, Props, pos, negsuc, prop_rate_limit, prop_depends, int_value, strings_value,
}
use govisor.Service.Limit.{too_quickly, out_of_range}
use govisor.Service.Property.{set_property, get_property, is_sane}
use govisor.Machine.{new_manager}
use govisor.Machine.Properties.{is_own, get_property-set_property, too_quickly-out_of_range}

abbrev env : Env
env = record {
  now = λ t. t;
  start_result = λ t r. none;
  check_result = λ t r. none;
  set_result = λ t r n v. none;
  order = λ t l. l;
  longest = 1000;
}

abbrev props : Ref → Props
props r = record {
  name = "a";
  desc = "";
  depends = [];
  conflicts = [];
  provides = [];
  restart = true;
}

abbrev start : World
start = new_manager props "demo" 7

five_is_sane : is_sane prop_rate_limit (int_value (pos 5)) ≡ true
unfolding is_sane
five_is_sane = refl

depends_is_own : is_own prop_depends ≡ true
unfolding is_own
depends_is_own = refl

depends_set : (set_property env 0 prop_depends (strings_value ("b" ∷ [])) start).0 ≡ none
unfolding set_property new_manager
depends_set = refl

get_property-set_property_example :
    get_property 0 prop_depends (set_property env 0 prop_depends (strings_value ("b" ∷ [])) start).1
    ≡ some (strings_value ("b" ∷ []))
get_property-set_property_example =
    get_property-set_property env 0 prop_depends (strings_value ("b" ∷ [])) start depends_is_own
      depends_set

too_quickly-out_of_range_example :
    (too_quickly env 0 (set_property env 0 prop_rate_limit (int_value (negsuc 0)) start).1).0
    ≡ out_of_range
too_quickly-out_of_range_example = too_quickly-out_of_range env 0 0 start
