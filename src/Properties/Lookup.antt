-- ===== src/Properties/Lookup.antt =====
-- GetProperty behind SetProperty, in core/properties.h.
use ycsb_c_cloud.Base.{◌≡◌, refl, arith, some, Str, [], ◌∷◌, str_eq, str_eq_iff, if◌then◌else◌}
use ycsb_c_cloud.Properties.{Properties, set_property, find, get_property}

pub find-set_property :
    (p : Properties) (key value j : Str)
    → find (set_property p key value) j ≡ (if str_eq key j then some value else find p j)
unfolding find set_property
find-set_property [] key value j = refl
find-set_property ((k, v) ∷ p) key value j =
    ground
      (arith, str_eq_iff k key, str_eq_iff k j, str_eq_iff key j, find-set_property p key value j)

-- GetProperty returns what SetProperty last set for the key, and for any other key what it
-- returned before.
get_property-set_property :
    (p : Properties) (key value j default_value : Str)
    → get_property (set_property p key value) j default_value
      ≡ (if str_eq key j then value else get_property p j default_value)
unfolding get_property
get_property-set_property p key value j default_value =
    ground (arith, find-set_property p key value j)
