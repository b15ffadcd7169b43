-- ===== src/Version/Tests.antt =====
-- Concrete versions of file.rs.
use ferri_sync.Prelude.{◌≡◌, refl, ◌↔◌, true, string_eq}
use ferri_sync.Prelude.Maps.{lookup, insert}
use ferri_sync.Version.{
  FileVersion, single, bump, any_greater, no_unknown, dominates, IsVersion, single-IsVersion,
  bump-IsVersion,
}
use ferri_sync.Version.Order.{Below, dominates_iff}

abbrev base : FileVersion
base = single "laptop" 3

base-IsVersion : IsVersion base
base-IsVersion = single-IsVersion "laptop" 3

abbrev phone : FileVersion
phone = bump (single "laptop" 3) "phone"

phone-IsVersion : IsVersion phone
phone-IsVersion = bump-IsVersion base "phone" base-IsVersion

abbrev later : FileVersion
later = bump (bump (single "laptop" 3) "phone") "laptop"

later-IsVersion : IsVersion later
later-IsVersion = bump-IsVersion phone "laptop" phone-IsVersion

dominates_iff_example : (dominates phone base ≡ true) ↔ Below base phone
dominates_iff_example = dominates_iff phone base phone-IsVersion base-IsVersion

phone_over_base : dominates phone base ≡ true
unfolding dominates any_greater bump insert single lookup no_unknown
phone_over_base = refl

later_over_phone : dominates later phone ≡ true
unfolding dominates any_greater bump insert single lookup no_unknown
later_over_phone = refl
