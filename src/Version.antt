-- ===== src/Version.antt =====
-- ferrisync-core/src/domain/file.rs: `FileVersion`, the vector clock of a file. The laws of its
-- order are in Version/Order.antt.
pub mod Order
pub mod Tests
use ferri_sync.Prelude.{
  ℕ, ◌+◌, ◌%◌, ◌^◌, ◌≡◌, refl, Bool, true, false, not, ◌&&◌, List, [], ◌∷◌, Option, none, some,
  String, arith, string_eq, ◌==◌, eq_iff, if◌then◌else◌, ltb, is_some,
}
use ferri_sync.Prelude.Maps.{
  HashMap, lookup, insert, contains_key, IsMap, lookup-insert, insert-IsMap,
}

-- `DeviceId(String)`
abbrev pub DeviceId : Type 0
DeviceId = String

pub record FileVersion : Type 0 where
  pub versions : HashMap DeviceId ℕ

abbrev pub u64_mod : ℕ
u64_mod = 2 ^ 64

abbrev pub new : FileVersion
new = record { versions = [] }

abbrev unwrap_or_zero : Option ℕ → ℕ
unwrap_or_zero none = 0
unwrap_or_zero (some n) = n

unfoldable pub single : DeviceId → ℕ → FileVersion
single device version = record { versions = insert device version [] }

unfoldable pub get : FileVersion → DeviceId → ℕ
get v device = unwrap_or_zero (lookup device v.versions)

-- `*entry(device).or_insert(0) += 1`, wrapping as the release build does.
pub bump : FileVersion → DeviceId → FileVersion
unfolding get
bump v device = record { versions = insert device ((get v device + 1) % u64_mod) v.versions }

-- The first loop of `dominates`: `none` is its `return false`.
unfoldable pub any_greater : FileVersion → HashMap DeviceId ℕ → Bool → Option Bool
any_greater other [] any = some any
any_greater other ((dev, ver) ∷ rest) any =
    let next = any_greater other rest (if ltb (get other dev) ver then true else any) in
    if ltb ver (get other dev) then none else next

-- The second loop: whether no device that `self` does not know has counted in `other`.
unfoldable pub no_unknown : FileVersion → HashMap DeviceId ℕ → Bool
no_unknown self [] = true
no_unknown self ((dev, other_ver) ∷ rest) =
    if not (contains_key dev self.versions) && ltb 0 other_ver then false else no_unknown self rest

unfoldable pub dominates : FileVersion → FileVersion → Bool
dominates self other = elim (any_greater other self.versions false) [
  | none ↦ false
  | some any ↦ if no_unknown self other.versions then any else false
]

unfoldable pub concurrent : FileVersion → FileVersion → Bool
concurrent self other = not (dominates self other) && not (dominates other self)

-- The entries of a version come from a `HashMap`.
abbrev pub IsVersion : FileVersion → Type 0
IsVersion v = IsMap v.versions

pub new-IsVersion : IsVersion new
new-IsVersion = tt

pub single-IsVersion : (d : DeviceId) (n : ℕ) → IsVersion (single d n)
unfolding single
single-IsVersion d n = insert-IsMap d n [] tt

pub bump-IsVersion : (v : FileVersion) (d : DeviceId) → IsVersion v → IsVersion (bump v d)
unfolding bump
bump-IsVersion v d h = insert-IsMap d _ v.versions h

pub get-new : (d : DeviceId) → get new d ≡ 0
unfolding get lookup
get-new d = refl

pub get-single : (d d' : DeviceId) (n : ℕ) → get (single d n) d' ≡ (if d == d' then n else 0)
unfolding get single lookup
get-single d d' n = ground (arith, lookup-insert d d' n [])

pub get-bump :
    (v : FileVersion) (d d' : DeviceId)
    → get (bump v d) d' ≡ (if d == d' then (get v d + 1) % u64_mod else get v d')
unfolding bump get
get-bump v d d' = rw (lookup-insert d d' ((get v d + 1) % u64_mod) v.versions) (ground arith)
