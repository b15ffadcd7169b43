-- ===== src/Health/Rules.antt =====
-- The rules of health.rs, case by case.
use ferri_sync.Prelude.{
  ℕ, ◌+◌, ◌-◌, ◌%◌, ◌^◌, ap, ◌∙◌, lt→ltb, ◌≤◌, ◌<◌, ◌≡◌, refl, ◌↔◌, ◌⊎◌, Bool, true, false, List,
  [], ◌∷◌, Option, none, some, string_eq, ◌==◌, arith, if◌then◌else◌, leb, length, keep,
}
use ferri_sync.Prelude.Int.{ℤ, pos, i64_sub, of_word}
use ferri_sync.Version.{DeviceId}
use ferri_sync.Health.{
  Presence, connected, recently_seen, offline_device, from_last_seen, needs_attention,
  folder_health, FolderStatus, DeviceStatus, summarize, is_connected, is_recently_seen, is_well,
}

i64_sub_past : (now ts : ℕ) → ts ≤ now → now < 2 ^ 63 → i64_sub (pos now) (pos ts) ≡ pos (now - ts)
i64_sub_past now ts h low =
    let w : (now % 2 ^ 64 + (2 ^ 64 - ts % 2 ^ 64)) % 2 ^ 64 ≡ now - ts = omega arith in
    ap of_word w ∙ rw (lt→ltb (now - ts) (2 ^ 63) (omega arith)) refl

-- For a time in the past, the presence follows the seconds since then: connected up to 300, seen
-- recently up to a day, offline beyond.
pub from_last_seen_window :
    (now ts : ℕ)
    → ts ≤ now
    → now < 2 ^ 63
    → from_last_seen (pos now) (some (pos ts)) ≡ (
        if leb (now - ts) 300
        then connected
        else if leb (now - ts) 86_400
        then recently_seen
        else offline_device)
unfolding from_last_seen
from_last_seen_window now ts h low = rw (i64_sub_past now ts h low) refl

-- A folder of another device needs attention exactly if it has conflicts, or is not being synced
-- and either failed or was never synced with a device that is offline.
pub needs_attention-folder_health :
    (device own : DeviceId) (p : Presence) (last_sync : Option ℤ) (conflicts : ℕ)
    (is_syncing is_errored : Bool)
    → (device == own) ≡ false
    → (needs_attention (folder_health device own p last_sync conflicts is_syncing is_errored)
        ≡ true)
      ↔ ((0 < conflicts)
          ⊎ ((is_syncing ≡ false)
              × ((is_errored ≡ true) ⊎ ((p ≡ offline_device) × (last_sync ≡ none)))))
unfolding needs_attention folder_health
needs_attention-folder_health device own p last_sync conflicts s e h =
    (λ a. sound p last_sync s e a, λ b. complete p last_sync s e b)
  where
    sound :
        (p : Presence) (l : Option ℤ) (s e : Bool)
        → needs_attention (folder_health device own p l conflicts s e) ≡ true
        → (0 < conflicts) ⊎ ((s ≡ false) × ((e ≡ true) ⊎ ((p ≡ offline_device) × (l ≡ none))))
    sound p l s e a = ground (arith, h, a)

    complete :
        (p : Presence) (l : Option ℤ) (s e : Bool)
        → (0 < conflicts) ⊎ ((s ≡ false) × ((e ≡ true) ⊎ ((p ≡ offline_device) × (l ≡ none))))
        → needs_attention (folder_health device own p l conflicts s e) ≡ true
    complete p l s e b = ground (arith, h, b)

-- No device is counted as connected and as seen recently, and no folder as healthy and as needing
-- attention.
pub summarize_counts :
    (devices : List DeviceStatus) (folders : List FolderStatus)
    → let s = summarize devices folders in
      (s.device_connected + s.device_recently_seen ≤ s.device_total)
      × (s.folders_healthy + s.folders_needing_attention ≤ s.folders_total)
unfolding summarize
summarize_counts devices folders = (devices_le devices, folders_le folders)
  where
    devices_le :
        (ds : List DeviceStatus)
        → length (keep is_connected ds) + length (keep is_recently_seen ds) ≤ length ds
    devices_le [] = omega arith
    devices_le (d ∷ ds) = ground (arith, devices_le ds)

    folders_le :
        (fs : List FolderStatus)
        → length (keep is_well fs) + length (keep (λ f. needs_attention f.health) fs) ≤ length fs
    folders_le [] = omega arith
    folders_le (f ∷ fs) = ground (arith, folders_le fs)
