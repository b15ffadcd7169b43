-- ===== src/Prelude/Options.antt =====
-- `Option` of the standard library: `unwrap_or`, `and_then`, and `is_some() as usize`.
use ferri_sync.Prelude.{ℕ, Bool, true, false, Option, none, some}

abbrev pub option_or {ℓ} : {A : Type ℓ} → Option A → A → A
option_or none a = a
option_or (some b) a = b

abbrev pub option_bind {ℓ κ} : {A : Type ℓ} {B : Type κ} → Option A → (A → Option B) → Option B
option_bind none f = none
option_bind (some a) f = f a

abbrev pub as_usize : Bool → ℕ
as_usize true = 1
as_usize false = 0
