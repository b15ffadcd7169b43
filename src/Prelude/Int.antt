-- ===== src/Prelude/Int.antt =====
-- The signed integers of `i64` fields.
use mathlib.Core.Path.{◌≡◌}
use mathlib.Core.Logic.{◌↔◌}
use mathlib.Core.Bool.{Bool, true, false}
use ferri_sync.Prelude.{
  ℕ, zero, suc, ◌-◌, ◌+◌, ◌%◌, ◌^◌, arith, Eq, nat_eq, ◌==◌, eq_iff, ltb, leb, if◌then◌else◌,
  Option, none, some,
}

-- `negsuc n` is -(n + 1).
pub data ℤ : Type 0 where
  pos : ℕ → ℤ
  negsuc : ℕ → ℤ

abbrev int_same : ℤ → ℤ → Bool
int_same (pos m) (pos n) = m == n
int_same (negsuc m) (negsuc n) = m == n
int_same _ _ = false

pub int_same_iff : (a b : ℤ) → (int_same a b ≡ true) ↔ (a ≡ b)
int_same_iff (pos m) (pos n) = ground (arith, eq_iff m n)
int_same_iff (pos m) (negsuc n) = ground arith
int_same_iff (negsuc m) (pos n) = ground arith
int_same_iff (negsuc m) (negsuc n) = ground (arith, eq_iff m n)

instance abbrev pub int_eq : Eq ℤ
int_eq = record { same = int_same; same_iff = int_same_iff }

-- `a <= b`
abbrev pub int_leb : ℤ → ℤ → Bool
int_leb (pos m) (pos n) = leb m n
int_leb (pos m) (negsuc n) = false
int_leb (negsuc m) (pos n) = true
int_leb (negsuc m) (negsuc n) = leb n m

-- `x + 1` on `i64`, which wraps from the largest to the smallest.
abbrev pub i64_inc : ℤ → ℤ
i64_inc (pos n) = if ltb (n + 1) (2 ^ 63) then pos (n + 1) else negsuc (2 ^ 63 - 1)
i64_inc (negsuc zero) = pos 0
i64_inc (negsuc (suc n)) = negsuc n

-- `x as u64`
abbrev pub as_u64 : ℤ → ℕ
as_u64 (pos n) = n % 2 ^ 64
as_u64 (negsuc n) = 2 ^ 64 - (n % 2 ^ 64 + 1)

-- `a - b` on `i64`, which wraps; a word of 64 bits stands for a signed number.
abbrev pub of_word : ℕ → ℤ
of_word w = if ltb w (2 ^ 63) then pos w else negsuc (2 ^ 64 - 1 - w)

abbrev pub i64_sub : ℤ → ℤ → ℤ
i64_sub a b = of_word ((as_u64 a + (2 ^ 64 - as_u64 b)) % 2 ^ 64)

-- `max` of `Option<i64>`: `None` is below every number.
abbrev pub max_option : Option ℤ → Option ℤ → Option ℤ
max_option none b = b
max_option (some a) none = some a
max_option (some a) (some b) = if int_leb a b then some b else some a
