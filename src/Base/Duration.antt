-- ===== src/Base/Duration.antt =====
-- `time.Duration`: signed nanoseconds in 64 bits. Sums and products wrap, differences of instants
-- saturate, as in Go's package time.
use Prim.Native.Nat.{ℕ, ◌+◌, ◌-◌, ◌%◌, ◌≤◌}
use mathlib.Core.Path.{◌≡◌}
use native.Mathlib.Omega.{arith}
use booknow_mcp_service.Base.Tests.{ltb, if◌then◌else◌}
use booknow_mcp_service.Base.Int.{
  ℤ, pos, negsuc, pos_part, neg_part, sub_ℕ, ◌+ℤ◌, ◌-ℤ◌, ◌*ℤ◌, leb_ℤ, ltb_ℤ,
}

-- 2 ^ 63 and 2 ^ 64
abbrev pub int64_half : ℕ
int64_half = 9223372036854775808

abbrev pub int64_mod : ℕ
int64_mod = 18446744073709551616

-- The value of a residue modulo 2 ^ 64 as a signed number.
abbrev signed : ℕ → ℤ
signed r = if ltb r int64_half then pos r else negsuc (int64_mod - 1 - r)

-- Two's complement: the signed 64-bit value congruent to an integer.
unfoldable pub wrap64 : ℤ → ℤ
wrap64 (pos n) = signed (n % int64_mod)
wrap64 (negsuc n) = signed (int64_mod - 1 - n % int64_mod)

infixl 65 ◌+w◌
infixl 70 ◌*w◌
-- `+` and `*` of int64
unfoldable pub ◌+w◌ : ℤ → ℤ → ℤ
a +w b = wrap64 (a +ℤ b)

unfoldable pub ◌*w◌ : ℤ → ℤ → ℤ
a *w b = wrap64 (a *ℤ b)

-- `Time.Sub`: the difference, or the nearest end of the int64 range.
unfoldable pub sub_instants : ℤ → ℤ → ℤ
sub_instants a b =
    let d = a -ℤ b in
    if leb_ℤ (pos int64_half) d
    then pos (int64_half - 1)
    else if ltb_ℤ d (negsuc (int64_half - 1))
    then negsuc (int64_half - 1)
    else d

abbrev pub minute : ℤ
minute = pos 60000000000

abbrev pub hour : ℤ
hour = pos 3600000000000

-- `d.Truncate(m)` for a positive m: towards zero, to a multiple of m.
unfoldable pub truncate : ℤ → ℕ → ℤ
truncate (pos n) m = pos (n - n % m)
truncate (negsuc n) m = sub_ℕ 0 (n + 1 - (n + 1) % m)

-- A value in the int64 range.
abbrev pub InInt64 : ℤ → Type 0
InInt64 a = (pos_part a + 1 ≤ int64_half) × (neg_part a ≤ int64_half)

pub wrap64_id : (a : ℤ) → InInt64 a → wrap64 a ≡ a
unfolding wrap64
wrap64_id (pos n) h = ground arith
wrap64_id (negsuc n) h = ground arith

-- A sum in the range does not wrap.
pub +w_eq : (a b : ℤ) → InInt64 (a +ℤ b) → a +w b ≡ a +ℤ b
unfolding ◌+w◌
+w_eq a b h = wrap64_id (a +ℤ b) h
