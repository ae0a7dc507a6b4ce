-- ===== src/Prelude/Int64.antt =====
-- Go's `int`, `int64` and `time.Duration`: integers of 64 bits, whose increment and decrement wrap.
-- A point in time is a number of nanoseconds on the monotonic clock.
use quickgo.Prelude.{ℕ, zero, suc, ◌+◌, ◌-◌, ◌≤◌, ◌≡◌, Bool, leb, ◌==◌, if◌then◌else◌, arith}
use quickgo.Prelude.Int.{ℤ, pos, negsuc, pos_part, neg_part, ◌≤ℤ◌, ◌+ℤ◌, ◌-ℤ◌, sub_ℕ}

-- 2 ^ 63 - 1
abbrev pub max_int : ℕ
max_int = 9223372036854775807

abbrev pub leb_ℤ : ℤ → ℤ → Bool
leb_ℤ a b = leb (pos_part a + neg_part b) (pos_part b + neg_part a)

-- `x++`
unfoldable pub int_inc : ℤ → ℤ
int_inc (pos n) = if n == max_int then negsuc max_int else pos (n + 1)
int_inc (negsuc zero) = pos 0
int_inc (negsuc (suc n)) = negsuc n

-- `x--`
unfoldable pub int_dec : ℤ → ℤ
int_dec (pos zero) = negsuc 0
int_dec (pos (suc n)) = pos n
int_dec (negsuc n) = if n == max_int then pos max_int else negsuc (n + 1)

-- `now.Sub(t)`, which saturates at the ends of the range of a duration.
unfoldable pub sub_time : ℕ → ℕ → ℤ
sub_time now t =
    if leb t now
    then (if leb (now - t) max_int then pos (now - t) else pos max_int)
    else (if leb (t - now) max_int then negsuc (t - now - 1) else negsuc max_int)

-- An `int` that is not negative, within the range of 64 bits.
abbrev pub IsCount : ℤ → Type 0
IsCount x = (pos 0 ≤ℤ x) × (x ≤ℤ pos max_int)

-- A sum or difference of two `int`s, cut to 64 bits: 2 ^ 64 is taken off or added once.
abbrev pub wrap : ℤ → ℤ
wrap (pos n) = if leb n max_int then pos n else sub_ℕ n 18446744073709551616
wrap (negsuc n) = if leb n max_int then negsuc n else pos (18446744073709551615 - n)

-- `x + y`
unfoldable pub int_add : ℤ → ℤ → ℤ
unfolding ◌+ℤ◌
int_add x y = wrap (x +ℤ y)

-- `x - y`
unfoldable pub int_sub : ℤ → ℤ → ℤ
unfolding ◌-ℤ◌
int_sub x y = wrap (x -ℤ y)

-- Within 64 bits the two are the sum and the difference.
pub int_add_parts :
    (x y : ℤ)
    → pos_part x + pos_part y ≤ max_int
    → neg_part x + neg_part y ≤ max_int
    → pos_part (int_add x y) + neg_part x + neg_part y
      ≡ neg_part (int_add x y) + pos_part x + pos_part y
unfolding int_add ◌+ℤ◌
int_add_parts x y h k = ground arith

pub int_sub_parts :
    (x y : ℤ)
    → pos_part x + neg_part y ≤ max_int
    → neg_part x + pos_part y ≤ max_int
    → pos_part (int_sub x y) + neg_part x + pos_part y
      ≡ neg_part (int_sub x y) + pos_part x + neg_part y
unfolding int_sub ◌-ℤ◌
int_sub_parts x y h k = ground arith
