-- ===== src/Grpc/Schemes/Numbers.antt =====
-- grpc/resolver.go: the number of references to a scheme, within 64 bits.
use quickgo.Prelude.{zero, suc, ◌<◌, true, false, ◌+◌, ◌≤◌, ◌≡◌, refl, ap, arith}
use quickgo.Prelude.Int.{ℤ, pos, negsuc, pos_part, neg_part}
use quickgo.Prelude.Int64.{max_int, int_inc, int_dec}
use quickgo.Grpc.Schemes.{is_zero, drop_ref}

pub int_inc-pos_part :
    (x : ℤ) → neg_part x ≡ 0 → pos_part x < max_int → pos_part (int_inc x) ≡ pos_part x + 1
unfolding int_inc
int_inc-pos_part x h k = ground arith

pub drop_ref-pos_part : (x : ℤ) → 1 ≤ pos_part x → pos_part (drop_ref x) + 1 ≡ pos_part x
unfolding drop_ref int_dec
drop_ref-pos_part (pos zero) h = absurd (omega arith)
drop_ref-pos_part (pos (suc n)) h = ground arith
drop_ref-pos_part (negsuc n) h = absurd (omega arith)

pub drop_ref-zero : (x : ℤ) → x ≡ pos 0 → is_zero (drop_ref x) ≡ true
unfolding drop_ref
drop_ref-zero x e = rw e refl

pub eq_of_is_zero : (x : ℤ) → is_zero x ≡ true → x ≡ pos 0
eq_of_is_zero (pos n) e = ap pos (ground (arith, e))
eq_of_is_zero (negsuc n) e = absurd (cc e)

pub refs_of_drop : (x : ℤ) → 1 ≤ pos_part x → is_zero (drop_ref x) ≡ false → 2 ≤ pos_part x
unfolding drop_ref int_dec
refs_of_drop (pos zero) h c = absurd (omega arith)
refs_of_drop (pos (suc n)) h c = ground (arith, c)
refs_of_drop (negsuc n) h c = absurd (omega arith)
