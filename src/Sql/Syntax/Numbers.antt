-- ===== src/Sql/Syntax/Numbers.antt =====
-- parser/syn.rs: `NumVal::neg` and the text of a number.
use kui_ba_db.Base.{zero, suc, ◌<◌, ◌≡◌, refl, arith, Bool, true, false, ok, leb}
use kui_ba_db.Base.Int.{pos, negsuc}
use kui_ba_db.Sql.Syntax.{NumVal, int, float, checked_neg, neg_num, min_i32}

-- A number that the grammar makes: an i32 whose negation is one, too.
abbrev pub Balanced : NumVal → Type 0
Balanced (int (pos n)) = n < min_i32
Balanced (int (negsuc n)) = suc n < min_i32
Balanced (float sign v) = Unit {0}

-- The number of the opposite sign.
abbrev pub Opposite : NumVal → NumVal → Type 0
Opposite (int (pos zero)) w = w ≡ int (pos zero)
Opposite (int (pos (suc n))) w = w ≡ int (negsuc n)
Opposite (int (negsuc n)) w = w ≡ int (pos (suc n))
Opposite (float true v) w = w ≡ float false v
Opposite (float false v) w = w ≡ float true v

-- A balanced number is negated without overflow, with or without overflow checks; the result is
-- the number of the opposite sign, it is balanced, and its negation is the number again.
pub neg_num-involutive :
    (debug : Bool) (v : NumVal)
    → Balanced v
    → (w : NumVal) × (neg_num debug v ≡ ok w) × Opposite v w × Balanced w × (neg_num debug w ≡ ok v)
unfolding neg_num checked_neg
neg_num-involutive debug (int (pos zero)) h = (int (pos zero), refl, refl, h, refl)
neg_num-involutive debug (int (pos (suc n))) h =
    let small : leb min_i32 (suc n) ≡ false = ground arith in
    (int (negsuc n), refl, refl, h, rw small refl)
neg_num-involutive debug (int (negsuc n)) h =
    let small : leb min_i32 (suc n) ≡ false = ground arith in
    (int (pos (suc n)), rw small refl, refl, h, refl)
neg_num-involutive debug (float true v) h = (float false v, refl, refl, tt, refl)
neg_num-involutive debug (float false v) h = (float true v, refl, refl, tt, refl)
