-- ===== src/Sql/Analyze/Literals.antt =====
-- parser/sem.rs: `Const::try_new` on the numbers that the grammar makes beyond i32.
use kui_ba_db.Base.{
  ℕ, ◌^◌, ◌≤◌, ◌<◌, ◌≡◌, refl, ◌⊎◌, inl, inr, Bytes, Bool, Bool-cases, some, ok, if◌then◌else◌,
}
use kui_ba_db.Base.Int.{ℤ, pos, neg}
use kui_ba_db.Base.Text.Decimal.{IsDecimal, decimal, parse_i64_cases}
use kui_ba_db.Common.{Float}
use kui_ba_db.Sql.Syntax.{Location, checked_neg, num, float}
use kui_ba_db.Sql.Analyze.{Backend, i64_literal, f64_literal, float_literal, literal, try_new}
use kui_ba_db.Sql.Analyze.Transform.Types.{int8, float8}

abbrev pub signed : Bool → ℕ → ℤ
signed sign n = if sign then neg n else pos n

module _ (f : Float) (b : Backend f) (debug : Bool) where
  -- A decimal literal beyond i32 never overflows. It is an i64 with its sign if its digits fit
  -- one, and otherwise the f64 that the digits are read as, negated if there is a sign.
  pub try_new-decimal :
      (sign : Bool) (v : Bytes) (loc : Location) (x : f.Real)
      → IsDecimal v
      → f.parse_f64 v ≡ some x
      → ((decimal v < 2 ^ 63)
          × (try_new f b debug (record { val = num (float sign v); loc = loc })
              ≡ ok (record { typ = int8; v = b.new_i64 (signed sign (decimal v)); loc = loc })))
        ⊎ ((2 ^ 63 ≤ decimal v)
            × (try_new f b debug (record { val = num (float sign v); loc = loc })
                ≡ ok (record {
                  typ = float8;
                  v = b.new_f64 (if sign then b.neg_f64 x else x);
                  loc = loc;
                })))
  unfolding try_new literal float_literal i64_literal f64_literal checked_neg
  try_new-decimal sign v loc x digits read = elim (parse_i64_cases v digits) [
    | inl (fits, e) ↦
        inl (fits, rw e (elim (Bool-cases sign) [ inl s ↦ rw s refl | inr s ↦ rw s refl ]))
    | inr (over, e) ↦ inr (over, rw (e, read) refl)
  ]
