-- ===== src/Base/Text/Decimal.antt =====
-- Unsigned decimal texts, and what `i64::from_str` makes of them.
use Prim.Native.Nat.{ℕ, ◌+◌, ◌-◌, ◌*◌, ◌^◌, ◌≤◌, ◌<◌}
use mathlib.Core.Path.{◌≡◌, refl}
use mathlib.Core.Logic.{◌⊎◌, inl, inr}
use mathlib.Core.Bool.{true, false}
use mathlib.Core.Option.{none, some}
use mathlib.Core.List.{[], ◌∷◌}
use native.Mathlib.Omega.{arith}
use kui_ba_db.Base.Tests.{ltb, ◌==◌, Bool-cases}
use kui_ba_db.Base.Lists.{Bytes, All}
use kui_ba_db.Base.Int.{pos}
use kui_ba_db.Base.Text.{within, parse_digits, parse_nonempty, positive, parse_signed, parse_i64}

abbrev pub IsDigit : ℕ → Type 0
IsDigit b = (b'0' ≤ b) × (b ≤ b'9')

-- A text of digits, one at least.
abbrev pub IsDecimal : Bytes → Type 0
IsDecimal [] = ⊥
IsDecimal (b ∷ bs) = IsDigit b × All IsDigit bs

-- The number that the digits after `acc` spell.
pub decimal_from : ℕ → Bytes → ℕ
decimal_from acc [] = acc
decimal_from acc (b ∷ bs) = decimal_from (acc * 10 + (b - b'0')) bs

pub decimal : Bytes → ℕ
decimal s = decimal_from 0 s

parse_digits-decimal_from :
    (acc : ℕ) (bs : Bytes) → All IsDigit bs → parse_digits acc bs ≡ some (decimal_from acc bs)
unfolding parse_digits decimal_from
parse_digits-decimal_from acc [] h = refl
parse_digits-decimal_from acc (b ∷ bs) (hb, hbs) =
    let digit : within b'0' b'9' b ≡ true = ground arith in
    rw digit (parse_digits-decimal_from (acc * 10 + (b - b'0')) bs hbs)

-- A decimal text is an i64 if its number fits one, and none otherwise.
pub parse_i64_cases :
    (s : Bytes)
    → IsDecimal s
    → ((decimal s < 2 ^ 63) × (parse_i64 s ≡ some (pos (decimal s))))
      ⊎ ((2 ^ 63 ≤ decimal s) × (parse_i64 s ≡ none))
unfolding parse_i64 parse_signed parse_nonempty positive decimal
parse_i64_cases [] h = absurd h
parse_i64_cases (b ∷ bs) (hb, hbs) =
    let minus : (b == b'-') ≡ false = ground arith in
    let plus : (b == b'+') ≡ false = ground arith in
    elim (Bool-cases (ltb (decimal_from 0 (b ∷ bs)) (2 ^ 63))) [
      | inl fits ↦ inl (
        ground arith,
        rw (minus, plus, parse_digits-decimal_from 0 (b ∷ bs) (hb, hbs), fits) refl,
      )
      | inr over ↦ inr (
        ground arith,
        rw (minus, plus, parse_digits-decimal_from 0 (b ∷ bs) (hb, hbs), over) refl,
      )
    ]
