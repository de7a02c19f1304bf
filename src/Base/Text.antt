-- ===== src/Base/Text.antt =====
-- Rust's `str` as the list of its UTF-8 bytes: literals, ASCII case, UTF-8 validity, decimals.
pub mod Decimal
use Prim.Native.Nat.{ℕ, zero, suc, ◌+◌, ◌-◌, ◌*◌, ◌/◌, ◌%◌, ◌^◌}
use Prim.Native.Char.{code}
use Prim.Native.String.{String}
use mathlib.Core.Bool.{Bool, true, ◌&&◌, ◌||◌}
use mathlib.Core.List.{[], ◌∷◌, ◌++◌, map}
use mathlib.Core.Option.{Option, none, some}
use kui_ba_db.Base.Int.{ℤ, pos, negsuc, neg}
use kui_ba_db.Base.Tests.{ltb, leb, ◌==◌, if◌then◌else◌}
use kui_ba_db.Base.Lists.{Bytes, eq_bytes}

-- The bytes of an ASCII literal.
abbrev pub codes : String → Bytes
codes String.[] = []
codes (String.◌∷◌ c s) = code c ∷ codes s

unfoldable pub to_ascii_lowercase : ℕ → ℕ
to_ascii_lowercase b = if leb b'A' b && leb b b'Z' then b + 32 else b

unfoldable pub to_ascii_uppercase : ℕ → ℕ
to_ascii_uppercase c = if leb b'a' c && leb c b'z' then c - 32 else c

unfoldable pub eq_ignore_ascii_case : Bytes → Bytes → Bool
unfolding to_ascii_lowercase
eq_ignore_ascii_case a b = eq_bytes (map to_ascii_lowercase a) (map to_ascii_lowercase b)

abbrev within : ℕ → ℕ → ℕ → Bool
within lo hi b = leb lo b && leb b hi

-- A continuation byte.
is_cont : ℕ → Bool
is_cont b = within 0x80 0xbf b

-- The second byte after a lead byte of three or four, by the table of the standard library.
second3 : ℕ → ℕ → Bool
second3 a b =
    (a == 0xe0 && within 0xa0 0xbf b)
    || (within 0xe1 0xec a && within 0x80 0xbf b)
    || (a == 0xed && within 0x80 0x9f b)
    || (within 0xee 0xef a && within 0x80 0xbf b)

second4 : ℕ → ℕ → Bool
second4 a b =
    (a == 0xf0 && within 0x90 0xbf b)
    || (within 0xf1 0xf3 a && within 0x80 0xbf b)
    || (a == 0xf4 && within 0x80 0x8f b)

-- Whether `std::str::from_utf8` accepts the bytes.
unfoldable pub is_utf8 : Bytes → Bool
unfolding is_cont second3 second4
is_utf8 [] = true
is_utf8 (a ∷ []) = ltb a 0x80
is_utf8 (a ∷ b ∷ []) = (ltb a 0x80 && ltb b 0x80) || (within 0xc2 0xdf a && is_cont b)
is_utf8 (a ∷ b ∷ c ∷ []) =
    let one = ltb a 0x80 && is_utf8 (b ∷ c ∷ []) in
    let two = within 0xc2 0xdf a && is_cont b && ltb c 0x80 in
    let three = second3 a b && is_cont c in one || two || three
is_utf8 (a ∷ b ∷ c ∷ d ∷ s) =
    let one = is_utf8 (b ∷ c ∷ d ∷ s) in
    let two = is_utf8 (c ∷ d ∷ s) in
    let three = is_utf8 (d ∷ s) in
    let four = is_utf8 s in
    if ltb a 0x80
    then one
    else if within 0xc2 0xdf a && is_cont b
    then two
    else if second3 a b && is_cont c
    then three
    else (second4 a b && is_cont c && is_cont d && four)

unfoldable pub from_utf8 : Bytes → Option Bytes
unfolding is_utf8
from_utf8 s = if is_utf8 s then some s else none

-- `Display` of an unsigned number: its decimal digits. A number has at most as many digits as its
-- value plus one, so that much fuel is enough.
digits_fuel : ℕ → ℕ → Bytes → Bytes
digits_fuel zero n acc = acc
digits_fuel (suc f) n acc =
    let acc' = (b'0' + n % 10) ∷ acc in
    let rest = digits_fuel f (n / 10) acc' in if ltb n 10 then acc' else rest

unfoldable pub show_ℕ : ℕ → Bytes
unfolding digits_fuel
show_ℕ n = digits_fuel (suc n) n []

-- `i32::from_str` and `i64::from_str`: an optional sign, at least one digit, and a value in range.
parse_digits : ℕ → Bytes → Option ℕ
parse_digits acc [] = some acc
parse_digits acc (b ∷ bs) =
    let rest = parse_digits (acc * 10 + (b - b'0')) bs in if within b'0' b'9' b then rest else none

parse_nonempty : Bytes → Option ℕ
unfolding parse_digits
parse_nonempty [] = none
parse_nonempty (b ∷ bs) = parse_digits 0 (b ∷ bs)

-- `m` is the number of values of the type that are not negative.
positive : ℕ → Option ℕ → Option ℤ
positive m none = none
positive m (some n) = if ltb n m then some (pos n) else none

negative : ℕ → Option ℕ → Option ℤ
negative m none = none
negative m (some n) = if leb n m then some (neg n) else none

parse_signed : ℕ → Bytes → Option ℤ
unfolding parse_nonempty positive negative
parse_signed m [] = none
parse_signed m (b ∷ bs) =
    if b == b'-'
    then negative m (parse_nonempty bs)
    else if b == b'+'
    then positive m (parse_nonempty bs)
    else positive m (parse_nonempty (b ∷ bs))

unfoldable pub parse_i32 : Bytes → Option ℤ
unfolding parse_signed
parse_i32 s = parse_signed (2 ^ 31) s

unfoldable pub parse_i64 : Bytes → Option ℤ
unfolding parse_signed
parse_i64 s = parse_signed (2 ^ 63) s

-- `Display` of a signed number.
unfoldable pub show_ℤ : ℤ → Bytes
unfolding show_ℕ
show_ℤ (pos n) = show_ℕ n
show_ℤ (negsuc n) = b'-' ∷ show_ℕ (suc n)

-- `{:?}` of a byte vector.
debug_items : Bytes → Bytes
debug_items [] = codes "]"
debug_items (b ∷ []) = show_ℕ b ++ codes "]"
debug_items (b ∷ c ∷ bs) = show_ℕ b ++ (codes ", " ++ debug_items (c ∷ bs))

unfoldable pub debug_bytes : Bytes → Bytes
unfolding debug_items
debug_bytes bs = b'[' ∷ debug_items bs
