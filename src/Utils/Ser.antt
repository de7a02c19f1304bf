-- ===== src/Utils/Ser.antt =====
-- utils/ser.rs: values written to a byte vector in the machine's order or in network order.
-- A value of a type of `k` bytes is its bit pattern, a number below 256 ^ k; a signed one is an
-- integer. The byte order of the target is a parameter: the source runs on either.
pub mod Order
use kui_ba_db.Base.{
  ℕ, zero, suc, ◌+◌, ◌*◌, ◌/◌, ◌%◌, ◌^◌, List, [], ◌∷◌, ◌++◌, reverse, Bytes, length, take, drop,
  Option, none, some, leb, if◌then◌else◌,
}
use kui_ba_db.Base.Int.{ℤ, to_bits}

pub data Endian : Type 0 where
  little big : Endian

-- `to_le_bytes` and `to_be_bytes` of Rust's integers, and the ways back.
unfoldable pub le_bytes : ℕ → ℕ → Bytes
le_bytes zero v = []
le_bytes (suc k) v = (v % 256) ∷ le_bytes k (v / 256)

unfoldable pub be_bytes : ℕ → ℕ → Bytes
unfolding le_bytes
be_bytes k v = reverse (le_bytes k v)

unfoldable pub from_le_bytes : Bytes → ℕ
from_le_bytes [] = 0
from_le_bytes (b ∷ bs) = b + 256 * from_le_bytes bs

unfoldable pub from_be_bytes : Bytes → ℕ
unfolding from_le_bytes
from_be_bytes bs = from_le_bytes (reverse bs)

-- The bytes of the value in memory.
unfoldable pub as_bytes : Endian → ℕ → ℕ → Bytes
unfolding le_bytes be_bytes
as_bytes Endian.little k v = le_bytes k v
as_bytes Endian.big k v = be_bytes k v

-- `val.to_be()` swaps the bytes on a little-endian machine.
to_be : Endian → ℕ → ℕ → ℕ
unfolding from_le_bytes be_bytes
to_be Endian.little k v = from_le_bytes (be_bytes k v)
to_be Endian.big k v = v

module _ (e : Endian) where
  pub ser : ℕ → Bytes → ℕ → Bytes
  unfolding as_bytes
  ser k out v = out ++ as_bytes e k v

  -- `none` is the panic of a slice that leaves the vector.
  pub ser_at : ℕ → Bytes → ℕ → ℕ → Option Bytes
  unfolding as_bytes
  ser_at k out idx v =
      if leb (idx + k) (length out)
      then some (take idx out ++ (as_bytes e k v ++ drop (idx + k) out))
      else none

  pub ser_be : ℕ → Bytes → ℕ → Bytes
  unfolding ser to_be
  ser_be k out v = ser k out (to_be e k v)

  pub ser_be_at : ℕ → Bytes → ℕ → ℕ → Option Bytes
  unfolding ser_at to_be
  ser_be_at k out idx v = ser_at k out idx (to_be e k v)

  -- The typed writers. `ser_be_*` is what the protocol uses.

  pub ser_i32 : Bytes → ℤ → Bytes
  unfolding ser
  ser_i32 out val = ser 4 out (to_bits (256 ^ 4) val)

  pub ser_i32_at : Bytes → ℕ → ℤ → Option Bytes
  unfolding ser_at
  ser_i32_at out idx val = ser_at 4 out idx (to_bits (256 ^ 4) val)

  pub ser_be_i32 : Bytes → ℤ → Bytes
  unfolding ser_be
  ser_be_i32 out val = ser_be 4 out (to_bits (256 ^ 4) val)

  pub ser_be_i32_at : Bytes → ℕ → ℤ → Option Bytes
  unfolding ser_be_at
  ser_be_i32_at out idx val = ser_be_at 4 out idx (to_bits (256 ^ 4) val)

  pub ser_u32 : Bytes → ℕ → Bytes
  unfolding ser
  ser_u32 out val = ser 4 out val

  pub ser_u32_at : Bytes → ℕ → ℕ → Option Bytes
  unfolding ser_at
  ser_u32_at out idx val = ser_at 4 out idx val

  pub ser_be_u32 : Bytes → ℕ → Bytes
  unfolding ser_be
  ser_be_u32 out val = ser_be 4 out val

  pub ser_be_u32_at : Bytes → ℕ → ℕ → Option Bytes
  unfolding ser_be_at
  ser_be_u32_at out idx val = ser_be_at 4 out idx val

  pub ser_u64 : Bytes → ℕ → Bytes
  unfolding ser
  ser_u64 out val = ser 8 out val

  pub ser_u64_at : Bytes → ℕ → ℕ → Option Bytes
  unfolding ser_at
  ser_u64_at out idx val = ser_at 8 out idx val

  pub ser_be_u64 : Bytes → ℕ → Bytes
  unfolding ser_be
  ser_be_u64 out val = ser_be 8 out val

  pub ser_be_u64_at : Bytes → ℕ → ℕ → Option Bytes
  unfolding ser_be_at
  ser_be_u64_at out idx val = ser_be_at 8 out idx val

  pub ser_u16 : Bytes → ℕ → Bytes
  unfolding ser
  ser_u16 out val = ser 2 out val

  pub ser_u16_at : Bytes → ℕ → ℕ → Option Bytes
  unfolding ser_at
  ser_u16_at out idx val = ser_at 2 out idx val

  pub ser_be_u16 : Bytes → ℕ → Bytes
  unfolding ser_be
  ser_be_u16 out val = ser_be 2 out val

  pub ser_be_u16_at : Bytes → ℕ → ℕ → Option Bytes
  unfolding ser_be_at
  ser_be_u16_at out idx val = ser_be_at 2 out idx val

  pub ser_i16 : Bytes → ℤ → Bytes
  unfolding ser
  ser_i16 out val = ser 2 out (to_bits (256 ^ 2) val)

  pub ser_i16_at : Bytes → ℕ → ℤ → Option Bytes
  unfolding ser_at
  ser_i16_at out idx val = ser_at 2 out idx (to_bits (256 ^ 2) val)

  pub ser_be_i16 : Bytes → ℤ → Bytes
  unfolding ser_be
  ser_be_i16 out val = ser_be 2 out (to_bits (256 ^ 2) val)

  pub ser_be_i16_at : Bytes → ℕ → ℤ → Option Bytes
  unfolding ser_be_at
  ser_be_i16_at out idx val = ser_be_at 2 out idx (to_bits (256 ^ 2) val)

-- A C string: the bytes and a zero.
pub ser_cstr : Bytes → Bytes → Bytes
ser_cstr out buf = (out ++ buf) ++ 0 ∷ []
