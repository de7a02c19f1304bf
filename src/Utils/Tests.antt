-- ===== src/Utils/Tests.antt =====
-- The writers and the optional identifiers on concrete values.
use kui_ba_db.Base.{◌+◌, ◌<◌, ◌≤◌, ◌≡◌, refl, arith, ◌⊎◌, Bytes, length, [], ◌∷◌, ◌++◌, none, some}
use kui_ba_db.Utils.Ser.{Endian, be_bytes, from_be_bytes, ser_be, ser_be_at}
use kui_ba_db.Utils.Ser.Order.{ser_be-network, Patched, ser_be_at_total, from_be_bytes-be_bytes}
use kui_ba_db.Oids.{opt_oid_from_u32, u32_from_opt_oid}
use kui_ba_db.Oids.Zero.{opt_oid_u32_inverse}

abbrev five : Bytes
five = 67 ∷ 67 ∷ 67 ∷ 67 ∷ 67 ∷ []

bytes_of_1218 : be_bytes 4 1218 ≡ 0 ∷ 0 ∷ 4 ∷ 194 ∷ []
unfolding be_bytes
bytes_of_1218 = refl

ser_be-network_example : ser_be Endian.little 4 five 1218 ≡ five ++ be_bytes 4 1218
ser_be-network_example = ser_be-network Endian.little 4 five 1218

ser_be_at_total_example :
    ((length five < 1 + 4) × (ser_be_at Endian.little 4 five 1 8 ≡ none))
    ⊎ ((r : Bytes) × (1 + 4 ≤ length five)
        × (ser_be_at Endian.little 4 five 1 8 ≡ some r)
        × Patched 4 1 8 five r)
ser_be_at_total_example = ser_be_at_total Endian.little 4 five 1 8

from_be_bytes-be_bytes_example : from_be_bytes (be_bytes 4 1218) ≡ 1218
from_be_bytes-be_bytes_example = from_be_bytes-be_bytes 4 1218 (omega arith)

opt_oid_u32_inverse_example :
    (opt_oid_from_u32 (u32_from_opt_oid (some 16)) ≡ some 16)
    × (u32_from_opt_oid (opt_oid_from_u32 0) ≡ 0)
opt_oid_u32_inverse_example = opt_oid_u32_inverse (some 16) 0 (omega arith)
