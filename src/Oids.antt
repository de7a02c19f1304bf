-- ===== src/Oids.antt =====
-- oids.rs: object identifiers. An `Oid` is a nonzero u32; `OptOid` writes its absence as 0.
pub mod Zero
use kui_ba_db.Base.{ℕ, zero, suc, ◌<◌, ◌^◌, Option, none, some}

abbrev pub Oid : Type 0
Oid = ℕ

abbrev pub OptOid : Type 0
OptOid = Option Oid

-- `impl From<u32> for OptOid`, by `Oid::new`.
pub opt_oid_from_u32 : ℕ → OptOid
opt_oid_from_u32 zero = none
opt_oid_from_u32 (suc n) = some (suc n)

-- `impl From<OptOid> for u32`
unfoldable pub u32_from_opt_oid : OptOid → ℕ
u32_from_opt_oid none = 0
u32_from_opt_oid (some v) = v

-- The range of the type: an `Oid` is not 0 and fits 32 bits.
abbrev pub OidFits : OptOid → Type 0
OidFits none = Unit {0}
OidFits (some v) = (0 < v) × (v < 2 ^ 32)

abbrev pub int8oid : Oid
int8oid = 20

abbrev pub int4oid : Oid
int4oid = 23

abbrev pub float8oid : Oid
float8oid = 701

abbrev pub varcharoid : Oid
varcharoid = 1043

abbrev pub template0_db : Oid
template0_db = 1

abbrev pub kuibadb : Oid
kuibadb = 2

abbrev pub kbcatlogns : Oid
kbcatlogns = 11

abbrev pub booloid : Oid
booloid = 16

abbrev pub boolinproc : Oid
boolinproc = 1242

abbrev pub booloutproc : Oid
booloutproc = 1243

abbrev pub byteaoid : Oid
byteaoid = 17

abbrev pub byteainproc : Oid
byteainproc = 1244

abbrev pub byteaoutproc : Oid
byteaoutproc = 31

abbrev pub int8inproc : Oid
int8inproc = 460

abbrev pub int8outproc : Oid
int8outproc = 461

abbrev pub int2oid : Oid
int2oid = 21

abbrev pub int2inproc : Oid
int2inproc = 38

abbrev pub int2outproc : Oid
int2outproc = 39

abbrev pub int4inproc : Oid
int4inproc = 42

abbrev pub int4outproc : Oid
int4outproc = 43

abbrev pub float4oid : Oid
float4oid = 700

abbrev pub float4inproc : Oid
float4inproc = 200

abbrev pub float4outproc : Oid
float4outproc = 201

abbrev pub float8inproc : Oid
float8inproc = 214

abbrev pub float8outproc : Oid
float8outproc = 215

abbrev pub varcharinproc : Oid
varcharinproc = 1046

abbrev pub varcharoutproc : Oid
varcharoutproc = 1047

abbrev pub typerelid : Oid
typerelid = 1247

abbrev pub attrrelid : Oid
attrrelid = 1249

abbrev pub procrelid : Oid
procrelid = 1255

abbrev pub relrelid : Oid
relrelid = 1259

abbrev pub dbrelid : Oid
dbrelid = 1262

abbrev pub kbpublicns : Oid
kbpublicns = 2200

abbrev pub nsrelid : Oid
nsrelid = 2615

abbrev pub oprelid : Oid
oprelid = 2617
