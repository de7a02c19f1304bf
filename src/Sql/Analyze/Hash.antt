-- ===== src/Sql/Analyze/Hash.antt =====
-- parser/sem.rs: the hashes of expressions. `none` is the panic of `unreachable!`.
pub mod Total
use kui_ba_db.Base.{ℕ, ◌^◌, ◌++◌, List, [], Bytes, Option, none, some, ◌==◌, if◌then◌else◌}
use kui_ba_db.Base.Int.{to_bits}
use kui_ba_db.Oids.{Oid, int4oid, int8oid, float8oid, varcharoid}
use kui_ba_db.Common.{Float}
use kui_ba_db.Utils.Ser.{Endian, as_bytes}
use kui_ba_db.Sql.Analyze.{Backend, Const, Expr, const, func, FuncExpr, func_expr, Args, nil, cons}

module _ (f : Float) (b : Backend f) (e : Endian) where
  -- `to_ne_bytes` of a number of `k` bytes.
  abbrev ne_bytes : ℕ → ℕ → Bytes
  ne_bytes k v = as_bytes e k v

  -- The bytes of the value that go into the hash.
  value_bytes : Oid → b.Datums → Option Bytes
  value_bytes id v =
      if id == int4oid
      then some (ne_bytes 4 (to_bits (2 ^ 32) (b.get_i32 v)))
      else if id == int8oid
      then some (ne_bytes 8 (to_bits (2 ^ 64) (b.get_i64 v)))
      else if id == float8oid
      then some (ne_bytes 8 (b.f64_bits (b.get_f64 v)))
      else if id == varcharoid
      then some (b.get_varchar v)
      else none

  -- `compute` over what was consumed.
  digest : Bytes → Option Bytes → Option Bytes
  digest before none = none
  digest before (some last) = some (b.md5 (before ++ last))

  -- Const::hash
  pub hash_const : Const b.Datums → Option Bytes
  hash_const c =
      digest (ne_bytes 8 9188113448065398074 ++ b.hash_type c.typ) (value_bytes c.typ.id c.v)

  joined : Option Bytes → Option Bytes → Option Bytes
  joined (some d) (some ds) = some (d ++ ds)
  joined (some d) none = none
  joined none rest = none

  mutual
    -- Expr::hash and FuncExpr::hash
    pub hash_expr : Expr b.Datums → Option Bytes
    hash_expr (const c) = hash_const c
    hash_expr (func x) = hash_func x

    pub hash_func : FuncExpr b.Datums → Option Bytes
    hash_func (func_expr ret fn args loc) =
        digest (ne_bytes 8 8347806344167239419 ++ (ne_bytes 4 ret ++ ne_bytes 4 fn))
          (hash_args args)

    -- The hashes of the arguments, one after the other.
    pub hash_args : Args b.Datums → Option Bytes
    hash_args nil = some []
    hash_args (cons x xs) = joined (hash_expr x) (hash_args xs)
