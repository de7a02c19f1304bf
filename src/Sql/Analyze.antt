-- ===== src/Sql/Analyze.antt =====
-- parser/sem.rs: the trees of the analysis, and `Const::try_new`. What other parts of the program
-- give is a parameter: the session with its catalogue, the values (`Datums`) and the bytes that
-- `TypeDesc::hash` feeds to md5. The target has 64 bits.
pub mod Transform
pub mod Literals
pub mod Hash
use kui_ba_db.Base.{
  ℕ, ◌^◌, List, [], Bytes, Bool, true, false, Option, none, some, ok, err, panic, ◌>>=◌,
  if◌then◌else◌,
}
use kui_ba_db.Base.Int.{ℤ, pos, negsuc}
use kui_ba_db.Base.Text.{parse_i64}
use kui_ba_db.Oids.{Oid, OptOid, int4oid, int8oid, float8oid, varcharoid}
use kui_ba_db.Common.{Float}
use kui_ba_db.Utils.Err.{AnyError, Cause, Fallible}
use kui_ba_db.Sql.Steps.{Step}
use kui_ba_db.Sql.Syntax.{
  StrVal, as_str, NumVal, int, float, checked_neg, min_i64, Value, num, str, Location, AConst,
  VariableSetStmt, VariableShowStmt, DefineTypeStmt, TranStmt, CreateTableStmt, LockStmt, CopyStmt,
}

pub record TypeDesc : Type 0 where
  pub id : Oid
  pub len : ℤ
  pub align : ℕ
  pub mode : ℤ

-- The fields that the analysis reads of an operator and of a function of the catalogue.
pub record FormOperator : Type 0 where
  pub oid : Oid
  pub oprcode : OptOid

pub record FormProc : Type 0 where
  pub prorettype : Oid

pub record Backend (f : Float) : Type 1 where
  pub Session : Type 0
  pub Datums : Type 0
  pub LockMode : Type 0
  pub opername_get_oprid : List StrVal → OptOid → Oid → Step Session FormOperator
  pub get_proc : Oid → Step Session FormProc
  pub new_i32 : ℤ → Datums
  pub new_i64 : ℤ → Datums
  pub new_f64 : f.Real → Datums
  pub new_varchar : Bytes → Datums
  pub get_i32 : Datums → ℤ
  pub get_i64 : Datums → ℤ
  pub get_f64 : Datums → f.Real
  pub get_varchar : Datums → Bytes
  pub neg_f64 : f.Real → f.Real
  pub f64_bits : f.Real → ℕ
  pub float_error : Bytes → Bytes
  pub hash_type : TypeDesc → Bytes
  pub md5 : Bytes → Bytes

module _ (Datums : Type 0) where
  pub record Const : Type 0 where
    pub typ : TypeDesc
    pub v : Datums
    pub loc : Location

-- `Expr`, `FuncExpr` (its result type, its function, its arguments) and the vector of arguments.
mutual
  pub data Expr (Datums : Type 0) : Type 0 where
    const : Const Datums → Expr Datums
    func : FuncExpr Datums → Expr Datums

  pub data FuncExpr (Datums : Type 0) : Type 0 where
    func_expr : Oid → Oid → Args Datums → Location → FuncExpr Datums

  pub data Args (Datums : Type 0) : Type 0 where
    nil : Args Datums
    cons : Expr Datums → Args Datums → Args Datums

module _ {Datums : Type 0} where
  unfoldable pub funcresulttype : FuncExpr Datums → Oid
  funcresulttype (func_expr ret id args loc) = ret

  -- Expr::val_type
  unfoldable pub val_type : Expr Datums → Oid
  unfolding funcresulttype
  val_type (const v) = v.typ.id
  val_type (func v) = funcresulttype v

-- A value with its type, its length and its alignment.
pub record Literal (Datums : Type 0) : Type 0 where
  pub v : Datums
  pub id : Oid
  pub len : ℤ
  pub align : ℕ

module _ (f : Float) (b : Backend f) (debug : Bool) where
  -- The two parts of a literal beyond i32: an i64, or else an f64.
  i64_literal : Bool → ℤ → Fallible (Literal b.Datums)
  i64_literal sign i = do
    w ← if sign then checked_neg debug min_i64 i else ok i
    ok (record { v = b.new_i64 w; id = int8oid; len = pos 8; align = 8 })

  f64_literal : Bool → Bytes → Option f.Real → Fallible (Literal b.Datums)
  f64_literal sign v none = err (record { contexts = []; cause = Cause.text (b.float_error v) })
  f64_literal sign v (some x) = ok (record {
    v = b.new_f64 (if sign then b.neg_f64 x else x);
    id = float8oid;
    len = pos 8;
    align = 8;
  })

  float_literal : Bool → Bytes → Option ℤ → Fallible (Literal b.Datums)
  float_literal sign v none = f64_literal sign v (f.parse_f64 v)
  float_literal sign v (some i) = i64_literal sign i

  literal : Value → Fallible (Literal b.Datums)
  literal (num (int i)) = ok (record { v = b.new_i32 i; id = int4oid; len = pos 4; align = 4 })
  literal (num (float sign v)) = float_literal sign v (parse_i64 v)
  literal (str s) =
      ok (record { v = b.new_varchar (as_str s); id = varcharoid; len = negsuc 0; align = 8 })

  -- Const::try_new
  pub try_new : AConst → Fallible (Const b.Datums)
  try_new input = do
    c ← literal input.val
    ok (record {
      typ = record { id = c.id; len = c.len; align = c.align; mode = negsuc 0 };
      v = c.v;
      loc = input.loc;
    })
