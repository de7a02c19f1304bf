-- ===== src/Sql/Syntax.antt =====
-- parser/syn.rs: the syntax trees. The type of lock modes is from another part of the program and
-- is a parameter.
pub mod Numbers
use kui_ba_db.Base.{
  ℕ, zero, suc, ◌^◌, ◌/◌, List, [], ◌∷◌, ◌++◌, Bytes, Bool, true, false, not, Option, ok, panic,
  ◌>>=◌, leb, if◌then◌else◌,
}
use kui_ba_db.Base.Int.{ℤ, pos, negsuc, neg}
use kui_ba_db.Base.Text.{codes, show_ℤ}
use kui_ba_db.Utils.Err.{Fallible}

-- A text of the query in place, or one that was made.
pub data StrVal : Type 0 where
  in_place dyn : Bytes → StrVal

-- `as_str`, and `Deref`, `to_string` and `Display`, which give the same text.
unfoldable pub as_str : StrVal → Bytes
as_str (in_place val) = val
as_str (dyn val) = val

pub data NumVal : Type 0 where
  int : ℤ → NumVal
  float : Bool → Bytes → NumVal

-- `-v` on a signed integer of which `m` is the least negative number's magnitude: with overflow
-- checks (`debug`) the negation of that number panics, and without them it wraps around to itself.
unfoldable pub checked_neg : Bool → ℕ → ℤ → Fallible ℤ
checked_neg debug m (pos n) = ok (neg n)
checked_neg debug m (negsuc n) =
    if leb m (suc n) then (if debug then panic else ok (negsuc n)) else ok (pos (suc n))

abbrev pub min_i32 : ℕ
min_i32 = 2 ^ 31

abbrev pub min_i64 : ℕ
min_i64 = 2 ^ 63

-- NumVal::neg
unfoldable pub neg_num : Bool → NumVal → Fallible NumVal
unfolding checked_neg
neg_num debug (int v) = do w ← checked_neg debug min_i32 v; ok (int w)
neg_num debug (float sign v) = ok (float (not sign) v)

-- `Display` of a number and of a value.
unfoldable pub display_num : NumVal → Bytes
display_num (int v) = show_ℤ v
display_num (float sign v) = if sign then b'-' ∷ v else v

pub data Value : Type 0 where
  num : NumVal → Value
  str : StrVal → Value

pub display_value : Value → Bytes
unfolding as_str display_num
display_value (str s) = as_str s
display_value (num n) = display_num n

pub record Location : Type 0 where
  pub s : ℕ
  pub e : ℕ

pub record AConst : Type 0 where
  pub val : Value
  pub loc : Location

pub record VariableSetStmt : Type 0 where
  pub name : StrVal
  pub val : AConst

pub record VariableShowStmt : Type 0 where
  pub name : StrVal

pub data TranStmt : Type 0 where
  begin abort commit : TranStmt

pub record DefElemVal : Type 0 where
  pub defname : StrVal
  pub arg : Value

pub data DefElem : Type 0 where
  unspec add set : DefElemVal → DefElem
  drop : StrVal → DefElem

pub make_def_elem : StrVal → Value → DefElem
make_def_elem defname arg = DefElem.unspec (record { defname = defname; arg = arg })

pub record DefineTypeStmt : Type 0 where
  pub defnames : List StrVal
  pub definition : List DefElem

pub data AExprKind : Type 0 where
  op : AExprKind

-- `Expr`, `AExpr` and `AExprOprands`: an operator stands over one operand or two.
mutual
  pub data Expr : Type 0 where
    a_const : AConst → Expr
    a_expr : AExpr → Expr

  pub data AExpr : Type 0 where
    node : AExprKind → List StrVal → AExprOprands → Location → AExpr

  pub data AExprOprands : Type 0 where
    one : Expr → AExprOprands
    two : Expr → Expr → AExprOprands

pub record InsertResTarget : Type 0 where
  pub name : Option StrVal
  pub loc : Location

pub record ResTarget : Type 0 where
  pub name : Option StrVal
  pub val : Expr
  pub loc : Location

pub record SelectStmt : Type 0 where
  pub tlist : List ResTarget

pub record Alias : Type 0 where
  pub aliasname : StrVal
  pub colnames : List StrVal

pub record RangeVar : Type 0 where
  pub schemaname : Option StrVal
  pub relname : StrVal
  pub alias : Option Alias

pub record TypeName : Type 0 where
  pub names : List StrVal
  pub typmods : List Bytes

pub system_type_name : Bytes → TypeName
system_type_name name = record {
  names = in_place (codes "kb_catalog") ∷ in_place name ∷ [];
  typmods = [];
}

pub record ColumnDef : Type 0 where
  pub colname : StrVal
  pub typename : TypeName

pub record CreateTableStmt : Type 0 where
  pub relation : RangeVar
  pub table_elts : List ColumnDef
  pub opts : List DefElem

pub record CopyStmt : Type 0 where
  pub rel : RangeVar
  pub from : Bool
  pub filename : StrVal
  pub opts : List DefElem

module _ (LockMode : Type 0) where
  pub record LockStmt : Type 0 where
    pub rels : List RangeVar
    pub mode : LockMode

  pub data Stmt : Type 0 where
    variable_set : VariableSetStmt → Stmt
    variable_show : VariableShowStmt → Stmt
    define_type : DefineTypeStmt → Stmt
    select : SelectStmt → Stmt
    tran : TranStmt → Stmt
    create_table : CreateTableStmt → Stmt
    lock : LockStmt → Stmt
    copy : CopyStmt → Stmt
    empty : Stmt

  -- Stmt::is_tran_exit
  pub is_tran_exit : Stmt → Bool
  is_tran_exit (tran commit) = true
  is_tran_exit (tran abort) = true
  is_tran_exit _ = false
