-- ===== src/Sql/Grammar/Terms.antt =====
-- parser/sql.lalrpop: the productions of constants, names, expressions and target lists. A value of
-- `N a b x` is a derivation of the nonterminal `N` from the input between `a` and `b`, with what its
-- action makes.
use kui_ba_db.Base.{
  ℕ, ◌-◌, List, [], ◌∷◌, ◌++◌, map, Bytes, Bool, false, Option, none, some, ok, ◌≡◌, length, take,
  drop,
}
use kui_ba_db.Base.Int.{ℤ}
use kui_ba_db.Base.Text.{parse_i32, to_ascii_lowercase}
use kui_ba_db.Sql.Syntax.{
  StrVal, in_place, dyn, NumVal, int, float, neg_num, Value, num, str, Location, AConst, Expr,
  a_const, a_expr, op, node, one, two, ResTarget, SelectStmt,
}
use kui_ba_db.Sql.Grammar.{
  Keyword, keyword, lowercase_id, id, decimal, integer, xb, punct, Input, left, Eats,
}

pub data IOrFConst : Input → Input → NumVal → Type 0 where
  decimal_const : {a b : Input} {s : Bytes} → Eats (decimal s) a b → IOrFConst a b (float false s)
  int_const :
      {a b : Input} {s : Bytes} {v : ℤ}
      → Eats (integer s) a b
      → parse_i32 s ≡ some v
      → IOrFConst a b (int v)
  big_const :
      {a b : Input} {s : Bytes}
      → Eats (integer s) a b
      → parse_i32 s ≡ none
      → IOrFConst a b (float false s)

-- `debug` says whether overflow checks are compiled in.
pub data NumericOnly (debug : Bool) : Input → Input → NumVal → Type 0 where
  plain : {a b : Input} {v : NumVal} → IOrFConst a b v → NumericOnly debug a b v
  plus :
      {a b c : Input} {v : NumVal}
      → Eats (punct b'+') a b
      → IOrFConst b c v
      → NumericOnly debug a c v
  minus :
      {a b c : Input} {v w : NumVal}
      → Eats (punct b'-') a b
      → IOrFConst b c v
      → neg_num debug v ≡ ok w
      → NumericOnly debug a c w

-- `&s[1..s.len()-1]`
abbrev pub inner : Bytes → Bytes
inner s = drop 1 (take (length s - 1) s)

-- SCONST, Sconst and copy_file_name.
pub data Sconst : Input → Input → StrVal → Type 0 where
  quoted : {a b : Input} {s : Bytes} → Eats (xb s) a b → Sconst a b (in_place (inner s))

-- IDENT, ColId, ColLabel and attr_name.
pub data Ident : Input → Input → StrVal → Type 0 where
  lower : {a b : Input} {v : Bytes} → Eats (lowercase_id v) a b → Ident a b (in_place v)
  upper : {a b : Input} {v : Bytes} → Eats (id v) a b → Ident a b (dyn (map to_ascii_lowercase v))
  marked :
      {a b c d : Input} {v : Bytes}
      → Eats (punct b'"') a b
      → Eats (id v) b c
      → Eats (punct b'"') c d
      → Ident a d (in_place v)

-- `a_expr_lvl0_op` and `a_expr_lvl2_unary_op`.
pub data AddOp : ℕ → Type 0 where
  plus_op : AddOp b'+'
  minus_op : AddOp b'-'

-- `a_expr_lvl1_op`.
pub data MulOp : ℕ → Type 0 where
  times_op : MulOp b'*'
  over_op : MulOp b'/'
  rest_op : MulOp b'%'

abbrev pub span : Input → Input → Location
span a b = record { s = left a; e = b.last }

-- The actions of the binary and of the unary operators.
abbrev pub binary : Input → Expr → ℕ → Expr → Input → Expr
binary a l o r b = a_expr (node op (in_place (o ∷ []) ∷ []) (two l r) (span a b))

abbrev pub unary : Input → ℕ → Expr → Input → Expr
unary a o r b = a_expr (node op (in_place (o ∷ []) ∷ []) (one r) (span a b))

abbrev pub constant : Input → Value → Input → AConst
constant a v b = record { val = v; loc = span a b }

pub data AexprConst : Input → Input → Expr → Type 0 where
  number :
      {a b : Input} {v : NumVal} → IOrFConst a b v → AexprConst a b (a_const (constant a (num v) b))
  text : {a b : Input} {v : StrVal} → Sconst a b v → AexprConst a b (a_const (constant a (str v) b))

-- a_expr, a_expr_lvl1, a_expr_lvl2 and c_expr.
mutual
  pub data AExpr : Input → Input → Expr → Type 0 where
    add :
        {a b c d : Input} {l r : Expr} {o : ℕ}
        → AExpr a b l
        → Eats (punct o) b c
        → AddOp o
        → Lvl1 c d r
        → AExpr a d (binary a l o r d)
    lvl1 : {a b : Input} {x : Expr} → Lvl1 a b x → AExpr a b x

  pub data Lvl1 : Input → Input → Expr → Type 0 where
    mul :
        {a b c d : Input} {l r : Expr} {o : ℕ}
        → Lvl1 a b l
        → Eats (punct o) b c
        → MulOp o
        → Lvl2 c d r
        → Lvl1 a d (binary a l o r d)
    lvl2 : {a b : Input} {x : Expr} → Lvl2 a b x → Lvl1 a b x

  pub data Lvl2 : Input → Input → Expr → Type 0 where
    sign :
        {a b c : Input} {r : Expr} {o : ℕ}
        → Eats (punct o) a b
        → AddOp o
        → Lvl2 b c r
        → Lvl2 a c (unary a o r c)
    c_expr : {a b : Input} {x : Expr} → CExpr a b x → Lvl2 a b x

  pub data CExpr : Input → Input → Expr → Type 0 where
    atom : {a b : Input} {x : Expr} → AexprConst a b x → CExpr a b x
    paren :
        {a b c d : Input} {x : Expr}
        → Eats (punct b'(') a b
        → AExpr b c x
        → Eats (punct b')') c d
        → CExpr a d x

abbrev pub target : Input → Option StrVal → Expr → Input → ResTarget
target a name val b = record { name = name; val = val; loc = span a b }

pub data TargetEl : Input → Input → ResTarget → Type 0 where
  named :
      {a b c d : Input} {x : Expr} {n : StrVal}
      → AExpr a b x
      → Eats (keyword Keyword.as_p) b c
      → Ident c d n
      → TargetEl a d (target a (some n) x d)
  unnamed : {a b : Input} {x : Expr} → AExpr a b x → TargetEl a b (target a none x b)

pub data TargetList : Input → Input → List ResTarget → Type 0 where
  first : {a b : Input} {t : ResTarget} → TargetEl a b t → TargetList a b (t ∷ [])
  more :
      {a b c d : Input} {l : List ResTarget} {t : ResTarget}
      → TargetList a b l
      → Eats (punct b',') b c
      → TargetEl c d t
      → TargetList a d (l ++ t ∷ [])

pub data OptTargetList : Input → Input → List ResTarget → Type 0 where
  targets : {a b : Input} {l : List ResTarget} → TargetList a b l → OptTargetList a b l
  no_targets : {a : Input} → OptTargetList a a []

-- simple_select, select_no_parens and SelectStmt.
pub data Select : Input → Input → SelectStmt → Type 0 where
  select_list :
      {a b c : Input} {l : List ResTarget}
      → Eats (keyword Keyword.select) a b
      → OptTargetList b c l
      → Select a c (record { tlist = l })
