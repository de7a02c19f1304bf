-- ===== src/Sql/Grammar/Values.antt =====
-- parser/sql.lalrpop: the productions of the names and values of variables.
use kui_ba_db.Base.{◌++◌, Bool}
use kui_ba_db.Base.Text.{codes}
use kui_ba_db.Sql.Syntax.{StrVal, in_place, dyn, as_str, NumVal, num, str, AConst}
use kui_ba_db.Sql.Grammar.{Keyword, keyword, punct, Input, Eats}
use kui_ba_db.Sql.Grammar.Terms.{NumericOnly, Sconst, Ident, constant}

-- `format!("{}.{}", &*n, &*v)`
abbrev pub dotted_name : StrVal → StrVal → StrVal
dotted_name n v = dyn (as_str n ++ codes "." ++ as_str v)

pub data VarName : Input → Input → StrVal → Type 0 where
  one_name : {a b : Input} {n : StrVal} → Ident a b n → VarName a b n
  dotted :
      {a b c d : Input} {n v : StrVal}
      → VarName a b n
      → Eats (punct b'.') b c
      → Ident c d v
      → VarName a d (dotted_name n v)

pub data OptBooleanOrString : Input → Input → StrVal → Type 0 where
  true_value :
      {a b : Input}
      → Eats (keyword Keyword.true_p) a b
      → OptBooleanOrString a b (in_place (codes "true"))
  false_value :
      {a b : Input}
      → Eats (keyword Keyword.false_p) a b
      → OptBooleanOrString a b (in_place (codes "false"))
  string_value : {a b : Input} {v : StrVal} → Sconst a b v → OptBooleanOrString a b v

pub data VarValue (debug : Bool) : Input → Input → AConst → Type 0 where
  text_value :
      {a b : Input} {v : StrVal}
      → OptBooleanOrString a b v
      → VarValue debug a b (constant a (str v) b)
  number_value :
      {a b : Input} {v : NumVal}
      → NumericOnly debug a b v
      → VarValue debug a b (constant a (num v) b)
