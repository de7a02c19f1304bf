-- ===== src/Sql/Descent/Values.antt =====
-- parser/sql.lalrpop: the recursive descent for the names and values of statements.
pub mod Sound
pub mod Complete
use kui_ba_db.Base.{
  ℕ, List, [], ◌∷◌, ◌++◌, Bytes, Bool, true, false, Option, none, some, ok, ◌==◌, if◌then◌else◌,
}
use kui_ba_db.Base.Text.{codes, parse_i32}
use kui_ba_db.Utils.Err.{Fallible}
use kui_ba_db.Sql.Syntax.{
  StrVal, in_place, NumVal, float, neg_num, Value, num, str, AConst, TranStmt, ResTarget, Stmt,
}
use kui_ba_db.Sql.Grammar.{Keyword, Token, keyword, decimal, integer, xb, punct, Input, step}
use kui_ba_db.Sql.Descent.Actions.{unquote, constant_at, with_dot}
use kui_ba_db.Sql.Descent.{Parser, punctuation, sequence, read_integer}
use kui_ba_db.Sql.Descent.Queries.{parse_name, parse_targets, or_empty}

abbrev pub join_name : Input → StrVal → ℕ → StrVal → Input → StrVal
join_name a n o v b = with_dot n v

unfoldable pub parse_var_name : Parser StrVal
parse_var_name = sequence (λ o. o == b'.') parse_name join_name (λ n. n)

abbrev pub append_name : Input → List StrVal → ℕ → StrVal → Input → List StrVal
append_name a l o n b = l ++ n ∷ []

unfoldable pub parse_any_name : Parser (List StrVal)
parse_any_name = sequence (λ o. o == b'.') parse_name append_name (λ n. n ∷ [])

unfoldable pub number_from : Option (Token × Input) → Option (NumVal × Input)
number_from (some (decimal s, b)) = some (float false s, b)
number_from (some (integer s, b)) = some (read_integer s (parse_i32 s), b)
number_from _ = none

unfoldable pub valued : (NumVal → Value) → Input → Option (NumVal × Input) → Option (AConst × Input)
valued make a none = none
valued make a (some (v, b)) = some (constant_at a (make v) b, b)

unfoldable pub negated : Input → Fallible NumVal → Option (NumVal × Input)
negated b (ok w) = some (w, b)
negated b _ = none

-- A sign, and the number behind it.
module _ (debug : Bool) where
  unfoldable pub minus_from : Option (NumVal × Input) → Option (NumVal × Input)
  unfolding negated
  minus_from none = none
  minus_from (some (v, b)) = negated b (neg_num debug v)

  unfoldable pub value_from : Input → Option (Token × Input) → Option (AConst × Input)
  unfolding number_from valued minus_from
  value_from a (some (keyword Keyword.true_p, b)) =
      some (constant_at a (str (in_place (codes "true"))) b, b)
  value_from a (some (keyword Keyword.false_p, b)) =
      some (constant_at a (str (in_place (codes "false"))) b, b)
  value_from a (some (xb s, b)) = some (constant_at a (str (in_place (unquote s))) b, b)
  value_from a (some (decimal s, b)) = valued num a (some (float false s, b))
  value_from a (some (integer s, b)) = valued num a (some (read_integer s (parse_i32 s), b))
  value_from a (some (punct o, b)) =
      if o == b'+'
      then valued num a (number_from (step b))
      else if o == b'-'
      then valued num a (minus_from (number_from (step b)))
      else none
  value_from a _ = none

  -- `TO` or `=`, and the value.
  unfoldable pub setting_from : Option (Token × Input) → Option (AConst × Input)
  unfolding value_from
  setting_from (some (keyword Keyword.to, b)) = value_from b (step b)
  setting_from (some (punct o, b)) = if o == b'=' then value_from b (step b) else none
  setting_from _ = none
