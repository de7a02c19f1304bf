-- ===== src/Sql/Descent/Statements.antt =====
-- parser/sql.lalrpop: the recursive descent for whole queries.
pub mod Sound
pub mod Complete
pub mod Equivalence
use kui_ba_db.Base.{
  ℕ, List, [], ◌∷◌, ◌++◌, Bytes, Bool, true, false, Option, none, some, ok, ◌==◌, if◌then◌else◌,
}
use kui_ba_db.Base.Text.{codes, parse_i32}
use kui_ba_db.Utils.Err.{Fallible}
use kui_ba_db.Sql.Syntax.{
  StrVal, in_place, NumVal, float, neg_num, Value, num, str, AConst, TranStmt, ResTarget, Stmt,
  CreateTableStmt, LockStmt, CopyStmt,
}
use kui_ba_db.Sql.Grammar.{Keyword, Token, keyword, decimal, integer, xb, punct, Input, step}
use kui_ba_db.Sql.Descent.{Parser, punctuation, sequence, read_integer}
use kui_ba_db.Sql.Descent.Queries.{parse_name, parse_targets, or_empty}
use kui_ba_db.Sql.Grammar.Tables.{Modes}
use kui_ba_db.Sql.Descent.Actions.{unquote, constant_at, with_dot}
use kui_ba_db.Sql.Descent.Tables.{parse_table, parse_lock}
use kui_ba_db.Sql.Descent.Copies.{parse_copy}
use kui_ba_db.Sql.Descent.Values.{
  join_name, parse_var_name, append_name, parse_any_name, number_from, valued, negated, minus_from,
  value_from, setting_from,
}

-- A query ends behind its statement, or behind a `;`.
unfoldable pub is_end : Option (Token × Input) → Bool
is_end none = true
is_end (some r) = false

unfoldable pub last_mark : Option (ℕ × Input) → Input → Bool
unfolding is_end
last_mark none b = is_end (step b)
last_mark (some (o, c)) b = is_end (step c)

unfoldable pub finished : Input → Bool
unfolding last_mark
finished b = last_mark (punctuation (λ o. o == b';') b) b

-- How each statement goes on behind its first keyword.
module _ {LockMode : Type 0} (modes : Modes LockMode) (debug : Bool) where
  unfoldable pub set_value : StrVal → Option (AConst × Input) → Option (Stmt LockMode × Input)
  set_value n none = none
  set_value n (some (v, b)) = some (Stmt.variable_set (record { name = n; val = v }), b)

  unfoldable pub set_named : Option (StrVal × Input) → Option (Stmt LockMode × Input)
  unfolding set_value setting_from
  set_named none = none
  set_named (some (n, b)) = set_value n (setting_from debug (step b))

  unfoldable pub shown : Option (StrVal × Input) → Option (Stmt LockMode × Input)
  shown none = none
  shown (some (n, b)) = some (Stmt.variable_show (record { name = n }), b)

  unfoldable pub defined : Option (List StrVal × Input) → Option (Stmt LockMode × Input)
  defined none = none
  defined (some (l, b)) = some (Stmt.define_type (record { defnames = l; definition = [] }), b)

  unfoldable pub table_created : Option (CreateTableStmt × Input) → Option (Stmt LockMode × Input)
  table_created none = none
  table_created (some (s, b)) = some (Stmt.create_table s, b)

  unfoldable pub locked : Option (LockStmt LockMode × Input) → Option (Stmt LockMode × Input)
  locked none = none
  locked (some (s, b)) = some (Stmt.lock s, b)

  unfoldable pub copied : Option (CopyStmt × Input) → Option (Stmt LockMode × Input)
  copied none = none
  copied (some (s, b)) = some (Stmt.copy s, b)

  unfoldable pub created : Option (Token × Input) → Option (Stmt LockMode × Input)
  unfolding defined table_created
  created (some (keyword Keyword.type_p, b)) = defined (parse_any_name b)
  created (some (keyword Keyword.table, b)) = table_created (parse_table debug b)
  created _ = none

  unfoldable pub selected : List ResTarget × Input → Option (Stmt LockMode × Input)
  selected (l, b) = some (Stmt.select (record { tlist = l }), b)

  -- What begins with no keyword of a statement is the empty statement.
  unfoldable pub statement_from : Input → Option (Token × Input) → Option (Stmt LockMode × Input)
  unfolding set_named shown created selected locked copied
  statement_from a (some (keyword Keyword.set, b)) = set_named (parse_var_name b)
  statement_from a (some (keyword Keyword.show, b)) = shown (parse_var_name b)
  statement_from a (some (keyword Keyword.create, b)) = created (step b)
  statement_from a (some (keyword Keyword.select, b)) = selected (or_empty b (parse_targets b))
  statement_from a (some (keyword Keyword.lock_p, b)) = locked (parse_lock modes b)
  statement_from a (some (keyword Keyword.copy, b)) = copied (parse_copy debug b)
  statement_from a (some (keyword Keyword.begin_p, b)) = some (Stmt.tran TranStmt.begin, b)
  statement_from a (some (keyword Keyword.abort_p, b)) = some (Stmt.tran TranStmt.abort, b)
  statement_from a (some (keyword Keyword.commit_p, b)) = some (Stmt.tran TranStmt.commit, b)
  statement_from a _ = some (Stmt.empty, a)

  unfoldable pub query_of : Option (Stmt LockMode × Input) → Option (Stmt LockMode)
  unfolding finished
  query_of none = none
  query_of (some (s, b)) = if finished b then some s else none

  unfoldable pub parse_query : Input → Option (Stmt LockMode)
  unfolding query_of statement_from
  parse_query a = query_of (statement_from a (step a))
