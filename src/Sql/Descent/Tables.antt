-- ===== src/Sql/Descent/Tables.antt =====
-- parser/sql.lalrpop: the recursive descent for CREATE TABLE and LOCK.
pub mod Lists
pub mod Create
pub mod Complete
pub mod Locks
use kui_ba_db.Base.{ℕ, List, [], ◌∷◌, ◌++◌, Bytes, Bool, Option, none, some, ◌==◌}
use kui_ba_db.Base.Text.{codes}
use kui_ba_db.Sql.Syntax.{
  StrVal, Value, AConst, DefElem, make_def_elem, RangeVar, TypeName, system_type_name, ColumnDef,
  CreateTableStmt, LockStmt,
}
use kui_ba_db.Sql.Grammar.{Keyword, Token, keyword, integer, Input, step}
use kui_ba_db.Sql.Grammar.Tables.{Modes}
use kui_ba_db.Sql.Descent.Actions.{relation_of, varchar_with}
use kui_ba_db.Sql.Descent.{Parser, punctuation, sequence}
use kui_ba_db.Sql.Descent.Queries.{parse_name, or_empty}
use kui_ba_db.Sql.Descent.Values.{value_from}

-- What is read behind what was read.
unfoldable pub continue :
    {A B : Type 0} → Option (A × Input) → (A → Input → Option (B × Input)) → Option (B × Input)
continue none f = none
continue (some (x, b)) f = f x b

unfoldable pub mark : ℕ → Parser ℕ
mark c = punctuation (λ o. o == c)

abbrev pub append_item : {I : Type 0} → Input → List I → ℕ → I → Input → List I
append_item a l o x b = l ++ x ∷ []

unfoldable pub comma_list : {I : Type 0} → Parser I → Parser (List I)
comma_list item = sequence (λ o. o == b',') item append_item (λ x. x ∷ [])

unfoldable pub parse_relation : Parser RangeVar
unfolding continue
parse_relation a = continue (parse_name a) (λ n b. some (relation_of n, b))

unfoldable pub length_from : Option (Token × Input) → Option (TypeName × Input)
unfolding continue mark
length_from (some (integer i, b)) = continue (mark b')' b) (λ o c. some (varchar_with i, c))
length_from _ = none

unfoldable pub varchar_from : Input → Option (ℕ × Input) → Option (TypeName × Input)
unfolding length_from
varchar_from b none = some (system_type_name (codes "varchar"), b)
varchar_from b (some (o, c)) = length_from (step c)

unfoldable pub type_from : Option (Token × Input) → Option (TypeName × Input)
unfolding varchar_from
type_from (some (keyword Keyword.int_p, b)) = some (system_type_name (codes "int4"), b)
type_from (some (keyword Keyword.smallint, b)) = some (system_type_name (codes "int2"), b)
type_from (some (keyword Keyword.varchar, b)) = varchar_from b (mark b'(' b)
type_from _ = none

unfoldable pub parse_column : Parser ColumnDef
unfolding type_from
parse_column a =
    continue (parse_name a)
      (λ n b. continue (type_from (step b)) (λ t c. some (record { colname = n; typename = t }, c)))

module _ (debug : Bool) where
  unfoldable pub arg_from : Input → Option (Token × Input) → Option (Value × Input)
  unfolding continue
  arg_from a (some (keyword k, b)) = none
  arg_from a r = continue (value_from debug a r) (λ x b. some (x.val, b))

  unfoldable pub parse_reloption : Parser DefElem
  unfolding arg_from mark
  parse_reloption a = continue (parse_name a) (λ n b.
      continue (mark b'=' b)
        (λ o c. continue (arg_from c (step c)) (λ v d. some (make_def_elem n v, d))))

  unfoldable pub options_from : Input → Option (Token × Input) → Option (List DefElem × Input)
  unfolding comma_list parse_reloption
  options_from a (some (keyword Keyword.with_p, b)) = continue (mark b'(' b) (λ o c.
      continue (comma_list parse_reloption c) (λ l d. continue (mark b')' d) (λ o e. some (l, e))))
  options_from a _ = some ([], a)

  -- CREATE TABLE, behind these words.
  unfoldable pub table_columns :
      RangeVar → List ColumnDef × Input → Option (CreateTableStmt × Input)
  unfolding options_from
  table_columns r (l, a) = continue (mark b')' a) (λ o b.
      continue (options_from b (step b))
        (λ w c. some (record { relation = r; table_elts = l; opts = w }, c)))

  unfoldable pub parse_table : Parser CreateTableStmt
  unfolding table_columns parse_relation parse_column
  parse_table a = continue (parse_relation a) (λ r b.
      continue (mark b'(' b) (λ o c. table_columns r (or_empty c (comma_list parse_column c))))

unfoldable pub skip_table : Input → Option (Token × Input) → Input
skip_table a (some (keyword Keyword.table, b)) = b
skip_table a _ = a

module _ {M : Type 0} (modes : Modes M) where
  unfoldable pub access_from : Option (Token × Input) → Option (M × Input)
  access_from (some (keyword Keyword.share, b)) = some (modes.access_share, b)
  access_from (some (keyword Keyword.exclusive, b)) = some (modes.access_exclusive, b)
  access_from _ = none

  unfoldable pub row_from : Option (Token × Input) → Option (M × Input)
  row_from (some (keyword Keyword.share, b)) = some (modes.row_share, b)
  row_from (some (keyword Keyword.exclusive, b)) = some (modes.row_exclusive, b)
  row_from _ = none

  unfoldable pub exclusively : M → Option (Token × Input) → Option (M × Input)
  exclusively m (some (keyword Keyword.exclusive, b)) = some (m, b)
  exclusively m _ = none

  unfoldable pub share_from : Input → Option (Token × Input) → Option (M × Input)
  unfolding exclusively
  share_from a (some (keyword Keyword.update, b)) =
      exclusively modes.share_update_exclusive (step b)
  share_from a (some (keyword Keyword.row, b)) = exclusively modes.share_row_exclusive (step b)
  share_from a _ = some (modes.share, a)

  unfoldable pub lock_from : Option (Token × Input) → Option (M × Input)
  unfolding access_from row_from share_from
  lock_from (some (keyword Keyword.access, b)) = access_from (step b)
  lock_from (some (keyword Keyword.row, b)) = row_from (step b)
  lock_from (some (keyword Keyword.share, b)) = share_from b (step b)
  lock_from (some (keyword Keyword.exclusive, b)) = some (modes.exclusive, b)
  lock_from _ = none

  unfoldable pub mode_word : M → Option (Token × Input) → Option (M × Input)
  mode_word m (some (keyword Keyword.mode_p, b)) = some (m, b)
  mode_word m _ = none

  unfoldable pub opt_lock_from : Input → Option (Token × Input) → Option (M × Input)
  unfolding lock_from mode_word
  opt_lock_from a (some (keyword Keyword.in_p, b)) =
      continue (lock_from (step b)) (λ m c. mode_word m (step c))
  opt_lock_from a _ = some (modes.access_exclusive, a)

  -- LOCK, behind this word.
  unfoldable pub parse_lock : Parser (LockStmt M)
  unfolding opt_lock_from skip_table
  parse_lock a =
      continue (comma_list parse_relation (skip_table a (step a))) (λ l b.
        continue (opt_lock_from b (step b)) (λ m c. some (record { rels = l; mode = m }, c)))
