-- ===== src/Sql/Descent/Statements/Complete.antt =====
-- parser/sql.lalrpop: what the grammar derives as a query, the recursive descent reads.
use kui_ba_db.Base.{◌≡◌, refl, Bool, true, some, ◌==◌}
use kui_ba_db.Sql.Syntax.{Stmt}
use kui_ba_db.Sql.Grammar.{Input, step}
use kui_ba_db.Sql.Grammar.Terms.{select_list}
use kui_ba_db.Sql.Grammar.Statements.{
  set_to, set_equal, show_name, begins, aborts, commits, create_type, Statement, variable_set,
  variable_show, define_type, select, tran, empty, Query, bare, ended, create, lock, copy,
}
use kui_ba_db.Sql.Descent.{punctuation, marked_by}
use kui_ba_db.Sql.Descent.Loop.{Eats-not_punctuation}
use kui_ba_db.Sql.Descent.Queries.Complete.{Closes, at_end, at_mark, OptTargetList-parse}
use kui_ba_db.Sql.Grammar.Tables.{Modes, create_table, lock_tables}
use kui_ba_db.Sql.Descent.Tables.Complete.{parse_table_complete}
use kui_ba_db.Sql.Descent.Tables.Locks.{parse_lock_complete}
use kui_ba_db.Sql.Grammar.Copies.{copy_table}
use kui_ba_db.Sql.Descent.Copies.Complete.{parse_copy_complete}
use kui_ba_db.Sql.Descent.Values.{setting_from}
use kui_ba_db.Sql.Descent.Values.Complete.{
  VarName-parse, AnyName-parse, VarValue-parse, to-not_dot, Closes-not_dot,
}
use kui_ba_db.Sql.Descent.Statements.{
  set_value, set_named, shown, defined, created, selected, statement_from, is_end, last_mark,
  finished, query_of, parse_query, table_created, locked, copied,
}

Closes-finished : (b : Input) → Closes b → finished b ≡ true
unfolding finished last_mark is_end punctuation marked_by
Closes-finished b (at_end e) = rw (e, e) refl
Closes-finished b (at_mark e e') = rw (e, e') refl

module _ {M : Type 0} {modes : Modes M} {debug : Bool} where
  Statement-parse :
      {a b : Input} {s : Stmt M}
      → Statement modes debug a b s
      → Closes b
      → statement_from modes debug a (step a) ≡ some (s, b)
  unfolding statement_from set_named setting_from set_value shown created defined selected
      table_created locked copied
  Statement-parse (variable_set (set_to {c = c} {d = d} e dn e' dv)) closes =
      rw (e, VarName-parse dn (to-not_dot c d e'), e', VarValue-parse dv) refl
  Statement-parse (variable_set (set_equal {c = c} {d = d} e dn e' dv)) closes =
      rw
        (
          e,
          VarName-parse dn (Eats-not_punctuation (λ o. o == b'.') c d b'=' e' refl),
          e',
          VarValue-parse dv,
        )
        refl
  Statement-parse {b = b} (variable_show (show_name e dn)) closes =
      rw (e, VarName-parse dn (Closes-not_dot b closes)) refl
  Statement-parse {b = b} (define_type (create_type e e' dl)) closes =
      rw (e, e', AnyName-parse dl (Closes-not_dot b closes)) refl
  Statement-parse (select (select_list e dl)) closes = rw (e, OptTargetList-parse dl closes) refl
  Statement-parse (create (create_table e e' dr bracket dl closing dw)) closes =
      rw (e, e', parse_table_complete dr bracket dl closing dw closes) refl
  Statement-parse (lock (lock_tables e t dl dm)) closes =
      rw (e, parse_lock_complete modes t dl dm closes) refl
  Statement-parse (copy (copy_table e dq df dv dx dw dopts)) closes =
      rw (e, parse_copy_complete dq df dv dx dw dopts closes) refl
  Statement-parse (tran (begins e)) closes = rw e refl
  Statement-parse (tran (aborts e)) closes = rw e refl
  Statement-parse (tran (commits e)) closes = rw e refl
  Statement-parse empty (at_end e) = rw e refl
  Statement-parse empty (at_mark e e') = rw e refl

  closed-parse :
      {a b : Input} {s : Stmt M}
      → Statement modes debug a b s
      → Closes b
      → parse_query modes debug a ≡ some s
  unfolding parse_query query_of
  closed-parse {b = b} d closes = rw (Statement-parse d closes, Closes-finished b closes) refl

  -- A query that is derived is read.
  pub Query-parse :
      {a : Input} {s : Stmt M} → Query modes debug a s → parse_query modes debug a ≡ some s
  Query-parse (bare d e) = closed-parse d (at_end e)
  Query-parse (ended d e e') = closed-parse d (at_mark e e')
