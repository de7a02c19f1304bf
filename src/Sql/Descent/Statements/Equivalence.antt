-- ===== src/Sql/Descent/Statements/Equivalence.antt =====
-- parser/sql.lalrpop: the recursive descent against the derivations of a query.
use kui_ba_db.Base.{ℕ, List, Bool, ◌≡◌, some}
use mathlib.Core.Logic.{◌↔◌}
use kui_ba_db.Sql.Syntax.{Stmt}
use kui_ba_db.Sql.Grammar.{Input, Spanned}
use kui_ba_db.Sql.Grammar.Tables.{Modes}
use kui_ba_db.Sql.Grammar.Statements.{Query}
use kui_ba_db.Sql.Descent.Statements.{parse_query}
use kui_ba_db.Sql.Descent.Equivalence.{Placed, placed}
use kui_ba_db.Sql.Descent.Statements.Sound.{parse_query_sound}
use kui_ba_db.Sql.Descent.Statements.Complete.{Query-parse}

-- The recursive descent reads a query as a statement exactly where the grammar derives the
-- statement from the whole query: with the operators, their grouping and the places of the
-- derivation. A place begins where the first token that is left starts or, when none is left, where
-- the last one ended; and it ends where the last token that was taken ends.
pub parse_query_iff :
    {LockMode : Type 0} (modes : Modes LockMode) (debug : Bool) (a : Input) (s : Stmt LockMode)
    (n : ℕ) (t : Spanned) (ts : List Spanned)
    → ((parse_query modes debug a ≡ some s) ↔ Query modes debug a s) × Placed n t ts
parse_query_iff modes debug a s n t ts =
    ((parse_query_sound modes debug a s, Query-parse), placed n t ts)
