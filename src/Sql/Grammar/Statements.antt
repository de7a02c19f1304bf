-- ===== src/Sql/Grammar/Statements.antt =====
-- parser/sql.lalrpop: the productions of the statements: SET, SHOW, CREATE TYPE, SELECT and the
-- transaction statements, and stmt.
use kui_ba_db.Base.{List, [], ◌∷◌, ◌++◌, Bool, none, ◌≡◌}
use kui_ba_db.Sql.Syntax.{
  StrVal, AConst, VariableSetStmt, VariableShowStmt, TranStmt, DefineTypeStmt, SelectStmt,
  CreateTableStmt, LockStmt, CopyStmt, Stmt,
}
use kui_ba_db.Sql.Grammar.{Keyword, keyword, punct, Input, step, Eats}
use kui_ba_db.Sql.Grammar.Values.{VarName, VarValue}
use kui_ba_db.Sql.Grammar.Copies.{Copy}
use kui_ba_db.Sql.Grammar.Tables.{CreateTable, Modes, Lock}
use kui_ba_db.Sql.Grammar.Terms.{Ident, Select}

-- VariableSetStmt, set_rest, set_rest_more and generic_set; the mark is TO or `=`.
pub data VariableSet (debug : Bool) : Input → Input → VariableSetStmt → Type 0 where
  set_to :
      {a b c d e : Input} {n : StrVal} {v : AConst}
      → Eats (keyword Keyword.set) a b
      → VarName b c n
      → Eats (keyword Keyword.to) c d
      → VarValue debug d e v
      → VariableSet debug a e (record { name = n; val = v })
  set_equal :
      {a b c d e : Input} {n : StrVal} {v : AConst}
      → Eats (keyword Keyword.set) a b
      → VarName b c n
      → Eats (punct b'=') c d
      → VarValue debug d e v
      → VariableSet debug a e (record { name = n; val = v })

pub data VariableShow : Input → Input → VariableShowStmt → Type 0 where
  show_name :
      {a b c : Input} {n : StrVal}
      → Eats (keyword Keyword.show) a b
      → VarName b c n
      → VariableShow a c (record { name = n })

pub data Tran : Input → Input → TranStmt → Type 0 where
  begins : {a b : Input} → Eats (keyword Keyword.begin_p) a b → Tran a b TranStmt.begin
  aborts : {a b : Input} → Eats (keyword Keyword.abort_p) a b → Tran a b TranStmt.abort
  commits : {a b : Input} → Eats (keyword Keyword.commit_p) a b → Tran a b TranStmt.commit

pub data Attrs : Input → Input → List StrVal → Type 0 where
  first_attr :
      {a b c : Input} {v : StrVal} → Eats (punct b'.') a b → Ident b c v → Attrs a c (v ∷ [])
  more_attrs :
      {a b c d : Input} {l : List StrVal} {v : StrVal}
      → Attrs a b l
      → Eats (punct b'.') b c
      → Ident c d v
      → Attrs a d (l ++ v ∷ [])

pub data AnyName : Input → Input → List StrVal → Type 0 where
  simple : {a b : Input} {n : StrVal} → Ident a b n → AnyName a b (n ∷ [])
  qualified :
      {a b c : Input} {n : StrVal} {l : List StrVal}
      → Ident a b n
      → Attrs b c l
      → AnyName a c (n ∷ l)

pub data DefineType : Input → Input → DefineTypeStmt → Type 0 where
  create_type :
      {a b c d : Input} {l : List StrVal}
      → Eats (keyword Keyword.create) a b
      → Eats (keyword Keyword.type_p) b c
      → AnyName c d l
      → DefineType a d (record { defnames = l; definition = [] })

module _ {LockMode : Type 0} (modes : Modes LockMode) (debug : Bool) where
  pub data Statement : Input → Input → Stmt LockMode → Type 0 where
    variable_set :
        {a b : Input} {s : VariableSetStmt}
        → VariableSet debug a b s
        → Statement a b (Stmt.variable_set s)
    variable_show :
        {a b : Input} {s : VariableShowStmt}
        → VariableShow a b s
        → Statement a b (Stmt.variable_show s)
    define_type :
        {a b : Input} {s : DefineTypeStmt} → DefineType a b s → Statement a b (Stmt.define_type s)
    select : {a b : Input} {s : SelectStmt} → Select a b s → Statement a b (Stmt.select s)
    tran : {a b : Input} {s : TranStmt} → Tran a b s → Statement a b (Stmt.tran s)
    create :
        {a b : Input} {s : CreateTableStmt}
        → CreateTable debug a b s
        → Statement a b (Stmt.create_table s)
    copy : {a b : Input} {s : CopyStmt} → Copy debug a b s → Statement a b (Stmt.copy s)
    lock : {a b : Input} {s : LockStmt LockMode} → Lock modes a b s → Statement a b (Stmt.lock s)
    empty : {a : Input} → Statement a a Stmt.empty

  -- Stmt: the whole query, with or without `;`.
  pub data Query : Input → Stmt LockMode → Type 0 where
    bare : {a b : Input} {s : Stmt LockMode} → Statement a b s → step b ≡ none → Query a s
    ended :
        {a b c : Input} {s : Stmt LockMode}
        → Statement a b s
        → Eats (punct b';') b c
        → step c ≡ none
        → Query a s
