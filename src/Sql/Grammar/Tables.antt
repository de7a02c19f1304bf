-- ===== src/Sql/Grammar/Tables.antt =====
-- parser/sql.lalrpop: the productions of CREATE TABLE and LOCK.
use kui_ba_db.Base.{List, [], ◌∷◌, ◌++◌, Bytes, Bool, none}
use kui_ba_db.Base.Text.{codes}
use kui_ba_db.Sql.Syntax.{
  StrVal, NumVal, Value, num, str, DefElem, make_def_elem, RangeVar, TypeName, system_type_name,
  ColumnDef, CreateTableStmt, LockStmt,
}
use kui_ba_db.Sql.Grammar.{Keyword, keyword, integer, punct, Input, Eats}
use kui_ba_db.Sql.Grammar.Terms.{NumericOnly, Sconst, Ident}

-- TableElementList, reloption_list and relation_expr_list, which differ in their items.
pub data CommaList {I : Type 0} (Item : Input → Input → I → Type 0)
    : Input → Input → List I → Type 0 where
  first_item : {a b : Input} {x : I} → Item a b x → CommaList Item a b (x ∷ [])
  more_items :
      {a b c d : Input} {l : List I} {x : I}
      → CommaList Item a b l
      → Eats (punct b',') b c
      → Item c d x
      → CommaList Item a d (l ++ x ∷ [])

-- qualified_name and relation_expr.
abbrev pub relation_named : StrVal → RangeVar
relation_named n = record { schemaname = none; relname = n; alias = none }

pub data QualifiedName : Input → Input → RangeVar → Type 0 where
  relation : {a b : Input} {n : StrVal} → Ident a b n → QualifiedName a b (relation_named n)

abbrev pub varchar_of : Bytes → TypeName
varchar_of i = record (system_type_name (codes "varchar")) {
  typmods = (system_type_name (codes "varchar")).typmods ++ i ∷ [];
}

-- Typename, SimpleTypename, Numeric and Character.
pub data Typename : Input → Input → TypeName → Type 0 where
  int_type :
      {a b : Input}
      → Eats (keyword Keyword.int_p) a b
      → Typename a b (system_type_name (codes "int4"))
  smallint_type :
      {a b : Input}
      → Eats (keyword Keyword.smallint) a b
      → Typename a b (system_type_name (codes "int2"))
  with_length :
      {a b c d e : Input} {i : Bytes}
      → Eats (keyword Keyword.varchar) a b
      → Eats (punct b'(') b c
      → Eats (integer i) c d
      → Eats (punct b')') d e
      → Typename a e (varchar_of i)
  without_length :
      {a b : Input}
      → Eats (keyword Keyword.varchar) a b
      → Typename a b (system_type_name (codes "varchar"))

-- columnDef and TableElement.
pub data Column : Input → Input → ColumnDef → Type 0 where
  column :
      {a b c : Input} {n : StrVal} {t : TypeName}
      → Ident a b n
      → Typename b c t
      → Column a c (record { colname = n; typename = t })

pub data OptColumns : Input → Input → List ColumnDef → Type 0 where
  columns : {a b : Input} {l : List ColumnDef} → CommaList Column a b l → OptColumns a b l
  no_columns : {a : Input} → OptColumns a a []

pub data DefArg (debug : Bool) : Input → Input → Value → Type 0 where
  number_arg : {a b : Input} {v : NumVal} → NumericOnly debug a b v → DefArg debug a b (num v)
  text_arg : {a b : Input} {v : StrVal} → Sconst a b v → DefArg debug a b (str v)

pub data Reloption (debug : Bool) : Input → Input → DefElem → Type 0 where
  reloption :
      {a b c d : Input} {n : StrVal} {v : Value}
      → Ident a b n
      → Eats (punct b'=') b c
      → DefArg debug c d v
      → Reloption debug a d (make_def_elem n v)

-- OptWith and reloptions.
pub data OptWith (debug : Bool) : Input → Input → List DefElem → Type 0 where
  with_options :
      {a b c d e : Input} {l : List DefElem}
      → Eats (keyword Keyword.with_p) a b
      → Eats (punct b'(') b c
      → CommaList (Reloption debug) c d l
      → Eats (punct b')') d e
      → OptWith debug a e l
  no_options : {a : Input} → OptWith debug a a []

pub data CreateTable (debug : Bool) : Input → Input → CreateTableStmt → Type 0 where
  create_table :
      {a b c d e f g h : Input} {r : RangeVar} {l : List ColumnDef} {o : List DefElem}
      → Eats (keyword Keyword.create) a b
      → Eats (keyword Keyword.table) b c
      → QualifiedName c d r
      → Eats (punct b'(') d e
      → OptColumns e f l
      → Eats (punct b')') f g
      → OptWith debug g h o
      → CreateTable debug a h (record { relation = r; table_elts = l; opts = o })

-- `LockMode` is declared outside of the repository; these are its items that the grammar names.
pub record Modes (M : Type 0) : Type 0 where
  pub access_share : M
  pub row_share : M
  pub row_exclusive : M
  pub share_update_exclusive : M
  pub share : M
  pub share_row_exclusive : M
  pub exclusive : M
  pub access_exclusive : M

pub data OptTable : Input → Input → Type 0 where
  table_word : {a b : Input} → Eats (keyword Keyword.table) a b → OptTable a b
  no_table_word : {a : Input} → OptTable a a

module _ {M : Type 0} (modes : Modes M) where
  pub data LockType : Input → Input → M → Type 0 where
    lock_access_share :
        {a b c : Input}
        → Eats (keyword Keyword.access) a b
        → Eats (keyword Keyword.share) b c
        → LockType a c modes.access_share
    lock_row_share :
        {a b c : Input}
        → Eats (keyword Keyword.row) a b
        → Eats (keyword Keyword.share) b c
        → LockType a c modes.row_share
    lock_row_exclusive :
        {a b c : Input}
        → Eats (keyword Keyword.row) a b
        → Eats (keyword Keyword.exclusive) b c
        → LockType a c modes.row_exclusive
    lock_share_update_exclusive :
        {a b c d : Input}
        → Eats (keyword Keyword.share) a b
        → Eats (keyword Keyword.update) b c
        → Eats (keyword Keyword.exclusive) c d
        → LockType a d modes.share_update_exclusive
    lock_share : {a b : Input} → Eats (keyword Keyword.share) a b → LockType a b modes.share
    lock_share_row_exclusive :
        {a b c d : Input}
        → Eats (keyword Keyword.share) a b
        → Eats (keyword Keyword.row) b c
        → Eats (keyword Keyword.exclusive) c d
        → LockType a d modes.share_row_exclusive
    lock_exclusive :
        {a b : Input} → Eats (keyword Keyword.exclusive) a b → LockType a b modes.exclusive
    lock_access_exclusive :
        {a b c : Input}
        → Eats (keyword Keyword.access) a b
        → Eats (keyword Keyword.exclusive) b c
        → LockType a c modes.access_exclusive

  pub data OptLock : Input → Input → M → Type 0 where
    in_mode :
        {a b c d : Input} {m : M}
        → Eats (keyword Keyword.in_p) a b
        → LockType b c m
        → Eats (keyword Keyword.mode_p) c d
        → OptLock a d m
    default_mode : {a : Input} → OptLock a a modes.access_exclusive

  pub data Lock : Input → Input → LockStmt M → Type 0 where
    lock_tables :
        {a b c d e : Input} {l : List RangeVar} {m : M}
        → Eats (keyword Keyword.lock_p) a b
        → OptTable b c
        → CommaList QualifiedName c d l
        → OptLock d e m
        → Lock a e (record { rels = l; mode = m })
