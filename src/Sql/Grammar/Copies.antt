-- ===== src/Sql/Grammar/Copies.antt =====
-- parser/sql.lalrpop: the productions of COPY.
use kui_ba_db.Base.{List, [], ◌∷◌, ◌++◌, Bool, true, false, Option, none, some}
use kui_ba_db.Base.Text.{codes}
use kui_ba_db.Sql.Syntax.{
  StrVal, in_place, NumVal, Value, num, str, DefElem, make_def_elem, RangeVar, CopyStmt,
}
use kui_ba_db.Sql.Grammar.{Keyword, keyword, punct, Input, Eats}
use kui_ba_db.Sql.Grammar.Terms.{NumericOnly, Sconst, Ident}
use kui_ba_db.Sql.Grammar.Values.{OptBooleanOrString}
use kui_ba_db.Sql.Grammar.Tables.{CommaList, QualifiedName}

pub data CopyFrom : Input → Input → Bool → Type 0 where
  copy_from : {a b : Input} → Eats (keyword Keyword.from) a b → CopyFrom a b true
  copy_to : {a b : Input} → Eats (keyword Keyword.to) a b → CopyFrom a b false

-- opt_using, opt_with and opt_as.
pub data OptWord (k : Keyword) : Input → Input → Type 0 where
  word : {a b : Input} → Eats (keyword k) a b → OptWord k a b
  no_word : {a : Input} → OptWord k a a

abbrev pub delimiter_of : StrVal → DefElem
delimiter_of v = make_def_elem (in_place (codes "delimiter")) (str v)

pub data CopyDelimiter : Input → Input → Option DefElem → Type 0 where
  delimiter :
      {a b c d : Input} {v : StrVal}
      → OptWord Keyword.using a b
      → Eats (keyword Keyword.delimiters) b c
      → Sconst c d v
      → CopyDelimiter a d (some (delimiter_of v))
  no_delimiter : {a : Input} → CopyDelimiter a a none

abbrev pub null_of : StrVal → DefElem
null_of v = make_def_elem (in_place (codes "null")) (str v)

abbrev pub csv_format : DefElem
csv_format = make_def_elem (in_place (codes "format")) (str (in_place (codes "csv")))

pub data CopyOptItem : Input → Input → DefElem → Type 0 where
  null_item :
      {a b c d : Input} {v : StrVal}
      → Eats (keyword Keyword.null_p) a b
      → OptWord Keyword.as_p b c
      → Sconst c d v
      → CopyOptItem a d (null_of v)
  csv_item : {a b : Input} → Eats (keyword Keyword.csv) a b → CopyOptItem a b csv_format

pub data CopyOptList : Input → Input → List DefElem → Type 0 where
  more_opts :
      {a b c : Input} {l : List DefElem} {x : DefElem}
      → CopyOptList a b l
      → CopyOptItem b c x
      → CopyOptList a c (l ++ x ∷ [])
  no_opts : {a : Input} → CopyOptList a a []

pub data GenericArg (debug : Bool) : Input → Input → Value → Type 0 where
  text_generic :
      {a b : Input} {v : StrVal} → OptBooleanOrString a b v → GenericArg debug a b (str v)
  number_generic :
      {a b : Input} {v : NumVal} → NumericOnly debug a b v → GenericArg debug a b (num v)

pub data GenericOpt (debug : Bool) : Input → Input → DefElem → Type 0 where
  generic_opt :
      {a b c : Input} {n : StrVal} {v : Value}
      → Ident a b n
      → GenericArg debug b c v
      → GenericOpt debug a c (make_def_elem n v)

pub data CopyOptions (debug : Bool) : Input → Input → List DefElem → Type 0 where
  plain_options : {a b : Input} {l : List DefElem} → CopyOptList a b l → CopyOptions debug a b l
  generic_options :
      {a b c d : Input} {l : List DefElem}
      → Eats (punct b'(') a b
      → CommaList (GenericOpt debug) b c l
      → Eats (punct b')') c d
      → CopyOptions debug a d l

-- `if let Some(delopt) = d { o.push(delopt); }`
unfoldable pub push_delimiter : List DefElem → Option DefElem → List DefElem
push_delimiter o none = o
push_delimiter o (some x) = o ++ x ∷ []

pub data Copy (debug : Bool) : Input → Input → CopyStmt → Type 0 where
  copy_table :
      {a b c d e f g h : Input} {q : RangeVar} {from : Bool} {v : StrVal} {x : Option DefElem}
      {o : List DefElem}
      → Eats (keyword Keyword.copy) a b
      → QualifiedName b c q
      → CopyFrom c d from
      → Sconst d e v
      → CopyDelimiter e f x
      → OptWord Keyword.with_p f g
      → CopyOptions debug g h o
      → Copy debug a h (record { rel = q; from = from; filename = v; opts = push_delimiter o x })
