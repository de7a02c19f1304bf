-- ===== src/Sql/Descent/Copies/Complete.antt =====
-- parser/sql.lalrpop: a COPY statement that is derived is read.
use kui_ba_db.Base.{◌<◌, ◌≡◌, refl, length, arith, Bool, Option, none, some, List, ◌==◌}
use kui_ba_db.Sql.Syntax.{StrVal, Value, DefElem, RangeVar}
use kui_ba_db.Sql.Grammar.{Keyword, Input, step}
use kui_ba_db.Sql.Grammar.Terms.{Sconst, quoted}
use kui_ba_db.Sql.Grammar.Tables.{QualifiedName}
use kui_ba_db.Sql.Grammar.Values.{text_value, number_value, true_value, false_value, string_value}
use kui_ba_db.Sql.Descent.Actions.{with_delimiter-push_delimiter}
use kui_ba_db.Sql.Grammar.Copies.{
  CopyFrom, OptWord, word, no_word, CopyDelimiter, delimiter, no_delimiter, GenericArg,
  text_generic, number_generic, GenericOpt, generic_opt, CopyOptions, plain_options,
  generic_options, push_delimiter,
}
use kui_ba_db.Sql.Descent.Loop.{Eats-size, Eats-not_punctuation}
use kui_ba_db.Sql.Descent.Queries.{behind}
use kui_ba_db.Sql.Descent.Queries.Complete.{Ident-less, Ident-parse, Closes}
use kui_ba_db.Sql.Descent.Values.Complete.{VarValue-parse}
use kui_ba_db.Sql.Descent.Tables.{continue, mark}
use kui_ba_db.Sql.Descent.Tables.Lists.{Eats-mark, CommaList-parse, QualifiedName-parse}
use kui_ba_db.Sql.Descent.Tables.Complete.{NumericOnly-less}
use kui_ba_db.Sql.Descent.Copies.{
  is_with, or_here, skip_word, text_from, delimited, delimiters_from, delimiter_from, parse_generic,
  options_behind, parse_copy,
}
use kui_ba_db.Sql.Descent.Copies.Items.{
  Sconst-parse, CopyFrom-parse, CopyOptList-Items, Items-end, Closes-no_item, Closes-Plain,
  CopyOptList-Plain, Undelimited,
}

module _ {debug : Bool} where
  CopyOptions-Undelimited :
      {a b : Input} {l : List DefElem} → CopyOptions debug a b l → Closes b → Undelimited a
  unfolding delimiter_from behind
  CopyOptions-Undelimited {b = b} (plain_options d) closes =
      (CopyOptList-Plain d (Closes-Plain b closes)).0
  CopyOptions-Undelimited (generic_options e d e') closes = (rw e refl, rw e refl)

  with-Undelimited :
      {a b c : Input} {l : List DefElem}
      → OptWord Keyword.with_p a b
      → CopyOptions debug b c l
      → Closes c
      → delimiter_from a (step a) ≡ some (none, a)
  unfolding delimiter_from
  with-Undelimited (word e) d closes = rw e refl
  with-Undelimited no_word d closes = (CopyOptions-Undelimited d closes).0

  with-skip :
      {a b c : Input} {l : List DefElem}
      → OptWord Keyword.with_p a b
      → CopyOptions debug b c l
      → Closes c
      → skip_word is_with a ≡ b
  unfolding skip_word or_here behind is_with
  with-skip (word e) d closes = rw e refl
  with-skip no_word d closes = rw (CopyOptions-Undelimited d closes).1 refl

  CopyDelimiter-parse :
      {a b c d : Input} {x : Option DefElem} {l : List DefElem}
      → CopyDelimiter a b x
      → OptWord Keyword.with_p b c
      → CopyOptions debug c d l
      → Closes d
      → delimiter_from a (step a) ≡ some (x, b)
  unfolding delimiter_from delimiters_from delimited continue text_from
  CopyDelimiter-parse (delimiter (word e) e' (quoted e'')) w o closes = rw (e, e', e'') refl
  CopyDelimiter-parse (delimiter no_word e (quoted e')) w o closes = rw (e, e') refl
  CopyDelimiter-parse no_delimiter w o closes = with-Undelimited w o closes

  GenericOpt-parse :
      (a b : Input) (x : DefElem) → GenericOpt debug a b x → parse_generic debug a ≡ some (x, b)
  unfolding parse_generic continue
  GenericOpt-parse a b x (generic_opt dn (text_generic d)) =
      rw (Ident-parse dn, VarValue-parse {debug = debug} (text_value d)) refl
  GenericOpt-parse a b x (generic_opt dn (number_generic d)) =
      rw (Ident-parse dn, VarValue-parse (number_value d)) refl

  GenericArg-less :
      {a b : Input} {v : Value} → GenericArg debug a b v → length b.rest < length a.rest
  GenericArg-less (text_generic (true_value {a = a} {b = b} e)) = omega (arith, Eats-size _ a b e)
  GenericArg-less (text_generic (false_value {a = a} {b = b} e)) = omega (arith, Eats-size _ a b e)
  GenericArg-less (text_generic (string_value (quoted {a = a} {b = b} e))) =
      omega (arith, Eats-size _ a b e)
  GenericArg-less (number_generic d) = NumericOnly-less d

  GenericOpt-less :
      (a b : Input) (x : DefElem) → GenericOpt debug a b x → length b.rest < length a.rest
  GenericOpt-less a b x (generic_opt dn d) = omega (arith, Ident-less dn, GenericArg-less d)

  CopyOptions-parse :
      {a b : Input} {l : List DefElem}
      → CopyOptions debug a b l
      → Closes b
      → options_behind debug a (mark b'(' a) ≡ some (l, b)
  unfolding options_behind continue
  CopyOptions-parse {a} {b} {l} (plain_options d) closes =
      rw (CopyOptList-Plain d (Closes-Plain b closes)).1
        (Items-end a b l (CopyOptList-Items d) (Closes-no_item b closes))
  CopyOptions-parse (generic_options {a = a} {b = b} {c = c} {d = d} e dl e') closes =
      rw
        (
          Eats-mark b'(' a b e,
          CommaList-parse (parse_generic debug) (GenericOpt debug) (λ b. Unit {0}) (λ b c e. tt)
              GenericOpt-less (λ a b x d u. GenericOpt-parse a b x d) dl tt
              (Eats-not_punctuation (λ o. o == b',') c d b')' e' refl),
          Eats-mark b')' c d e',
        )
        refl

  -- A COPY statement that is derived is read.
  pub parse_copy_complete :
      {a b c d e f g : Input} {q : RangeVar} {from : Bool} {v : StrVal} {x : Option DefElem}
      {o : List DefElem}
      → QualifiedName a b q
      → CopyFrom b c from
      → Sconst c d v
      → CopyDelimiter d e x
      → OptWord Keyword.with_p e f
      → CopyOptions debug f g o
      → Closes g
      → parse_copy debug a
        ≡ some (record { rel = q; from = from; filename = v; opts = push_delimiter o x }, g)
  unfolding parse_copy continue
  parse_copy_complete {a} {b} {q = q} {x = x} {o = o} dq df dv dx dw dopts closes =
      rw
        (
          QualifiedName-parse a b q dq,
          CopyFrom-parse df,
          Sconst-parse dv,
          CopyDelimiter-parse dx dw dopts closes,
          with-skip dw dopts closes,
          CopyOptions-parse dopts closes,
          with_delimiter-push_delimiter o x,
        )
        refl
