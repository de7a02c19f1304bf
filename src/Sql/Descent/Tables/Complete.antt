-- ===== src/Sql/Descent/Tables/Complete.antt =====
-- parser/sql.lalrpop: a CREATE TABLE statement that is derived is read.
use kui_ba_db.Base.{ℕ, ◌<◌, ◌≡◌, refl, arith, Bool, false, none, some, length, List, ◌==◌}
use kui_ba_db.Sql.Syntax.{NumVal, Value, DefElem, RangeVar, TypeName, ColumnDef}
use kui_ba_db.Sql.Grammar.{punct, Input, step, Eats}
use kui_ba_db.Sql.Grammar.Terms.{
  NumericOnly, decimal_const, int_const, big_const, plain, plus, minus, quoted,
}
use kui_ba_db.Sql.Grammar.Tables.{
  QualifiedName, Typename, int_type, smallint_type, with_length, without_length, Column, column,
  OptColumns, columns, no_columns, DefArg, number_arg, text_arg, Reloption, reloption, OptWith,
  with_options, no_options,
}
use kui_ba_db.Sql.Descent.{sequence, after_first, read_integer}
use kui_ba_db.Sql.Descent.Loop.{Eats-size, Eats-not_punctuation}
use kui_ba_db.Sql.Descent.Expressions.{IOrFConst-size}
use kui_ba_db.Sql.Descent.Queries.{parse_name, name_from, or_empty}
use kui_ba_db.Sql.Descent.Queries.Complete.{Ident-less, Ident-parse, Closes, at_end, at_mark}
use kui_ba_db.Sql.Descent.Values.{valued, negated, minus_from, value_from}
use kui_ba_db.Sql.Descent.Values.Complete.{IOrFConst-parse}
use kui_ba_db.Sql.Descent.Tables.{
  continue, mark, comma_list, length_from, varchar_from, type_from, parse_column, arg_from,
  parse_reloption, options_from, table_columns, parse_table,
}
use kui_ba_db.Sql.Descent.Tables.Lists.{Eats-mark, CommaList-parse, QualifiedName-parse}

Eats-not_mark : (c o : ℕ) (a b : Input) → Eats (punct o) a b → (o == c) ≡ false → mark c a ≡ none
unfolding mark
Eats-not_mark c o a b e h = Eats-not_punctuation (λ o. o == c) a b o e h

Typename-parse :
    {a b : Input} {t : TypeName}
    → Typename a b t
    → mark b'(' b ≡ none
    → type_from (step a) ≡ some (t, b)
unfolding type_from varchar_from length_from continue
Typename-parse (int_type e) stop = rw e refl
Typename-parse (smallint_type e) stop = rw e refl
Typename-parse (with_length {b = b} {c = c} {d = d} {e = f} e e' e'' e3) stop =
    rw (e, Eats-mark b'(' b c e', e'', Eats-mark b')' d f e3) refl
Typename-parse (without_length e) stop = rw (e, stop) refl

Typename-less : {a b : Input} {t : TypeName} → Typename a b t → length b.rest < length a.rest
Typename-less (int_type {a = a} {b = b} e) = omega (arith, Eats-size _ a b e)
Typename-less (smallint_type {a = a} {b = b} e) = omega (arith, Eats-size _ a b e)
Typename-less (with_length {a = a} {b = b} {c = c} {d = d} {e = f} e e' e'' e3) =
    omega (arith, Eats-size _ a b e, Eats-size _ b c e', Eats-size _ c d e'', Eats-size _ d f e3)
Typename-less (without_length {a = a} {b = b} e) = omega (arith, Eats-size _ a b e)

Column-parse :
    (a b : Input) (x : ColumnDef) → Column a b x → mark b'(' b ≡ none → parse_column a ≡ some (x, b)
unfolding parse_column continue
Column-parse a b x (column dn dt) stop = rw (Ident-parse dn, Typename-parse dt stop) refl

Column-less : (a b : Input) (x : ColumnDef) → Column a b x → length b.rest < length a.rest
Column-less a b x (column dn dt) = omega (arith, Ident-less dn, Typename-less dt)

OptColumns-parse :
    {a b c : Input} {l : List ColumnDef}
    → OptColumns a b l
    → Eats (punct b')') b c
    → or_empty a (comma_list parse_column a) ≡ (l, b)
unfolding or_empty
OptColumns-parse {b = b} {c = c} (columns d) e =
    rw
      (CommaList-parse parse_column Column (λ b. mark b'(' b ≡ none)
        (λ b c e. Eats-not_mark b'(' b',' b c e refl) Column-less Column-parse d
        (Eats-not_mark b'(' b')' b c e refl)
        (Eats-not_punctuation (λ o. o == b',') b c b')' e refl))
      refl
OptColumns-parse {b = b} no_columns e = rw (no_column b e) refl
  where
    no_column : {c : Input} (b : Input) → Eats (punct b')') b c → comma_list parse_column b ≡ none
    no_column b e =
        unfold comma_list sequence after_first parse_column continue parse_name name_from in
        rw e refl

module _ {debug : Bool} where
  DefArg-parse :
      {a b : Input} {v : Value} → DefArg debug a b v → arg_from debug a (step a) ≡ some (v, b)
  unfolding arg_from continue value_from read_integer valued minus_from negated
  DefArg-parse (text_arg (quoted e)) = rw e refl
  DefArg-parse (number_arg (plain (decimal_const e))) = rw e refl
  DefArg-parse (number_arg (plain (int_const e p))) = rw (e, p) refl
  DefArg-parse (number_arg (plain (big_const e p))) = rw (e, p) refl
  DefArg-parse (number_arg (plus e d)) = rw (e, IOrFConst-parse d) refl
  DefArg-parse (number_arg (minus e d n)) = rw (e, IOrFConst-parse d, n) refl

  pub NumericOnly-less :
      {a b : Input} {v : NumVal} → NumericOnly debug a b v → length b.rest < length a.rest
  NumericOnly-less (plain d) = IOrFConst-size d
  NumericOnly-less (plus {a = a} {b = b} e d) = omega (arith, Eats-size _ a b e, IOrFConst-size d)
  NumericOnly-less (minus {a = a} {b = b} e d n) =
      omega (arith, Eats-size _ a b e, IOrFConst-size d)

  DefArg-less : {a b : Input} {v : Value} → DefArg debug a b v → length b.rest < length a.rest
  DefArg-less (text_arg (quoted {a = a} {b = b} e)) = omega (arith, Eats-size _ a b e)
  DefArg-less (number_arg d) = NumericOnly-less d

  Reloption-parse :
      (a b : Input) (x : DefElem) → Reloption debug a b x → parse_reloption debug a ≡ some (x, b)
  unfolding parse_reloption continue
  Reloption-parse a b x (reloption {b = c} {c = d} dn e dv) =
      rw (Ident-parse dn, Eats-mark b'=' c d e, DefArg-parse dv) refl

  Reloption-less :
      (a b : Input) (x : DefElem) → Reloption debug a b x → length b.rest < length a.rest
  Reloption-less a b x (reloption {b = c} {c = d} dn e dv) =
      omega (arith, Ident-less dn, Eats-size _ c d e, DefArg-less dv)

  OptWith-parse :
      {a b : Input} {l : List DefElem}
      → OptWith debug a b l
      → Closes b
      → options_from debug a (step a) ≡ some (l, b)
  unfolding options_from continue
  OptWith-parse (with_options {b = b} {c = c} {d = d} {e = f} e e' dl e'') closes =
      rw
        (
          e,
          Eats-mark b'(' b c e',
          CommaList-parse (parse_reloption debug) (Reloption debug) (λ b. Unit {0}) (λ b c e. tt)
              Reloption-less (λ a b x d u. Reloption-parse a b x d) dl tt
              (Eats-not_punctuation (λ o. o == b',') d f b')' e'' refl),
          Eats-mark b')' d f e'',
        )
        refl
  OptWith-parse no_options (at_end e) = rw e refl
  OptWith-parse no_options (at_mark e e') = rw e refl

  pub parse_table_complete :
      {a b c d e f : Input} {r : RangeVar} {l : List ColumnDef} {o : List DefElem}
      → QualifiedName a b r
      → Eats (punct b'(') b c
      → OptColumns c d l
      → Eats (punct b')') d e
      → OptWith debug e f o
      → Closes f
      → parse_table debug a ≡ some (record { relation = r; table_elts = l; opts = o }, f)
  unfolding parse_table table_columns continue
  parse_table_complete {a} {b} {c} {d} {e} {r = r} dr bracket dl closing dw closes =
      rw
        (
          QualifiedName-parse a b r dr,
          Eats-mark b'(' b c bracket,
          OptColumns-parse dl closing,
          Eats-mark b')' d e closing,
          OptWith-parse dw closes,
        )
        refl
