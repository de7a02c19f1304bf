-- ===== src/Sql/Descent/Tables/Create.antt =====
-- parser/sql.lalrpop: what is read as a CREATE TABLE statement is derived.
use kui_ba_db.Base.{ℕ, ◌≡◌, refl, Bool, true, false, Option, none, some, List, []}
use kui_ba_db.Sql.Syntax.{
  Value, AConst, DefElem, make_def_elem, RangeVar, TypeName, ColumnDef, CreateTableStmt,
}
use kui_ba_db.Sql.Grammar.{Keyword, Token, keyword, integer, punct, Input, step, Eats}
use kui_ba_db.Sql.Grammar.Values.{
  true_value, false_value, string_value, VarValue, text_value, number_value,
}
use kui_ba_db.Sql.Grammar.Tables.{
  QualifiedName, varchar_of, Typename, int_type, smallint_type, with_length, without_length, Column,
  column, OptColumns, columns, no_columns, DefArg, number_arg, text_arg, Reloption, reloption,
  OptWith, with_options, no_options, CreateTable, create_table,
}
use kui_ba_db.Sql.Descent.Expressions.Sound.{returned}
use kui_ba_db.Sql.Descent.Queries.{parse_name, or_empty}
use kui_ba_db.Sql.Descent.Queries.Sound.{parse_name_sound}
use kui_ba_db.Sql.Descent.Values.{value_from}
use kui_ba_db.Sql.Descent.Values.Sound.{value_from_sound}
use kui_ba_db.Sql.Descent.Tables.{
  continue, mark, comma_list, parse_relation, length_from, varchar_from, type_from, parse_column,
  arg_from, parse_reloption, options_from, table_columns, parse_table,
}
use kui_ba_db.Sql.Descent.Tables.Lists.{
  continue_cases, mark-Eats, comma_list_sound, parse_relation_sound,
}

length_from_sound :
    (a b c d : Input) (t : TypeName) (r : Option (Token × Input))
    → Eats (keyword Keyword.varchar) a b
    → Eats (punct b'(') b c
    → step c ≡ r
    → length_from r ≡ some (t, d)
    → Typename a d t
unfolding length_from
length_from_sound a b c d t (some (integer i, c')) e e' at h =
    let (o, d', got, rest) = continue_cases (mark b')' c') (λ o c. some (varchar_of i, c)) t d h in
    returned (Typename a) (varchar_of i) t d d' rest
      (with_length e e' at (mark-Eats b')' o c' d' got))
length_from_sound a b c d t _ e e' at h = cc

varchar_from_sound :
    (a b d : Input) (t : TypeName) (r : Option (ℕ × Input))
    → Eats (keyword Keyword.varchar) a b
    → mark b'(' b ≡ r
    → varchar_from b r ≡ some (t, d)
    → Typename a d t
unfolding varchar_from
varchar_from_sound a b d t none e at h = returned (Typename a) _ t d b h (without_length e)
varchar_from_sound a b d t (some (o, c)) e at h =
    length_from_sound a b c d t (step c) e (mark-Eats b'(' o b c at) refl h

type_from_sound :
    (a b : Input) (t : TypeName) (r : Option (Token × Input))
    → step a ≡ r
    → type_from r ≡ some (t, b)
    → Typename a b t
unfolding type_from
type_from_sound a b t (some (keyword Keyword.int_p, c)) at h =
    returned (Typename a) _ t b c h (int_type at)
type_from_sound a b t (some (keyword Keyword.smallint, c)) at h =
    returned (Typename a) _ t b c h (smallint_type at)
type_from_sound a b t (some (keyword Keyword.varchar, c)) at h =
    varchar_from_sound a c b t (mark b'(' c) at refl h
type_from_sound a b t _ at h = cc

parse_column_sound : (a b : Input) (x : ColumnDef) → parse_column a ≡ some (x, b) → Column a b x
unfolding parse_column
parse_column_sound a b x h =
    let (n, c, got, rest) =
      continue_cases (parse_name a)
        (λ n b.
          continue (type_from (step b)) (λ t c. some (record { colname = n; typename = t }, c)))
        x b h in
    let (t, d, got', rest') =
      continue_cases (type_from (step c)) (λ t c. some (record { colname = n; typename = t }, c)) x
        b rest in
    returned (Column a) (record { colname = n; typename = t }) x b d rest'
      (column (parse_name_sound a c n got) (type_from_sound c d t (step c) refl got'))

is_keyword : Option (Token × Input) → Bool
is_keyword (some (keyword k, b)) = true
is_keyword _ = false

module _ (debug : Bool) where
  VarValue-DefArg :
      {a b : Input} {x : AConst}
      → VarValue debug a b x
      → is_keyword (step a) ≡ false
      → DefArg debug a b x.val
  unfolding is_keyword
  VarValue-DefArg (text_value (true_value e)) h = let h' = rw e at h in cc
  VarValue-DefArg (text_value (false_value e)) h = let h' = rw e at h in cc
  VarValue-DefArg (text_value (string_value d)) h = text_arg d
  VarValue-DefArg (number_value d) h = number_arg d

  value_arg_sound :
      (a b : Input) (v : Value) (r : Option (Token × Input))
      → step a ≡ r
      → is_keyword r ≡ false
      → continue (value_from debug a r) (λ x b. some (x.val, b)) ≡ some (v, b)
      → DefArg debug a b v
  value_arg_sound a b v r at no_keyword h =
      let (x, c, got, rest) =
        continue_cases (value_from debug a r) (λ x b. some (x.val, b)) v b h in
      returned (DefArg debug a) x.val v b c rest
        (VarValue-DefArg (value_from_sound debug a c x r at got) (rw at no_keyword))

  arg_from_sound :
      (a b : Input) (v : Value) (r : Option (Token × Input))
      → step a ≡ r
      → arg_from debug a r ≡ some (v, b)
      → DefArg debug a b v
  unfolding arg_from is_keyword
  arg_from_sound a b v (some (keyword k, c)) at h = cc
  arg_from_sound a b v r at h = value_arg_sound a b v r at refl h

  parse_reloption_sound :
      (a b : Input) (x : DefElem) → parse_reloption debug a ≡ some (x, b) → Reloption debug a b x
  unfolding parse_reloption
  parse_reloption_sound a b x h =
      let (n, c, got, rest) =
        continue_cases (parse_name a)
          (λ n b.
            continue (mark b'=' b)
              (λ o c. continue (arg_from debug c (step c)) (λ v d. some (make_def_elem n v, d))))
          x b h in
      let (o, d, got', rest') =
        continue_cases (mark b'=' c)
          (λ o c. continue (arg_from debug c (step c)) (λ v d. some (make_def_elem n v, d))) x b
          rest in
      let (v, f, got'', rest'') =
        continue_cases (arg_from debug d (step d)) (λ v d. some (make_def_elem n v, d)) x b rest' in
      returned (Reloption debug a) (make_def_elem n v) x b f rest'' (
        reloption (parse_name_sound a c n got) (mark-Eats b'=' o c d got')
          (arg_from_sound d f v (step d) refl got''))

  options_from_sound :
      (a b : Input) (l : List DefElem) (r : Option (Token × Input))
      → step a ≡ r
      → options_from debug a r ≡ some (l, b)
      → OptWith debug a b l
  unfolding options_from
  options_from_sound a b l (some (keyword Keyword.with_p, c)) at h =
      let (o, d, got, rest) =
        continue_cases (mark b'(' c)
          (λ o c.
            continue (comma_list (parse_reloption debug) c)
              (λ l d. continue (mark b')' d) (λ o e. some (l, e))))
          l b h in
      let (l', f, got', rest') =
        continue_cases (comma_list (parse_reloption debug) d)
          (λ l d. continue (mark b')' d) (λ o e. some (l, e))) l b rest in
      let (o', g, got'', rest'') = continue_cases (mark b')' f) (λ o e. some (l', e)) l b rest' in
      returned (OptWith debug a) l' l b g rest'' (
        with_options at (mark-Eats b'(' o c d got)
          (comma_list_sound (parse_reloption debug) (Reloption debug) parse_reloption_sound d f l'
            got')
          (mark-Eats b')' o' f g got''))
  options_from_sound a b l _ at h = returned (OptWith debug a) [] l b a h no_options

or_empty-OptColumns :
    (a : Input) (r : Option (List ColumnDef × Input))
    → comma_list parse_column a ≡ r
    → OptColumns a (or_empty a r).1 (or_empty a r).0
unfolding or_empty
or_empty-OptColumns a none at = no_columns
or_empty-OptColumns a (some (l, b)) at =
    columns (comma_list_sound parse_column Column parse_column_sound a b l at)

module _ (debug : Bool) where
  table_columns_sound :
      (a b c d e f h : Input) (r : RangeVar) (l : List ColumnDef) (s : CreateTableStmt)
      → Eats (keyword Keyword.create) a b
      → Eats (keyword Keyword.table) b c
      → QualifiedName c d r
      → Eats (punct b'(') d e
      → OptColumns e f l
      → table_columns debug r (l, f) ≡ some (s, h)
      → CreateTable debug a h s
  unfolding table_columns
  table_columns_sound a b c d e f h r l s word table name bracket list eq =
      let (o, g, got, rest) =
        continue_cases (mark b')' f)
          (λ o b.
            continue (options_from debug b (step b))
              (λ w c. some (record { relation = r; table_elts = l; opts = w }, c)))
          s h eq in
      let (w, k, got', rest') =
        continue_cases (options_from debug g (step g))
          (λ w c. some (record { relation = r; table_elts = l; opts = w }, c)) s h rest in
      returned (CreateTable debug a) (record { relation = r; table_elts = l; opts = w }) s h k rest'
        (create_table word table name bracket list (mark-Eats b')' o f g got)
          (options_from_sound debug g k w (step g) refl got'))

  -- A CREATE TABLE statement that the descent reads is derived.
  pub parse_table_sound :
      (a b c d : Input) (s : CreateTableStmt)
      → Eats (keyword Keyword.create) a b
      → Eats (keyword Keyword.table) b c
      → parse_table debug c ≡ some (s, d)
      → CreateTable debug a d s
  unfolding parse_table
  parse_table_sound a b c d s word table h =
      let (r, f, got, rest) =
        continue_cases (parse_relation c)
          (λ r b.
            continue (mark b'(' b)
              (λ o c. table_columns debug r (or_empty c (comma_list parse_column c))))
          s d h in
      let (o, g, got', rest') =
        continue_cases (mark b'(' f)
          (λ o c. table_columns debug r (or_empty c (comma_list parse_column c))) s d rest in
      table_columns_sound a b c f g (or_empty g (comma_list parse_column g)).1 d r
        (or_empty g (comma_list parse_column g)).0 s word table (parse_relation_sound c f r got)
        (mark-Eats b'(' o f g got') (or_empty-OptColumns g (comma_list parse_column g) refl) rest'
