-- ===== src/Sql/Descent/Copies/Sound.antt =====
-- parser/sql.lalrpop: what is read as a COPY statement is derived.
use kui_ba_db.Base.{ℕ, suc, ◌≡◌, refl, length, Bool, Option, none, some, List, []}
use kui_ba_db.Sql.Syntax.{AConst, DefElem, make_def_elem, CopyStmt}
use kui_ba_db.Sql.Grammar.{Keyword, keyword, Input, step, Eats}
use kui_ba_db.Sql.Grammar.Values.{VarValue, text_value, number_value}
use mathlib.Core.Path.{subst}
use kui_ba_db.Base.{sym}
use kui_ba_db.Sql.Descent.Actions.{with_delimiter, with_delimiter-push_delimiter}
use kui_ba_db.Sql.Grammar.Copies.{
  GenericArg, text_generic, number_generic, GenericOpt, generic_opt, CopyOptions, plain_options,
  generic_options, no_opts, Copy, copy_table,
}
use kui_ba_db.Sql.Descent.Expressions.Sound.{returned}
use kui_ba_db.Sql.Descent.Queries.{parse_name}
use kui_ba_db.Sql.Descent.Queries.Sound.{parse_name_sound}
use kui_ba_db.Sql.Descent.Values.{value_from}
use kui_ba_db.Sql.Descent.Values.Sound.{value_from_sound}
use kui_ba_db.Sql.Descent.Tables.{continue, mark, comma_list, parse_relation}
use kui_ba_db.Sql.Descent.Tables.Lists.{
  continue_cases, mark-Eats, comma_list_sound, parse_relation_sound,
}
use kui_ba_db.Sql.Descent.Copies.{
  is_with, skip_word, text_from, direction_from, delimiter_from, parse_generic, options_behind,
  parse_copy,
}
use kui_ba_db.Sql.Descent.Copies.Words.{
  is_with-with_p, skip_word-OptWord, text_from_sound, direction_from_sound, delimiter_from_sound,
  opts_loop_sound,
}

module _ (debug : Bool) where
  VarValue-GenericArg :
      {a b : Input} {x : AConst} → VarValue debug a b x → GenericArg debug a b x.val
  VarValue-GenericArg (text_value d) = text_generic d
  VarValue-GenericArg (number_value d) = number_generic d

  parse_generic_sound :
      (a b : Input) (x : DefElem) → parse_generic debug a ≡ some (x, b) → GenericOpt debug a b x
  unfolding parse_generic
  parse_generic_sound a b x h =
      let (n, c, got, rest) =
        continue_cases (parse_name a)
          (λ n b. continue (value_from debug b (step b)) (λ x c. some (make_def_elem n x.val, c))) x
          b h in
      let (v, d, got', rest') =
        continue_cases (value_from debug c (step c)) (λ x c. some (make_def_elem n x.val, c)) x b
          rest in
      returned (GenericOpt debug a) (make_def_elem n v.val) x b d rest' (
        generic_opt (parse_name_sound a c n got)
          (VarValue-GenericArg (value_from_sound debug c d v (step c) refl got')))

  options_behind_sound :
      (a b : Input) (l : List DefElem) (m : Option (ℕ × Input))
      → mark b'(' a ≡ m
      → options_behind debug a m ≡ some (l, b)
      → CopyOptions debug a b l
  unfolding options_behind
  options_behind_sound a b l none at h =
      plain_options (opts_loop_sound (suc (length a.rest)) a a b [] l no_opts h)
  options_behind_sound a b l (some (o, c)) at h =
      let (l', d, got, rest) =
        continue_cases (comma_list (parse_generic debug) c)
          (λ l c. continue (mark b')' c) (λ o d. some (l, d))) l b h in
      let (o', f, got', rest') = continue_cases (mark b')' d) (λ o d. some (l', d)) l b rest in
      returned (CopyOptions debug a) l' l b f rest' (
        generic_options (mark-Eats b'(' o a c at)
          (comma_list_sound (parse_generic debug) (GenericOpt debug) parse_generic_sound c d l' got)
          (mark-Eats b')' o' d f got'))

  -- A COPY statement that the descent reads is derived.
  pub parse_copy_sound :
      (a b c : Input) (s : CopyStmt)
      → Eats (keyword Keyword.copy) a b
      → parse_copy debug b ≡ some (s, c)
      → Copy debug a c s
  unfolding parse_copy
  parse_copy_sound a b h s e eq =
      let (q, c, got, r) = continue_cases (parse_relation b) _ s h eq in
      let (from, d, got1, r1) = continue_cases (direction_from (step c)) _ s h r in
      let (v, f, got2, r2) = continue_cases (text_from (step d)) _ s h r1 in
      let (x, g, got3, r3) = continue_cases (delimiter_from f (step f)) _ s h r2 in
      let (o, k, got4, r4) =
        continue_cases
          (options_behind debug (skip_word is_with g) (mark b'(' (skip_word is_with g))) _ s h r3 in
      returned (Copy debug a)
        (record { rel = q; from = from; filename = v; opts = with_delimiter o x }) s h k r4
        (subst (λ y. Copy debug a k (record { rel = q; from = from; filename = v; opts = y }))
          (sym (with_delimiter-push_delimiter o x))
          (copy_table e (parse_relation_sound b c q got)
            (direction_from_sound c d from (step c) refl got1)
            (text_from_sound d f v (step d) refl got2)
            (delimiter_from_sound f g x (step f) refl got3)
            (skip_word-OptWord is_with Keyword.with_p is_with-with_p g)
            (options_behind_sound (skip_word is_with g) k o (mark b'(' (skip_word is_with g)) refl
              got4)))
