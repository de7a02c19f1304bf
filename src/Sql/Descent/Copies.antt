-- ===== src/Sql/Descent/Copies.antt =====
-- parser/sql.lalrpop: the recursive descent for COPY.
pub mod Words
pub mod Sound
pub mod Items
pub mod Complete
use kui_ba_db.Base.{
  ℕ, zero, suc, length, List, [], ◌∷◌, ◌++◌, Bool, true, false, Option, none, some,
}
use kui_ba_db.Sql.Syntax.{StrVal, in_place, DefElem, make_def_elem, RangeVar, CopyStmt}
use kui_ba_db.Sql.Grammar.{Keyword, Token, keyword, xb, Input, step}
use kui_ba_db.Sql.Descent.Actions.{unquote, delimiter_opt, null_opt, csv_opt, with_delimiter}
use kui_ba_db.Sql.Descent.{Parser}
use kui_ba_db.Sql.Descent.Queries.{parse_name, is_as, behind}
use kui_ba_db.Sql.Descent.Values.{value_from}
use kui_ba_db.Sql.Descent.Tables.{continue, mark, comma_list, parse_relation}

unfoldable pub is_with : Keyword → Bool
is_with Keyword.with_p = true
is_with _ = false

unfoldable pub or_here : Input → Option Input → Input
or_here a none = a
or_here a (some b) = b

-- A word that may be left out.
unfoldable pub skip_word : (Keyword → Bool) → Input → Input
unfolding or_here
skip_word is a = or_here a (behind is (step a))

unfoldable pub text_from : Option (Token × Input) → Option (StrVal × Input)
text_from (some (xb s, b)) = some (in_place (unquote s), b)
text_from _ = none

unfoldable pub direction_from : Option (Token × Input) → Option (Bool × Input)
direction_from (some (keyword Keyword.from, b)) = some (true, b)
direction_from (some (keyword Keyword.to, b)) = some (false, b)
direction_from _ = none

unfoldable pub delimited : Input → Option (Option DefElem × Input)
unfolding continue text_from
delimited a = continue (text_from (step a)) (λ v b. some (some (delimiter_opt v), b))

unfoldable pub delimiters_from : Option (Token × Input) → Option (Option DefElem × Input)
unfolding delimited
delimiters_from (some (keyword Keyword.delimiters, b)) = delimited b
delimiters_from _ = none

unfoldable pub delimiter_from : Input → Option (Token × Input) → Option (Option DefElem × Input)
unfolding delimiters_from
delimiter_from a (some (keyword Keyword.using, b)) = delimiters_from (step b)
delimiter_from a (some (keyword Keyword.delimiters, b)) = delimited b
delimiter_from a _ = some (none, a)

unfoldable pub item_from : Option (Token × Input) → Option (DefElem × Input)
unfolding skip_word continue text_from
item_from (some (keyword Keyword.null_p, b)) =
    continue (text_from (step (skip_word is_as b))) (λ v c. some (null_opt v, c))
item_from (some (keyword Keyword.csv, b)) = some (csv_opt, b)
item_from _ = none

unfoldable pub after_opt :
    (List DefElem → Input → Option (List DefElem × Input))
    → List DefElem
    → Input
    → Option (DefElem × Input)
    → Option (List DefElem × Input)
after_opt go l a none = some (l, a)
after_opt go l a (some (x, b)) = go (l ++ x ∷ []) b

-- Each item takes a token.
unfoldable pub opts_loop : ℕ → List DefElem → Input → Option (List DefElem × Input)
unfolding after_opt item_from
opts_loop zero l a = none
opts_loop (suc k) l a = after_opt (opts_loop k) l a (item_from (step a))

module _ (debug : Bool) where
  unfoldable pub parse_generic : Parser DefElem
  unfolding continue
  parse_generic a =
      continue (parse_name a)
        (λ n b. continue (value_from debug b (step b)) (λ x c. some (make_def_elem n x.val, c)))

  unfoldable pub options_behind : Input → Option (ℕ × Input) → Option (List DefElem × Input)
  unfolding opts_loop parse_generic comma_list mark
  options_behind a none = opts_loop (suc (length a.rest)) [] a
  options_behind a (some (o, b)) =
      continue (comma_list parse_generic b) (λ l c. continue (mark b')' c) (λ o d. some (l, d)))

  -- COPY, behind this word.
  unfoldable pub parse_copy : Parser CopyStmt
  unfolding options_behind parse_relation direction_from delimiter_from
  parse_copy a = continue (parse_relation a) (λ q b. continue (direction_from (step b)) (λ from c.
      continue (text_from (step c)) (λ v d. continue (delimiter_from d (step d)) (λ x e.
        continue (options_behind (skip_word is_with e) (mark b'(' (skip_word is_with e))) (λ o f.
          some (record { rel = q; from = from; filename = v; opts = with_delimiter o x }, f))))))
