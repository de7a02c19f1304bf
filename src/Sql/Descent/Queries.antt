-- ===== src/Sql/Descent/Queries.antt =====
-- parser/sql.lalrpop: the recursive descent for names, target lists and labels.
pub mod Sound
pub mod Complete
use kui_ba_db.Base.{
  ℕ, List, [], ◌∷◌, ◌++◌, map, Bytes, Bool, true, false, Option, none, some, ◌==◌, if◌then◌else◌,
}
use kui_ba_db.Base.Text.{to_ascii_lowercase}
use kui_ba_db.Sql.Syntax.{StrVal, in_place, dyn, Expr, ResTarget, SelectStmt}
use kui_ba_db.Sql.Grammar.{Keyword, Token, keyword, lowercase_id, id, punct, Input, step}
use kui_ba_db.Sql.Descent.Actions.{target_at}
use kui_ba_db.Sql.Descent.{Parser, punctuation, sequence, parse_expr}

-- The mark behind a quoted name.
unfoldable pub unquoted : Bytes → Option (ℕ × Input) → Option (StrVal × Input)
unquoted v none = none
unquoted v (some (o, c)) = some (in_place v, c)

unfoldable pub quoted_name : Option (Token × Input) → Option (StrVal × Input)
unfolding unquoted
quoted_name (some (id v, b)) = unquoted v (punctuation (λ o. o == b'"') b)
quoted_name _ = none

unfoldable pub name_from : Option (Token × Input) → Option (StrVal × Input)
unfolding quoted_name
name_from (some (lowercase_id v, b)) = some (in_place v, b)
name_from (some (id v, b)) = some (dyn (map to_ascii_lowercase v), b)
name_from (some (punct o, b)) = if o == b'"' then quoted_name (step b) else none
name_from _ = none

unfoldable pub parse_name : Parser StrVal
unfolding name_from
parse_name a = name_from (step a)

-- The input behind a keyword that stands next.
unfoldable pub is_as : Keyword → Bool
is_as Keyword.as_p = true
is_as _ = false

unfoldable pub behind : (Keyword → Bool) → Option (Token × Input) → Option Input
behind is (some (keyword k, b)) = if is k then some b else none
behind is _ = none

unfoldable pub labelled : Input → Expr → Option (StrVal × Input) → Option (ResTarget × Input)
labelled a x none = none
labelled a x (some (n, d)) = some (target_at a (some n) x d, d)

unfoldable pub with_label : Input → Expr → Input → Option Input → Option (ResTarget × Input)
unfolding labelled
with_label a x b none = some (target_at a none x b, b)
with_label a x b (some c) = labelled a x (parse_name c)

unfoldable pub after_value : Input → Option (Expr × Input) → Option (ResTarget × Input)
unfolding with_label
after_value a none = none
after_value a (some (x, b)) = with_label a x b (behind is_as (step b))

unfoldable pub parse_target : Parser ResTarget
unfolding after_value
parse_target a = after_value a (parse_expr a)

abbrev pub append_target : Input → List ResTarget → ℕ → ResTarget → Input → List ResTarget
append_target a l o t b = l ++ t ∷ []

unfoldable pub parse_targets : Parser (List ResTarget)
parse_targets = sequence (λ o. o == b',') parse_target append_target (λ t. t ∷ [])

-- No targets are read where no target list stands.
unfoldable pub or_empty : {I : Type 0} → Input → Option (List I × Input) → List I × Input
or_empty a none = ([], a)
or_empty a (some r) = r
