-- ===== src/Sql/Descent/Actions.antt =====
-- parser/sql.lalrpop: what the recursive descent makes of what it reads, and its operators, in
-- definitions of its own.
use kui_ba_db.Base.{
  ℕ, List, [], ◌∷◌, ◌++◌, Bytes, Bool, true, Option, none, some, length, take, drop, ◌==◌, ◌||◌,
  ◌≡◌, refl, sym, ◌-◌, inl, inr, Bool-cases, ==_iff,
}
use mathlib.Core.Path.{subst}
use kui_ba_db.Base.Text.{codes}
use kui_ba_db.Sql.Syntax.{
  StrVal, in_place, dyn, as_str, Value, str, Location, AConst, Expr, a_expr, op, node, one, two,
  ResTarget, RangeVar, TypeName, system_type_name, DefElem, make_def_elem,
}
use kui_ba_db.Sql.Grammar.{Input, left}
use kui_ba_db.Sql.Grammar.Terms.{AddOp, plus_op, minus_op, MulOp, times_op, over_op, rest_op}
use kui_ba_db.Sql.Grammar.Copies.{push_delimiter}

-- The operators that bind loosely, which are the signs too, and those that bind tightly.
unfoldable pub is_add : ℕ → Bool
is_add c = c == b'+' || c == b'-'

unfoldable pub is_mul : ℕ → Bool
is_mul c = c == b'*' || (c == b'/' || c == b'%')

pub AddOp-is_add : (o : ℕ) → AddOp o → is_add o ≡ true
unfolding is_add
AddOp-is_add _ plus_op = refl
AddOp-is_add _ minus_op = refl

pub MulOp-is_mul : (o : ℕ) → MulOp o → is_mul o ≡ true
unfolding is_mul
MulOp-is_mul _ times_op = refl
MulOp-is_mul _ over_op = refl
MulOp-is_mul _ rest_op = refl

pub is_add-AddOp : (o : ℕ) → is_add o ≡ true → AddOp o
unfolding is_add
is_add-AddOp o h = elim (Bool-cases (o == b'+')) [
  | inl is_it ↦ subst AddOp (sym ((==_iff o b'+').0 is_it)) plus_op
  | inr other ↦ subst AddOp (sym ((==_iff o b'-').0 (rw other at h))) minus_op
]

pub is_mul-MulOp : (o : ℕ) → is_mul o ≡ true → MulOp o
unfolding is_mul
is_mul-MulOp o h = elim (Bool-cases (o == b'*')) [
  | inl is_it ↦ subst MulOp (sym ((==_iff o b'*').0 is_it)) times_op
  | inr other ↦ elim (Bool-cases (o == b'/')) [
    | inl is_it ↦ subst MulOp (sym ((==_iff o b'/').0 is_it)) over_op
    | inr not_over ↦ subst MulOp (sym ((==_iff o b'%').0 (rw (other, not_over) at h))) rest_op
  ]
]

-- From the start of the first token to the end of the last.
abbrev pub place : Input → Input → Location
place a b = record { s = left a; e = b.last }

abbrev pub binary_at : Input → Expr → ℕ → Expr → Input → Expr
binary_at a l o r b = a_expr (node op (in_place (o ∷ []) ∷ []) (two l r) (place a b))

abbrev pub unary_at : Input → ℕ → Expr → Input → Expr
unary_at a o r b = a_expr (node op (in_place (o ∷ []) ∷ []) (one r) (place a b))

abbrev pub constant_at : Input → Value → Input → AConst
constant_at a v b = record { val = v; loc = place a b }

abbrev pub target_at : Input → Option StrVal → Expr → Input → ResTarget
target_at a name val b = record { name = name; val = val; loc = place a b }

-- A text without its quotes.
abbrev pub unquote : Bytes → Bytes
unquote s = drop 1 (take (length s - 1) s)

abbrev pub with_dot : StrVal → StrVal → StrVal
with_dot n v = dyn (as_str n ++ codes "." ++ as_str v)

abbrev pub relation_of : StrVal → RangeVar
relation_of n = record { schemaname = none; relname = n; alias = none }

abbrev pub varchar_with : Bytes → TypeName
varchar_with i = record (system_type_name (codes "varchar")) {
  typmods = (system_type_name (codes "varchar")).typmods ++ i ∷ [];
}

abbrev pub delimiter_opt : StrVal → DefElem
delimiter_opt v = make_def_elem (in_place (codes "delimiter")) (str v)

abbrev pub null_opt : StrVal → DefElem
null_opt v = make_def_elem (in_place (codes "null")) (str v)

abbrev pub csv_opt : DefElem
csv_opt = make_def_elem (in_place (codes "format")) (str (in_place (codes "csv")))

unfoldable pub with_delimiter : List DefElem → Option DefElem → List DefElem
with_delimiter o none = o
with_delimiter o (some x) = o ++ x ∷ []

pub with_delimiter-push_delimiter :
    (o : List DefElem) (x : Option DefElem) → with_delimiter o x ≡ push_delimiter o x
unfolding with_delimiter push_delimiter
with_delimiter-push_delimiter o none = refl
with_delimiter-push_delimiter o (some x) = refl
