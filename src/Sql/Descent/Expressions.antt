-- ===== src/Sql/Descent/Expressions.antt =====
-- parser/sql.lalrpop: the expressions of the grammar: each takes a token.
pub mod Sound
pub mod Complete
use kui_ba_db.Base.{
  ℕ, zero, suc, Bytes, ◌≤◌, ◌<◌, ◌≡◌, refl, sym, ap, ◌∙◌, arith, Bool, true, false, Bool-cases,
  Option-cases, inl, inr, Option, none, some, length, List, [], ◌∷◌, ◌==◌, ==_iff, if◌then◌else◌,
}
use mathlib.Core.Logic.{◌↔◌}
use mathlib.Core.Path.{subst}
use kui_ba_db.Base.Int.{ℤ}
use kui_ba_db.Base.Text.{parse_i32}
use kui_ba_db.Sql.Syntax.{Expr, a_const, NumVal, int, float, num, str, in_place}
use kui_ba_db.Sql.Grammar.{
  Token, keyword, lowercase_id, id, decimal, integer, xb, punct, Input, step, Eats,
}
use kui_ba_db.Sql.Grammar.Terms.{
  IOrFConst, decimal_const, int_const, big_const, Sconst, quoted, AexprConst, number, text, AExpr,
  add, lvl1, Lvl1, mul, lvl2, Lvl2, sign, c_expr, CExpr, atom, paren,
}
use kui_ba_db.Sql.Descent.Actions.{is_add, is_mul, binary_at, unary_at, constant_at}
use kui_ba_db.Sql.Descent.{
  Parser, ◌>>=◌, punctuation, marked_by, sequence, read_integer, expr_with, closed_by, closed,
  signed, operand_from, parse_operand, parse_expr,
}
use kui_ba_db.Sql.Descent.Loop.{
  Eats-size, punctuation-Eats, Eats-punctuation, Eats-not_punctuation, Follows, Follows-first,
  Follows-next, Follows-end, sequence_sound,
}

-- No operator stands next.
abbrev pub Ends : Input → Type 0
Ends b = (punctuation is_add b ≡ none) × (punctuation is_mul b ≡ none)

pub IOrFConst-size : {a b : Input} {v : NumVal} → IOrFConst a b v → length b.rest < length a.rest
IOrFConst-size {a} {b} (decimal_const e) = omega (arith, Eats-size _ a b e)
IOrFConst-size {a} {b} (int_const e p) = omega (arith, Eats-size _ a b e)
IOrFConst-size {a} {b} (big_const e p) = omega (arith, Eats-size _ a b e)

AexprConst-size : {a b : Input} {x : Expr} → AexprConst a b x → length b.rest < length a.rest
AexprConst-size (number d) = IOrFConst-size d
AexprConst-size {a} {b} (text (quoted e)) = omega (arith, Eats-size _ a b e)

-- A derived expression takes a token.
mutual
  pub AExpr-less : {a b : Input} {x : Expr} → AExpr a b x → length b.rest < length a.rest
  AExpr-less (add {b = b} {c = c} l e h r) =
      omega (arith, AExpr-less l, Eats-size _ b c e, Lvl1-less r)
  AExpr-less (lvl1 x) = Lvl1-less x

  pub Lvl1-less : {a b : Input} {x : Expr} → Lvl1 a b x → length b.rest < length a.rest
  Lvl1-less (mul {b = b} {c = c} l e h r) =
      omega (arith, Lvl1-less l, Eats-size _ b c e, Lvl2-less r)
  Lvl1-less (lvl2 x) = Lvl2-less x

  pub Lvl2-less : {a b : Input} {x : Expr} → Lvl2 a b x → length b.rest < length a.rest
  Lvl2-less (sign {a = a} {b = b} e h r) = omega (arith, Eats-size _ a b e, Lvl2-less r)
  Lvl2-less (c_expr x) = CExpr-less x

  CExpr-less : {a b : Input} {x : Expr} → CExpr a b x → length b.rest < length a.rest
  CExpr-less (atom x) = AexprConst-size x
  CExpr-less (paren {a = a} {b = b} {c = c} {d = d} e x e') =
      omega (arith, Eats-size _ a b e, AExpr-less x, Eats-size _ c d e')
