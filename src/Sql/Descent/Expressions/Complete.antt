-- ===== src/Sql/Descent/Expressions/Complete.antt =====
-- parser/sql.lalrpop: what the grammar derives as an expression, the recursive descent reads.
use kui_ba_db.Base.{ℕ, zero, suc, ◌<◌, ◌≡◌, refl, arith, true, false, none, some, length, ◌==◌}
use kui_ba_db.Sql.Syntax.{Expr}
use kui_ba_db.Sql.Grammar.{punct, Input, Eats}
use kui_ba_db.Sql.Grammar.Terms.{
  decimal_const, int_const, big_const, quoted, AexprConst, number, text, AExpr, add, lvl1, Lvl1,
  mul, lvl2, Lvl2, sign, c_expr, CExpr, atom, paren,
}
use kui_ba_db.Sql.Descent.Actions.{AddOp-is_add, MulOp-is_mul, is_add, is_mul, binary_at, unary_at}
use kui_ba_db.Sql.Descent.{
  punctuation, sequence, read_integer, expr_with, closed_by, closed, signed, operand_from,
  parse_operand,
}
use kui_ba_db.Sql.Descent.Loop.{
  Eats-size, Eats-punctuation, Eats-not_punctuation, Follows, Follows-first, Follows-next,
  Follows-end,
}
use kui_ba_db.Sql.Descent.Expressions.{Ends, Lvl1-less, Lvl2-less, AExpr-less}

-- `+` and `-` are not among `*`, `/` and `%`, and `(` and `)` are no operators.
add-not_mul : (o : ℕ) → is_add o ≡ true → is_mul o ≡ false
unfolding is_add is_mul
add-not_mul o h = ground arith

module _ (n : ℕ) where
  sign-parse :
      (a b c : Input) (r : Expr) (o : ℕ)
      → Eats (punct o) a b
      → is_add o ≡ true
      → parse_operand n b ≡ some (r, c)
      → parse_operand (suc n) a ≡ some (unary_at a o r c, c)
  unfolding parse_operand operand_from signed
  sign-parse a b c r o e h got = rw (e, h, got) refl

  atom-parse : {a b : Input} {x : Expr} → AexprConst a b x → parse_operand (suc n) a ≡ some (x, b)
  unfolding parse_operand operand_from read_integer
  atom-parse (number (decimal_const e)) = rw e refl
  atom-parse (number (int_const e p)) = rw (e, p) refl
  atom-parse (number (big_const e p)) = rw (e, p) refl
  atom-parse (text (quoted e)) = rw e refl

  paren-parse :
      (a b c d : Input) (x : Expr)
      → Eats (punct b'(') a b
      → expr_with (parse_operand n) b ≡ some (x, c)
      → Eats (punct b')') c d
      → parse_operand (suc n) a ≡ some (x, d)
  unfolding parse_operand operand_from closed closed_by is_add
  paren-parse a b c d x e got e' =
      rw (e, got, Eats-punctuation (λ o. o == b')') c d b')' e' refl) refl

closing-stops : (c d : Input) → Eats (punct b')') c d → Ends c
unfolding is_add is_mul
closing-stops c d e =
    (Eats-not_punctuation is_add c d b')' e refl, Eats-not_punctuation is_mul c d b')' e refl)

-- Enough fuel for an operand: one unit more than its tokens.
mutual
  unfolding expr_with

  pub AExpr-Follows :
      {a b : Input} {x : Expr}
      → AExpr a b x
      → (n : ℕ) → length a.rest < n
      → punctuation is_mul b ≡ none
      → Follows is_add
          (sequence is_mul (parse_operand n) binary_at (λ y. y))
          binary_at
          (λ y. y)
          a
          b
          x
  AExpr-Follows (add {a = a} {b = b} {c = c} {d = d} {l = l} {r = r} {o = o} dl e h dr) n lt stop =
      let stop_l = Eats-not_punctuation is_mul b c o e (add-not_mul o (AddOp-is_add o h)) in
      let in_r : length c.rest < n = omega (arith, AExpr-less dl, Eats-size _ b c e) in
      Follows-next is_add (sequence is_mul (parse_operand n) binary_at (λ y. y)) binary_at (λ y. y)
        a b c d l o r (AExpr-Follows dl n lt stop_l) e (AddOp-is_add o h)
        (Follows-end is_mul (parse_operand n) binary_at (λ y. y) c d r (Lvl1-Follows dr n in_r)
          stop)
        (Lvl1-less dr)
  AExpr-Follows (lvl1 {a = a} {b = b} {x = x} d) n lt stop =
      Follows-first is_add (sequence is_mul (parse_operand n) binary_at (λ y. y)) binary_at (λ y. y)
        a b x
        (Follows-end is_mul (parse_operand n) binary_at (λ y. y) a b x (Lvl1-Follows d n lt) stop)

  Lvl1-Follows :
      {a b : Input} {x : Expr}
      → Lvl1 a b x
      → (n : ℕ) → length a.rest < n
      → Follows is_mul (parse_operand n) binary_at (λ y. y) a b x
  Lvl1-Follows (mul {a = a} {b = b} {c = c} {d = d} {l = l} {r = r} {o = o} dl e h dr) n lt =
      let in_r : length c.rest < n = omega (arith, Lvl1-less dl, Eats-size _ b c e) in
      Follows-next is_mul (parse_operand n) binary_at (λ y. y) a b c d l o r (Lvl1-Follows dl n lt)
        e (MulOp-is_mul o h) (Lvl2-parse dr n in_r) (Lvl2-less dr)
  Lvl1-Follows (lvl2 {a = a} {b = b} {x = x} d) n lt =
      Follows-first is_mul (parse_operand n) binary_at (λ y. y) a b x (Lvl2-parse d n lt)

  Lvl2-parse :
      {a b : Input} {x : Expr}
      → Lvl2 a b x
      → (n : ℕ) → length a.rest < n
      → parse_operand n a ≡ some (x, b)
  Lvl2-parse d zero lt = absurd (omega arith)
  Lvl2-parse (sign {a = a} {b = b} {c = c} {r = r} {o = o} e h d) (suc n) lt =
      sign-parse n a b c r o e (AddOp-is_add o h)
        (Lvl2-parse d n (omega (arith, Eats-size _ a b e)))
  Lvl2-parse (c_expr d) (suc n) lt = CExpr-parse d (suc n) lt

  CExpr-parse :
      {a b : Input} {x : Expr}
      → CExpr a b x
      → (n : ℕ) → length a.rest < n
      → parse_operand n a ≡ some (x, b)
  CExpr-parse d zero lt = absurd (omega arith)
  CExpr-parse (atom d) (suc n) lt = atom-parse n d
  CExpr-parse (paren {a = a} {b = b} {c = c} {d = d} {x = x} e dx e') (suc n) lt =
      let f = AExpr-Follows dx n (omega (arith, Eats-size _ a b e)) (closing-stops c d e').1 in
      paren-parse n a b c d x e
        (Follows-end is_add (sequence is_mul (parse_operand n) binary_at (λ y. y)) binary_at
          (λ y. y) b c x f (closing-stops c d e').0)
        e'
