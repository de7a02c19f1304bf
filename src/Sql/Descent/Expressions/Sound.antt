-- ===== src/Sql/Descent/Expressions/Sound.antt =====
-- parser/sql.lalrpop: what the recursive descent reads as an expression, the grammar derives.
use kui_ba_db.Base.{
  ℕ, zero, suc, Bytes, ◌≡◌, refl, arith, true, Bool-cases, inl, inr, Option, none, some, ◌==◌,
  ==_iff,
}
use mathlib.Core.Path.{subst}
use kui_ba_db.Base.Int.{ℤ}
use kui_ba_db.Base.Text.{parse_i32}
use kui_ba_db.Sql.Syntax.{Expr}
use kui_ba_db.Sql.Grammar.{
  Token, keyword, lowercase_id, id, decimal, integer, xb, punct, Input, step, Eats,
}
use kui_ba_db.Sql.Grammar.Terms.{
  IOrFConst, decimal_const, int_const, big_const, quoted, number, text, AExpr, add, lvl1, Lvl1, mul,
  lvl2, Lvl2, sign, c_expr, atom, paren,
}
use kui_ba_db.Sql.Descent.Actions.{is_add-AddOp, is_mul-MulOp, is_add, is_mul, binary_at, unary_at}
use kui_ba_db.Sql.Descent.{
  Parser, ◌>>=◌, punctuation, sequence, read_integer, expr_with, closed_by, closed, signed,
  operand_from, parse_operand,
}
use kui_ba_db.Sql.Descent.Loop.{punctuation-Eats, sequence_sound}
use kui_ba_db.Sql.Descent.Expressions.{Ends}

pub absurd_none : {A : Type 0} {B : Type 0} {x : A} → none ≡ some x → B
absurd_none e = cc

pub returned :
    {A : Type 0} (D : Input → A → Type 0) (x y : A) (b c : Input)
    → ◌≡◌ {A = Option (A × Input)} (some (x, c)) (some (y, b))
    → D c x
    → D b y
returned D x y b c e d =
    let ex : x ≡ y = ground arith in
    let eb : c ≡ b = ground arith in subst (λ t. D t y) eb (subst (λ t. D c t) ex d)

pub read_integer-IOrFConst :
    (a b : Input) (s : Bytes) → Eats (integer s) a b → IOrFConst a b (read_integer s (parse_i32 s))
unfolding read_integer
read_integer-IOrFConst a b s e = go (parse_i32 s) refl
  where
    go : (o : Option ℤ) → parse_i32 s ≡ o → IOrFConst a b (read_integer s o)
    go none at = big_const e at
    go (some v) at = int_const e at

-- What an operand parser reads is derived.
module _ (operand : Parser Expr)
    (sound : (a b : Input) (x : Expr) → operand a ≡ some (x, b) → Lvl2 a b x) where
  term_sound :
      (a b : Input) (x : Expr)
      → sequence is_mul operand binary_at (λ y. y) a ≡ some (x, b)
      → Lvl1 a b x × (punctuation is_mul b ≡ none)
  term_sound =
      sequence_sound is_mul operand binary_at (λ y. y) Lvl2 Lvl1 (λ a b y d. lvl2 d)
        (λ a b c d l o r dl e h dr. mul dl e (is_mul-MulOp o h) dr) sound

  pub expr_with_sound :
      (a b : Input) (x : Expr) → expr_with operand a ≡ some (x, b) → AExpr a b x × Ends b
  unfolding expr_with
  expr_with_sound a b x h =
      let (both, add_stops) =
        sequence_sound is_add (sequence is_mul operand binary_at (λ y. y)) binary_at (λ y. y)
          (λ a b y. Lvl1 a b y × (punctuation is_mul b ≡ none))
          (λ a b y. AExpr a b y × (punctuation is_mul b ≡ none)) (λ a b y d. (lvl1 d.0, d.1))
          (λ a b c d l o r dl e h dr. (add dl.0 e (is_add-AddOp o h) dr.0, dr.1)) term_sound a b x
          h in
      (both.0, (add_stops, both.1))

  signed_sound :
      (a b c : Input) (o : ℕ) (x : Expr) (r : Option (Expr × Input))
      → Eats (punct o) a c
      → is_add o ≡ true
      → operand c ≡ r
      → (r >>= λ y. some (signed a o y)) ≡ some (x, b)
      → Lvl2 a b x
  unfolding signed
  signed_sound a b c o x none e h at got = cc
  signed_sound a b c o x (some (y, d)) e h at got =
      returned (Lvl2 a) (unary_at a o y d) x b d got (sign e (is_add-AddOp o h) (sound c d y at))

  closed_sound :
      (a b c : Input) (x : Expr) (r : Option (Expr × Input))
      → Eats (punct b'(') a c
      → expr_with operand c ≡ r
      → (r >>= λ y. closed y) ≡ some (x, b)
      → Lvl2 a b x
  unfolding closed
  closed_sound a b c x none e at got = cc
  closed_sound a b c x (some (y, d)) e at got = go (punctuation (λ o. o == b')') d) refl got
    where
      go :
          (m : Option (ℕ × Input))
          → punctuation (λ o. o == b')') d ≡ m
          → closed_by y m ≡ some (x, b)
          → Lvl2 a b x
      go none m h = unfold closed_by in cc
      go (some (o, d')) m h =
          let (eats, mark) = punctuation-Eats (λ o. o == b')') d d' o m in
          let bracket : o ≡ b')' = (==_iff o b')').0 mark in
          returned (Lvl2 a) y x b d' (unfold closed_by in h) (
            c_expr (
              paren e (expr_with_sound c d y at).0 (subst (λ t. Eats (punct t) d d') bracket eats)))

  operand_from_sound :
      (a b : Input) (x : Expr) (r : Option (Token × Input))
      → step a ≡ r
      → operand_from operand a r ≡ some (x, b)
      → Lvl2 a b x
  unfolding operand_from
  operand_from_sound a b x none at h = cc
  operand_from_sound a b x (some (decimal s, c)) at h =
      returned (Lvl2 a) _ x b c h (c_expr (atom (number (decimal_const at))))
  operand_from_sound a b x (some (integer s, c)) at h =
      returned (Lvl2 a) _ x b c h (c_expr (atom (number (read_integer-IOrFConst a c s at))))
  operand_from_sound a b x (some (xb s, c)) at h =
      returned (Lvl2 a) _ x b c h (c_expr (atom (text (quoted at))))
  operand_from_sound a b x (some (punct o, c)) at h = elim (Bool-cases (is_add o)) [
    | inl yes_add ↦ signed_sound a b c o x (operand c) at yes_add refl (rw yes_add at h)
    | inr no_add ↦ elim (Bool-cases (o == b'(')) [
      | inl bracket ↦
          closed_sound a b c x (expr_with operand c)
            (subst (λ t. Eats (punct t) a c) ((==_iff o b'(').0 bracket) at) refl
            (rw (no_add, bracket) at h)
      | inr other ↦ absurd_none (rw (no_add, other) at h)
    ]
  ]
  operand_from_sound a b x (some (keyword k, c)) at h = cc
  operand_from_sound a b x (some (lowercase_id v, c)) at h = cc
  operand_from_sound a b x (some (id v, c)) at h = cc

pub parse_operand_sound :
    (n : ℕ) (a b : Input) (x : Expr) → parse_operand n a ≡ some (x, b) → Lvl2 a b x
unfolding parse_operand
parse_operand_sound zero a b x h = cc
parse_operand_sound (suc n) a b x h =
    operand_from_sound (parse_operand n) (parse_operand_sound n) a b x (step a) refl h
