-- ===== src/Sql/Descent.antt =====
-- parser/sql.lalrpop: a recursive descent, which describes the grammar independently of its
-- productions; here, the loops and the expressions. A sequence that the grammar writes by left
-- recursion is a loop.
mod Tests
pub mod Actions
pub mod Loop
pub mod Expressions
pub mod Equivalence
pub mod Queries
pub mod Values
pub mod Tables
pub mod Copies
pub mod Statements
use kui_ba_db.Base.{
  ℕ, zero, suc, List, [], ◌∷◌, ◌++◌, map, Bytes, Bool, true, false, Option, none, some, length,
  ◌==◌, if◌then◌else◌,
}
use kui_ba_db.Base.Int.{ℤ}
use kui_ba_db.Base.Text.{parse_i32, to_ascii_lowercase}
use kui_ba_db.Sql.Syntax.{
  StrVal, in_place, dyn, NumVal, int, float, num, str, Expr, a_const, ResTarget, SelectStmt,
}
use kui_ba_db.Sql.Grammar.{
  Keyword, Token, keyword, lowercase_id, id, decimal, integer, xb, punct, Input, step,
}
use kui_ba_db.Sql.Descent.Actions.{
  unquote, is_add, is_mul, binary_at, unary_at, constant_at, target_at,
}

-- A parser reads an `A` and leaves the input behind it.
abbrev pub Parser : Type 0 → Type 0
Parser A = Input → Option (A × Input)

infixl 5 ◌>>=◌
abbrev pub ◌>>=◌ : {A B : Type 0} → Option A → (A → Option B) → Option B
none >>= f = none
some a >>= f = f a

-- The punctuation mark that stands next, if it is one of the test.
unfoldable pub marked_by : (ℕ → Bool) → Option (Token × Input) → Option (ℕ × Input)
marked_by is (some (punct c, b)) = if is c then some (c, b) else none
marked_by is _ = none

unfoldable pub punctuation : (ℕ → Bool) → Parser ℕ
unfolding marked_by
punctuation is a = marked_by is (step a)

-- Items with marks between them: `join` takes the start, what was read, the mark, the next item and
-- the input behind it. Each round takes a token.
module _ {I A : Type 0} (is : ℕ → Bool) (item : Parser I)
    (join : Input → A → ℕ → I → Input → A) where
  unfoldable pub after_item :
      (A → Input → Option (A × Input)) → Input → A → ℕ → Option (I × Input) → Option (A × Input)
  after_item go a acc o none = none
  after_item go a acc o (some (x, d)) = go (join a acc o x d) d

  unfoldable pub after_mark :
      (A → Input → Option (A × Input)) → Input → A → Input → Option (ℕ × Input) → Option (A × Input)
  unfolding after_item
  after_mark go a acc b none = some (acc, b)
  after_mark go a acc b (some (o, c)) = after_item go a acc o (item c)

  unfoldable pub loop : ℕ → Input → A → Parser A
  unfolding after_mark
  loop zero a acc b = none
  loop (suc k) a acc b = after_mark (loop k a) a acc b (punctuation is b)

  unfoldable pub after_first : (I → A) → Input → Option (I × Input) → Option (A × Input)
  unfolding loop
  after_first start a none = none
  after_first start a (some (x, b)) = loop (suc (length b.rest)) a (start x) b

  unfoldable pub sequence : (I → A) → Parser A
  unfolding after_first
  sequence start a = after_first start a (item a)

unfoldable pub read_integer : Bytes → Option ℤ → NumVal
read_integer s none = float false s
read_integer s (some v) = int v

unfoldable pub expr_with : Parser Expr → Parser Expr
unfolding sequence
expr_with operand = sequence is_add (sequence is_mul operand binary_at (λ x. x)) binary_at (λ x. x)

closed_by : Expr → Option (ℕ × Input) → Option (Expr × Input)
closed_by x none = none
closed_by x (some (o, d)) = some (x, d)

closed : Expr × Input → Option (Expr × Input)
unfolding closed_by
closed (x, c) = closed_by x (punctuation (λ o. o == b')') c)

signed : Input → ℕ → Expr × Input → Expr × Input
signed a o (r, c) = (unary_at a o r c, c)

-- An operand whose tokens begin with the given one; `operand` reads the operands inside it.
unfoldable pub operand_from : Parser Expr → Input → Option (Token × Input) → Option (Expr × Input)
unfolding closed signed expr_with
operand_from operand a none = none
operand_from operand a (some (decimal s, b)) =
    some (a_const (constant_at a (num (float false s)) b), b)
operand_from operand a (some (integer s, b)) =
    some (a_const (constant_at a (num (read_integer s (parse_i32 s))) b), b)
operand_from operand a (some (xb s, b)) =
    some (a_const (constant_at a (str (in_place (unquote s))) b), b)
operand_from operand a (some (punct o, b)) =
    if is_add o
    then (do r ← operand b; some (signed a o r))
    else if o == b'('
    then (do x ← expr_with operand b; closed x)
    else none
operand_from operand a _ = none

unfoldable pub parse_operand : ℕ → Parser Expr
unfolding operand_from
parse_operand zero a = none
parse_operand (suc n) a = operand_from (parse_operand n) a (step a)

-- Each nested operand is behind a token.
unfoldable pub parse_expr : Parser Expr
unfolding expr_with parse_operand
parse_expr a = expr_with (parse_operand (suc (length a.rest))) a
