-- ===== src/Sql/Descent/Equivalence.antt =====
-- parser/sql.lalrpop: the recursive descent against the derivations of an expression.
use kui_ba_db.Base.{ℕ, List, [], ◌∷◌, refl, suc, ◌≡◌, arith, some, length}
use mathlib.Core.Logic.{◌↔◌}
use kui_ba_db.Sql.Syntax.{Expr}
use kui_ba_db.Sql.Grammar.{Input, Spanned, left, step}
use kui_ba_db.Sql.Grammar.Terms.{AExpr}
use kui_ba_db.Sql.Descent.Actions.{is_add, is_mul, binary_at}
use kui_ba_db.Sql.Descent.{sequence, expr_with, parse_operand, parse_expr}
use kui_ba_db.Sql.Descent.Loop.{Follows-end}
use kui_ba_db.Sql.Descent.Expressions.{Ends}
use kui_ba_db.Sql.Descent.Expressions.Sound.{parse_operand_sound, expr_with_sound}
use kui_ba_db.Sql.Descent.Expressions.Complete.{AExpr-Follows}

pub parse_expr-AExpr :
    (a b : Input) (x : Expr) → (parse_expr a ≡ some (x, b)) ↔ (AExpr a b x × Ends b)
unfolding parse_expr
parse_expr-AExpr a b x = (
  λ h.
      expr_with_sound (parse_operand (suc (length a.rest)))
        (parse_operand_sound (suc (length a.rest))) a b x h,
  λ d.
      unfold expr_with in
      Follows-end is_add (sequence is_mul (parse_operand (suc (length a.rest))) binary_at (λ y. y))
        binary_at (λ y. y) a b x (AExpr-Follows d.0 (suc (length a.rest)) (omega arith) d.1.1)
        d.1.0,
)

-- What `@L` and `@R` are: the start of the first token that is left, the end of the last one that
-- was taken.
abbrev pub Placed : ℕ → Spanned → List Spanned → Type 0
Placed n t ts =
    (left (record { last = n; rest = t ∷ ts }) ≡ t.s)
    × (left (record { last = n; rest = [] }) ≡ n)
    × (step (record { last = n; rest = t ∷ ts }) ≡ some (t.token, record { last = t.e; rest = ts }))

pub placed : (n : ℕ) (t : Spanned) (ts : List Spanned) → Placed n t ts
unfolding left step
placed n t ts = (refl, refl, refl)

-- The recursive descent reads an expression behind which no operator stands exactly where the
-- grammar derives it: its operators, their grouping and its places are those of the derivation. A
-- place begins where the first token that is left starts or, when none is left, where the last one
-- ended; and it ends where the last token that was taken ends.
pub parse_expr_iff :
    (a b : Input) (x : Expr) (n : ℕ) (t : Spanned) (ts : List Spanned)
    → ((parse_expr a ≡ some (x, b)) ↔ (AExpr a b x × Ends b)) × Placed n t ts
parse_expr_iff a b x n t ts = (parse_expr-AExpr a b x, placed n t ts)
