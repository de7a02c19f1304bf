-- ===== src/Sql/Descent/Queries/Complete.antt =====
-- parser/sql.lalrpop: what the grammar derives as a target list, the recursive descent reads.
use kui_ba_db.Base.{ℕ, ◌<◌, ◌≡◌, refl, arith, false, none, some, length, List, [], ◌∷◌, ◌==◌}
use kui_ba_db.Sql.Syntax.{StrVal, ResTarget}
use kui_ba_db.Sql.Grammar.{Keyword, keyword, punct, Input, step, Eats}
use kui_ba_db.Sql.Grammar.Terms.{
  Ident, lower, upper, marked, TargetEl, named, unnamed, TargetList, first, more, OptTargetList,
  targets, no_targets,
}
use kui_ba_db.Sql.Descent.Actions.{is_add, is_mul}
use kui_ba_db.Sql.Descent.{
  punctuation, marked_by, after_first, sequence, parse_expr, expr_with, parse_operand, operand_from,
}
use kui_ba_db.Sql.Descent.Loop.{
  Eats-size, Eats-punctuation, Eats-not_punctuation, Follows, Follows-first, Follows-next,
  Follows-end,
}
use kui_ba_db.Sql.Descent.Expressions.{Ends, AExpr-less}
use kui_ba_db.Sql.Descent.Equivalence.{parse_expr-AExpr}
use kui_ba_db.Sql.Descent.Queries.{
  unquoted, quoted_name, name_from, parse_name, is_as, behind, labelled, with_label, after_value,
  parse_target, append_target, parse_targets, or_empty,
}

pub Ident-less : {a b : Input} {n : StrVal} → Ident a b n → length b.rest < length a.rest
Ident-less (lower {a = a} {b = b} e) = omega (arith, Eats-size _ a b e)
Ident-less (upper {a = a} {b = b} e) = omega (arith, Eats-size _ a b e)
Ident-less (marked {a = a} {b = b} {c = c} {d = d} e e' e'') =
    omega (arith, Eats-size _ a b e, Eats-size _ b c e', Eats-size _ c d e'')

TargetEl-less : {a b : Input} {t : ResTarget} → TargetEl a b t → length b.rest < length a.rest
TargetEl-less (named {b = b} {c = c} dx e dn) =
    omega (arith, AExpr-less dx, Eats-size _ b c e, Ident-less dn)
TargetEl-less (unnamed dx) = AExpr-less dx

pub Ident-parse : {a b : Input} {n : StrVal} → Ident a b n → parse_name a ≡ some (n, b)
unfolding parse_name name_from quoted_name unquoted
Ident-parse (lower e) = rw e refl
Ident-parse (upper e) = rw e refl
Ident-parse (marked {c = c} {d = d} e e' e'') =
    rw (e, e', Eats-punctuation (λ o. o == b'"') c d b'"' e'' refl) refl

-- Nothing of an expression and no label stands next.
abbrev Stops : Input → Type 0
Stops b = Ends b × (behind is_as (step b) ≡ none)

end-Stops : (b : Input) → step b ≡ none → Stops b
unfolding punctuation marked_by behind
end-Stops b e = ((rw e refl, rw e refl), rw e refl)

mark-Stops :
    (b c : Input) (o : ℕ) → Eats (punct o) b c → is_add o ≡ false → is_mul o ≡ false → Stops b
unfolding behind
mark-Stops b c o e no_add no_mul = (
  (Eats-not_punctuation is_add b c o e no_add, Eats-not_punctuation is_mul b c o e no_mul),
  rw e refl,
)

as-Ends : (b c : Input) → Eats (keyword Keyword.as_p) b c → Ends b
unfolding punctuation marked_by
as-Ends b c e = (rw e refl, rw e refl)

TargetEl-parse :
    {a b : Input} {t : ResTarget} → TargetEl a b t → Stops b → parse_target a ≡ some (t, b)
unfolding parse_target after_value with_label labelled behind is_as
TargetEl-parse (named {a = a} {b = b} {c = c} {x = x} dx e dn) stops =
    rw ((parse_expr-AExpr a b x).1 (dx, as-Ends b c e), e, Ident-parse dn) refl
TargetEl-parse (unnamed {a = a} {b = b} {x = x} dx) stops =
    rw ((parse_expr-AExpr a b x).1 (dx, stops.0), stops.1) refl

TargetList-Follows :
    {a b : Input} {l : List ResTarget}
    → TargetList a b l
    → Stops b
    → Follows (λ o. o == b',') parse_target append_target (λ t. t ∷ []) a b l
unfolding is_add is_mul
TargetList-Follows (first {a = a} {b = b} {t = t} d) stops =
    Follows-first (λ o. o == b',') parse_target append_target (λ t. t ∷ []) a b t
      (TargetEl-parse d stops)
TargetList-Follows (more {a = a} {b = b} {c = c} {d = d} {l = l} {t = t} dl e dt) stops =
    Follows-next (λ o. o == b',') parse_target append_target (λ t. t ∷ []) a b c d l b',' t
      (TargetList-Follows dl (mark-Stops b c b',' e refl refl)) e refl (TargetEl-parse dt stops)
      (TargetEl-less dt)

-- What stands behind a statement: the end of the query, or `;` and the end.
pub data Closes (b : Input) : Type 0 where
  at_end : step b ≡ none → Closes b
  at_mark : {c : Input} → Eats (punct b';') b c → step c ≡ none → Closes b

Closes-Stops : (b : Input) → Closes b → Stops b
unfolding is_add is_mul
Closes-Stops b (at_end e) = end-Stops b e
Closes-Stops b (at_mark {c = c} e e') = mark-Stops b c b';' e refl refl

pub Closes-not_comma : (b : Input) → Closes b → punctuation (λ o. o == b',') b ≡ none
unfolding punctuation marked_by
Closes-not_comma b (at_end e) = rw e refl
Closes-not_comma b (at_mark e e') = rw e refl

Closes-no_targets : (b : Input) → Closes b → parse_targets b ≡ none
unfolding parse_targets sequence after_first parse_target after_value parse_expr expr_with
    parse_operand operand_from is_add
Closes-no_targets b (at_end e) = rw e refl
Closes-no_targets b (at_mark e e') = rw e refl

pub OptTargetList-parse :
    {a b : Input} {l : List ResTarget}
    → OptTargetList a b l
    → Closes b
    → or_empty a (parse_targets a) ≡ (l, b)
unfolding or_empty parse_targets
OptTargetList-parse (targets {a = a} {b = b} {l = l} d) closes =
    rw
      (Follows-end (λ o. o == b',') parse_target append_target (λ t. t ∷ []) a b l
        (TargetList-Follows d (Closes-Stops b closes)) (Closes-not_comma b closes))
      refl
OptTargetList-parse (no_targets {a = a}) closes = rw (Closes-no_targets a closes) refl
