-- ===== src/Sql/Descent/Queries/Sound.antt =====
-- parser/sql.lalrpop: what the recursive descent reads as a target list, the grammar derives.
use kui_ba_db.Base.{
  ℕ, Bytes, ◌≡◌, refl, arith, Bool, true, Bool-cases, inl, inr, Option, none, some, List, [], ◌∷◌,
  ◌==◌, ==_iff,
}
use mathlib.Core.Path.{subst}
use kui_ba_db.Sql.Syntax.{StrVal, in_place, Expr, ResTarget}
use kui_ba_db.Sql.Grammar.{Keyword, Token, keyword, lowercase_id, id, punct, Input, step, Eats}
use kui_ba_db.Sql.Grammar.Terms.{
  AExpr, Ident, lower, upper, marked, TargetEl, named, unnamed, TargetList, first, more,
  OptTargetList, targets, no_targets,
}
use kui_ba_db.Sql.Descent.Actions.{target_at}
use kui_ba_db.Sql.Descent.{punctuation, parse_expr}
use kui_ba_db.Sql.Descent.Loop.{punctuation-Eats, sequence_sound}
use kui_ba_db.Sql.Descent.Expressions.Sound.{returned, absurd_none}
use kui_ba_db.Sql.Descent.Equivalence.{parse_expr-AExpr}
use kui_ba_db.Sql.Descent.Queries.{
  unquoted, quoted_name, name_from, parse_name, is_as, behind, labelled, with_label, after_value,
  parse_target, append_target, parse_targets, or_empty,
}

pub is_as-as_p : (k : Keyword) → is_as k ≡ true → k ≡ Keyword.as_p
unfolding is_as
is_as-as_p Keyword.as_p h = refl
is_as-as_p _ h = cc

pub same_some : {A : Type 0} {x y : A} → some x ≡ some y → x ≡ y
same_some e = ground arith

pub behind-Eats :
    (is : Keyword → Bool) (k : Keyword)
    → ((j : Keyword) → is j ≡ true → j ≡ k)
    → (a b : Input) (r : Option (Token × Input)) → step a ≡ r
    → behind is r ≡ some b
    → Eats (keyword k) a b
unfolding behind
behind-Eats is k only a b (some (keyword j, c)) at h = elim (Bool-cases (is j)) [
  | inl yes_k ↦
      let same : c ≡ b = same_some (rw yes_k at h) in
      subst (λ t. step a ≡ some (keyword k, t)) same
        (subst (λ t. step a ≡ some (keyword t, c)) (only j yes_k) at)
  | inr no_k ↦ absurd_none (rw no_k at h)
]
behind-Eats is k only a b _ at h = cc

unquoted_sound :
    (a b c d : Input) (v : Bytes) (n : StrVal) (r : Option (ℕ × Input))
    → Eats (punct b'"') a b
    → Eats (id v) b c
    → punctuation (λ o. o == b'"') c ≡ r
    → unquoted v r ≡ some (n, d)
    → Ident a d n
unfolding unquoted
unquoted_sound a b c d v n none e e' at h = cc
unquoted_sound a b c d v n (some (o, c')) e e' at h =
    let (eats, mark) = punctuation-Eats (λ o. o == b'"') c c' o at in
    returned (Ident a) (in_place v) n d c' h
      (marked e e' (subst (λ t. Eats (punct t) c c') ((==_iff o b'"').0 mark) eats))

quoted_name_sound :
    (a b d : Input) (n : StrVal) (r : Option (Token × Input))
    → Eats (punct b'"') a b
    → step b ≡ r
    → quoted_name r ≡ some (n, d)
    → Ident a d n
unfolding quoted_name
quoted_name_sound a b d n (some (id v, c)) e at h =
    unquoted_sound a b c d v n (punctuation (λ o. o == b'"') c) e at refl h
quoted_name_sound a b d n _ e at h = cc

pub name_from_sound :
    (a b : Input) (n : StrVal) (r : Option (Token × Input))
    → step a ≡ r
    → name_from r ≡ some (n, b)
    → Ident a b n
unfolding name_from
name_from_sound a b n (some (lowercase_id v, c)) at h = returned (Ident a) _ n b c h (lower at)
name_from_sound a b n (some (id v, c)) at h = returned (Ident a) _ n b c h (upper at)
name_from_sound a b n (some (punct o, c)) at h = elim (Bool-cases (o == b'"')) [
  | inl mark ↦
      quoted_name_sound a c b n (step c)
        (subst (λ t. Eats (punct t) a c) ((==_iff o b'"').0 mark) at) refl (rw mark at h)
  | inr other ↦ absurd_none (rw other at h)
]
name_from_sound a b n _ at h = cc

labelled_sound :
    (a b c d : Input) (x : Expr) (t : ResTarget) (r : Option (StrVal × Input))
    → AExpr a b x
    → Eats (keyword Keyword.as_p) b c
    → parse_name c ≡ r
    → labelled a x r ≡ some (t, d)
    → TargetEl a d t
unfolding labelled parse_name
labelled_sound a b c d x t none dx e at h = cc
labelled_sound a b c d x t (some (n, d')) dx e at h =
    returned (TargetEl a) (target_at a (some n) x d') t d d' h
      (named dx e (name_from_sound c d' n (step c) refl at))

with_label_sound :
    (a b d : Input) (x : Expr) (t : ResTarget) (r : Option Input)
    → AExpr a b x
    → behind is_as (step b) ≡ r
    → with_label a x b r ≡ some (t, d)
    → TargetEl a d t
unfolding with_label
with_label_sound a b d x t none dx at h =
    returned (TargetEl a) (target_at a none x b) t d b h (unnamed dx)
with_label_sound a b d x t (some c) dx at h =
    labelled_sound a b c d x t (parse_name c) dx
      (behind-Eats is_as Keyword.as_p is_as-as_p b c (step b) refl at) refl h

parse_target_sound : (a d : Input) (t : ResTarget) → parse_target a ≡ some (t, d) → TargetEl a d t
unfolding parse_target
parse_target_sound a d t h = go (parse_expr a) refl h
  where
    go :
        (r : Option (Expr × Input))
        → parse_expr a ≡ r
        → after_value a r ≡ some (t, d)
        → TargetEl a d t
    go none at h = unfold after_value in cc
    go (some (x, b)) at h =
        with_label_sound a b d x t (behind is_as (step b)) ((parse_expr-AExpr a b x).0 at).0 refl
          (unfold after_value in h)

parse_targets_sound :
    (a b : Input) (l : List ResTarget) → parse_targets a ≡ some (l, b) → TargetList a b l
unfolding parse_targets
parse_targets_sound a b l h =
    (sequence_sound (λ o. o == b',') parse_target append_target (λ t. t ∷ []) TargetEl TargetList
      (λ a b t d. first d)
      (λ a b c d l o t dl e mark dt.
        more dl (subst (λ t. Eats (punct t) b c) ((==_iff o b',').0 mark) e) dt)
      parse_target_sound a b l h).0

pub or_empty_sound :
    (a : Input) (r : Option (List ResTarget × Input))
    → parse_targets a ≡ r
    → OptTargetList a (or_empty a r).1 (or_empty a r).0
unfolding or_empty
or_empty_sound a none at = no_targets
or_empty_sound a (some (l, b)) at = targets (parse_targets_sound a b l at)

pub parse_name_sound : (a b : Input) (n : StrVal) → parse_name a ≡ some (n, b) → Ident a b n
unfolding parse_name
parse_name_sound a b n h = name_from_sound a b n (step a) refl h
