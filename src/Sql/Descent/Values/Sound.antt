-- ===== src/Sql/Descent/Values/Sound.antt =====
-- parser/sql.lalrpop: the names and values that the recursive descent reads in a statement are derived.
use kui_ba_db.Base.{
  ℕ, ◌≡◌, refl, Bool, true, Bool-cases, inl, inr, Option, none, some, ok, err, panic, List, [], ◌∷◌,
  ◌++◌, ◌==◌, ==_iff,
}
use mathlib.Core.Path.{subst}
use kui_ba_db.Utils.Err.{Fallible}
use kui_ba_db.Sql.Syntax.{StrVal, NumVal, neg_num, num, AConst}
use kui_ba_db.Sql.Grammar.{Keyword, Token, keyword, decimal, integer, xb, punct, Input, step, Eats}
use kui_ba_db.Sql.Grammar.Terms.{IOrFConst, decimal_const, plain, plus, minus, quoted, Ident}
use kui_ba_db.Sql.Grammar.Values.{
  VarName, one_name, dotted, true_value, false_value, string_value, VarValue, text_value,
  number_value,
}
use kui_ba_db.Sql.Grammar.Statements.{
  VariableSet, set_to, set_equal, first_attr, more_attrs, AnyName, simple, qualified,
}
use kui_ba_db.Sql.Descent.Loop.{sequence_sound}
use kui_ba_db.Sql.Descent.Expressions.Sound.{returned, absurd_none, read_integer-IOrFConst}
use kui_ba_db.Sql.Descent.Queries.{parse_name}
use kui_ba_db.Sql.Descent.Queries.Sound.{parse_name_sound}
use kui_ba_db.Sql.Descent.Values.{
  join_name, parse_var_name, append_name, parse_any_name, number_from, valued, negated, minus_from,
  value_from, setting_from,
}

dot_Eats : (b c : Input) (o : ℕ) → Eats (punct o) b c → (o == b'.') ≡ true → Eats (punct b'.') b c
dot_Eats b c o e mark = subst (λ t. Eats (punct t) b c) ((==_iff o b'.').0 mark) e

pub parse_var_name_sound :
    (a b : Input) (n : StrVal) → parse_var_name a ≡ some (n, b) → VarName a b n
unfolding parse_var_name
parse_var_name_sound a b n h =
    (sequence_sound (λ o. o == b'.') parse_name join_name (λ m. m) Ident VarName
      (λ a b m d. one_name d) (λ a b c d m o v dm e mark dv. dotted dm (dot_Eats b c o e mark) dv)
      parse_name_sound a b n h).0

AnyName-more :
    {a b c d : Input} {l : List StrVal} {n : StrVal}
    → AnyName a b l
    → Eats (punct b'.') b c
    → Ident c d n
    → AnyName a d (l ++ n ∷ [])
AnyName-more (simple d) e dn = qualified d (first_attr e dn)
AnyName-more (qualified d l) e dn = qualified d (more_attrs l e dn)

pub parse_any_name_sound :
    (a b : Input) (l : List StrVal) → parse_any_name a ≡ some (l, b) → AnyName a b l
unfolding parse_any_name
parse_any_name_sound a b l h =
    (sequence_sound (λ o. o == b'.') parse_name append_name (λ n. n ∷ []) Ident AnyName
      (λ a b n d. simple d)
      (λ a b c d l o n dl e mark dn. AnyName-more dl (dot_Eats b c o e mark) dn) parse_name_sound a
      b l h).0

number_from_sound :
    (a b : Input) (v : NumVal) (r : Option (Token × Input))
    → step a ≡ r
    → number_from r ≡ some (v, b)
    → IOrFConst a b v
unfolding number_from
number_from_sound a b v (some (decimal s, c)) at h =
    returned (IOrFConst a) _ v b c h (decimal_const at)
number_from_sound a b v (some (integer s, c)) at h =
    returned (IOrFConst a) _ v b c h (read_integer-IOrFConst a c s at)
number_from_sound a b v _ at h = cc

module _ (debug : Bool) where
  plus_sound :
      (a b c : Input) (x : AConst) (r : Option (NumVal × Input))
      → Eats (punct b'+') a c
      → number_from (step c) ≡ r
      → valued num a r ≡ some (x, b)
      → VarValue debug a b x
  unfolding valued
  plus_sound a b c x none e at h = cc
  plus_sound a b c x (some (v, d)) e at h =
      returned (VarValue debug a) _ x b d h
        (number_value (plus e (number_from_sound c d v (step c) refl at)))

  negated_sound :
      (a b c d : Input) (x : AConst) (v : NumVal) (r : Fallible NumVal)
      → Eats (punct b'-') a c
      → IOrFConst c d v
      → neg_num debug v ≡ r
      → valued num a (negated d r) ≡ some (x, b)
      → VarValue debug a b x
  unfolding valued negated
  negated_sound a b c d x v (ok w) e dv at h =
      returned (VarValue debug a) _ x b d h (number_value (minus e dv at))
  negated_sound a b c d x v (err w) e dv at h = cc
  negated_sound a b c d x v panic e dv at h = cc

  minus_sound :
      (a b c : Input) (x : AConst) (r : Option (NumVal × Input))
      → Eats (punct b'-') a c
      → number_from (step c) ≡ r
      → valued num a (minus_from debug r) ≡ some (x, b)
      → VarValue debug a b x
  unfolding minus_from
  minus_sound a b c x none e at h = unfold valued in cc
  minus_sound a b c x (some (v, d)) e at h =
      negated_sound a b c d x v (neg_num debug v) e (number_from_sound c d v (step c) refl at) refl
        h

  pub value_from_sound :
      (a b : Input) (x : AConst) (r : Option (Token × Input))
      → step a ≡ r
      → value_from debug a r ≡ some (x, b)
      → VarValue debug a b x
  unfolding value_from valued
  value_from_sound a b x (some (keyword Keyword.true_p, c)) at h =
      returned (VarValue debug a) _ x b c h (text_value (true_value at))
  value_from_sound a b x (some (keyword Keyword.false_p, c)) at h =
      returned (VarValue debug a) _ x b c h (text_value (false_value at))
  value_from_sound a b x (some (xb s, c)) at h =
      returned (VarValue debug a) _ x b c h (text_value (string_value (quoted at)))
  value_from_sound a b x (some (decimal s, c)) at h =
      returned (VarValue debug a) _ x b c h (number_value (plain (decimal_const at)))
  value_from_sound a b x (some (integer s, c)) at h =
      returned (VarValue debug a) _ x b c h (number_value (plain (read_integer-IOrFConst a c s at)))
  value_from_sound a b x (some (punct o, c)) at h = elim (Bool-cases (o == b'+')) [
    | inl is_plus ↦
        plus_sound a b c x (number_from (step c))
          (subst (λ t. Eats (punct t) a c) ((==_iff o b'+').0 is_plus) at) refl (rw is_plus at h)
    | inr no_plus ↦ elim (Bool-cases (o == b'-')) [
      | inl is_minus ↦
          minus_sound a b c x (number_from (step c))
            (subst (λ t. Eats (punct t) a c) ((==_iff o b'-').0 is_minus) at) refl
            (rw (no_plus, is_minus) at h)
      | inr other ↦ absurd_none (rw (no_plus, other) at h)
    ]
  ]
  value_from_sound a b x _ at h = cc

  pub setting_from_sound :
      (a b c d : Input) (n : StrVal) (v : AConst) (r : Option (Token × Input))
      → Eats (keyword Keyword.set) a b
      → VarName b c n
      → step c ≡ r
      → setting_from debug r ≡ some (v, d)
      → VariableSet debug a d (record { name = n; val = v })
  unfolding setting_from
  setting_from_sound a b c d n v (some (keyword Keyword.to, c')) e dn at h =
      set_to e dn at (value_from_sound c' d v (step c') refl h)
  setting_from_sound a b c d n v (some (punct o, c')) e dn at h = elim (Bool-cases (o == b'=')) [
    | inl mark ↦
        set_equal e dn (subst (λ t. Eats (punct t) c c') ((==_iff o b'=').0 mark) at)
          (value_from_sound c' d v (step c') refl (rw mark at h))
    | inr other ↦ absurd_none (rw other at h)
  ]
  setting_from_sound a b c d n v _ e dn at h = cc
