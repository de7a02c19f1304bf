-- ===== src/Sql/Descent/Values/Complete.antt =====
-- parser/sql.lalrpop: the recursive descent reads the names and values that are derived.
use kui_ba_db.Base.{◌≡◌, refl, Bool, none, some, List, [], ◌∷◌, ◌==◌}
use kui_ba_db.Sql.Syntax.{StrVal, NumVal, AConst}
use kui_ba_db.Sql.Grammar.{Keyword, keyword, Input, step, Eats}
use kui_ba_db.Sql.Grammar.Terms.{
  IOrFConst, decimal_const, int_const, big_const, plain, plus, minus, quoted, Ident,
}
use kui_ba_db.Sql.Grammar.Values.{
  VarName, one_name, dotted, true_value, false_value, string_value, VarValue, text_value,
  number_value,
}
use kui_ba_db.Sql.Grammar.Statements.{Attrs, first_attr, more_attrs, AnyName, simple, qualified}
use kui_ba_db.Sql.Descent.{punctuation, marked_by, read_integer}
use kui_ba_db.Sql.Descent.Loop.{Follows, Follows-first, Follows-next, Follows-end}
use kui_ba_db.Sql.Descent.Queries.{parse_name}
use kui_ba_db.Sql.Descent.Queries.Complete.{Ident-less, Ident-parse, Closes, at_end, at_mark}
use kui_ba_db.Sql.Descent.Values.{
  join_name, parse_var_name, append_name, parse_any_name, number_from, valued, negated, minus_from,
  value_from,
}

VarName-Follows :
    {a b : Input} {n : StrVal}
    → VarName a b n
    → Follows (λ o. o == b'.') parse_name join_name (λ m. m) a b n
VarName-Follows (one_name {a = a} {b = b} {n = n} d) =
    Follows-first (λ o. o == b'.') parse_name join_name (λ m. m) a b n (Ident-parse d)
VarName-Follows (dotted {a = a} {b = b} {c = c} {d = d} {n = n} {v = v} dn e dv) =
    Follows-next (λ o. o == b'.') parse_name join_name (λ m. m) a b c d n b'.' v
      (VarName-Follows dn) e refl (Ident-parse dv) (Ident-less dv)

pub VarName-parse :
    {a b : Input} {n : StrVal}
    → VarName a b n
    → punctuation (λ o. o == b'.') b ≡ none
    → parse_var_name a ≡ some (n, b)
unfolding parse_var_name
VarName-parse {a} {b} {n} d stop =
    Follows-end (λ o. o == b'.') parse_name join_name (λ m. m) a b n (VarName-Follows d) stop

Attrs-Follows :
    {a b c : Input} {n : StrVal} {l : List StrVal}
    → Ident a b n
    → Attrs b c l
    → Follows (λ o. o == b'.') parse_name append_name (λ m. m ∷ []) a c (n ∷ l)
Attrs-Follows {a} {n = n} dn (first_attr {a = b} {b = c} {c = d} {v = v} e dv) =
    Follows-next (λ o. o == b'.') parse_name append_name (λ m. m ∷ []) a b c d (n ∷ []) b'.' v
      (Follows-first (λ o. o == b'.') parse_name append_name (λ m. m ∷ []) a b n (Ident-parse dn)) e
      refl (Ident-parse dv) (Ident-less dv)
Attrs-Follows {a} {n = n} dn (more_attrs {b = b} {c = c} {d = d} {l = l} {v = v} dl e dv) =
    Follows-next (λ o. o == b'.') parse_name append_name (λ m. m ∷ []) a b c d (n ∷ l) b'.' v
      (Attrs-Follows dn dl) e refl (Ident-parse dv) (Ident-less dv)

pub AnyName-parse :
    {a b : Input} {l : List StrVal}
    → AnyName a b l
    → punctuation (λ o. o == b'.') b ≡ none
    → parse_any_name a ≡ some (l, b)
unfolding parse_any_name
AnyName-parse {a} {b} (simple {n = n} d) stop =
    Follows-end (λ o. o == b'.') parse_name append_name (λ m. m ∷ []) a b (n ∷ [])
      (Follows-first (λ o. o == b'.') parse_name append_name (λ m. m ∷ []) a b n (Ident-parse d))
      stop
AnyName-parse {a} {b} (qualified {n = n} {l = l} d dl) stop =
    Follows-end (λ o. o == b'.') parse_name append_name (λ m. m ∷ []) a b (n ∷ l)
      (Attrs-Follows d dl) stop

pub IOrFConst-parse :
    {a b : Input} {v : NumVal} → IOrFConst a b v → number_from (step a) ≡ some (v, b)
unfolding number_from read_integer
IOrFConst-parse (decimal_const e) = rw e refl
IOrFConst-parse (int_const e p) = rw (e, p) refl
IOrFConst-parse (big_const e p) = rw (e, p) refl

pub VarValue-parse :
    {debug : Bool} {a b : Input} {x : AConst}
    → VarValue debug a b x
    → value_from debug a (step a) ≡ some (x, b)
unfolding value_from read_integer valued minus_from negated
VarValue-parse (text_value (true_value e)) = rw e refl
VarValue-parse (text_value (false_value e)) = rw e refl
VarValue-parse (text_value (string_value (quoted e))) = rw e refl
VarValue-parse (number_value (plain (decimal_const e))) = rw e refl
VarValue-parse (number_value (plain (int_const e p))) = rw (e, p) refl
VarValue-parse (number_value (plain (big_const e p))) = rw (e, p) refl
VarValue-parse (number_value (plus e d)) = rw (e, IOrFConst-parse d) refl
VarValue-parse (number_value (minus e d n)) = rw (e, IOrFConst-parse d, n) refl

pub to-not_dot :
    (b c : Input) → Eats (keyword Keyword.to) b c → punctuation (λ o. o == b'.') b ≡ none
unfolding punctuation marked_by
to-not_dot b c e = rw e refl

pub Closes-not_dot : (b : Input) → Closes b → punctuation (λ o. o == b'.') b ≡ none
unfolding punctuation marked_by
Closes-not_dot b (at_end e) = rw e refl
Closes-not_dot b (at_mark e e') = rw e refl
