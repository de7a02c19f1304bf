-- ===== src/Sql/Descent/Copies/Items.antt =====
-- parser/sql.lalrpop: the items of COPY that are derived are read.
use kui_ba_db.Base.{
  ℕ, zero, suc, ◌<◌, ◌≡◌, refl, ◌∙◌, length, arith, Bool, none, some, List, [], ◌∷◌, ◌++◌,
}
use kui_ba_db.Sql.Syntax.{StrVal, DefElem}
use kui_ba_db.Sql.Grammar.{Input, step}
use kui_ba_db.Sql.Grammar.Terms.{Sconst, quoted}
use kui_ba_db.Sql.Grammar.Copies.{
  CopyFrom, copy_from, copy_to, word, no_word, CopyOptItem, null_item, csv_item, CopyOptList,
  more_opts, no_opts,
}
use kui_ba_db.Sql.Descent.{punctuation, marked_by}
use kui_ba_db.Sql.Descent.Loop.{Eats-size}
use kui_ba_db.Sql.Descent.Queries.{is_as, behind}
use kui_ba_db.Sql.Descent.Queries.Complete.{Closes, at_end, at_mark}
use kui_ba_db.Sql.Descent.Tables.{continue, mark}
use kui_ba_db.Sql.Descent.Copies.{
  is_with, or_here, skip_word, text_from, direction_from, delimiter_from, item_from, after_opt,
  opts_loop,
}

pub Sconst-parse : {a b : Input} {v : StrVal} → Sconst a b v → text_from (step a) ≡ some (v, b)
unfolding text_from
Sconst-parse (quoted e) = rw e refl

pub CopyFrom-parse :
    {a b : Input} {v : Bool} → CopyFrom a b v → direction_from (step a) ≡ some (v, b)
unfolding direction_from
CopyFrom-parse (copy_from e) = rw e refl
CopyFrom-parse (copy_to e) = rw e refl

pub CopyOptItem-parse :
    {a b : Input} {x : DefElem} → CopyOptItem a b x → item_from (step a) ≡ some (x, b)
unfolding item_from skip_word or_here behind is_as continue text_from
CopyOptItem-parse (null_item e (word e') (quoted e'')) = rw (e, e', e'') refl
CopyOptItem-parse (null_item e no_word (quoted e')) = rw (e, e', e') refl
CopyOptItem-parse (csv_item e) = rw e refl

pub CopyOptItem-less :
    {a b : Input} {x : DefElem} → CopyOptItem a b x → length b.rest < length a.rest
CopyOptItem-less (null_item {a = a} {b = b} {c = c} {d = d} e (word e') (quoted e'')) =
    omega (arith, Eats-size _ a b e, Eats-size _ b c e', Eats-size _ c d e'')
CopyOptItem-less (null_item {a = a} {b = b} {d = d} e no_word (quoted e')) =
    omega (arith, Eats-size _ a b e, Eats-size _ b d e')
CopyOptItem-less (csv_item {a = a} {b = b} e) = omega (arith, Eats-size _ a b e)

-- The items up to `b` were read, and the loop goes on with enough fuel.
pub record Items (a b : Input) (l : List DefElem) : Type 0 where
  fuel : ℕ
  enough : length b.rest < fuel
  follows : opts_loop (suc (length a.rest)) [] a ≡ opts_loop fuel l b

pub CopyOptList-Items : {a b : Input} {l : List DefElem} → CopyOptList a b l → Items a b l
CopyOptList-Items (no_opts {a = a}) = record {
  fuel = suc (length a.rest);
  enough = omega arith;
  follows = refl;
}
CopyOptList-Items (more_opts {a = a} {b = b} {c = c} {l = l} {x = x} dl dx) =
    let i = CopyOptList-Items dl in go i.fuel i.enough i.follows
  where
    go :
        (k : ℕ)
        → length b.rest < k
        → opts_loop (suc (length a.rest)) [] a ≡ opts_loop k l b
        → Items a c (l ++ x ∷ [])
    go zero lt eq = absurd (omega arith)
    go (suc k) lt eq = record {
      fuel = k;
      enough = omega (arith, CopyOptItem-less dx);
      follows = eq ∙ (unfold opts_loop after_opt in rw (CopyOptItem-parse dx) refl);
    }

pub Items-end :
    (a b : Input) (l : List DefElem)
    → Items a b l
    → item_from (step b) ≡ none
    → opts_loop (suc (length a.rest)) [] a ≡ some (l, b)
Items-end a b l i e = go i.fuel i.enough i.follows
  where
    go :
        (k : ℕ)
        → length b.rest < k
        → opts_loop (suc (length a.rest)) [] a ≡ opts_loop k l b
        → opts_loop (suc (length a.rest)) [] a ≡ some (l, b)
    go zero lt eq = absurd (omega arith)
    go (suc k) lt eq = eq ∙ (unfold opts_loop after_opt in rw e refl)

pub Closes-no_item : (b : Input) → Closes b → item_from (step b) ≡ none
unfolding item_from
Closes-no_item b (at_end e) = rw e refl
Closes-no_item b (at_mark e e') = rw e refl

-- What may stand behind the name of the file: no delimiter and no WITH.
abbrev pub Undelimited : Input → Type 0
Undelimited a = (delimiter_from a (step a) ≡ some (none, a)) × (behind is_with (step a) ≡ none)

-- And no bracket.
abbrev pub Plain : Input → Type 0
Plain a = Undelimited a × (mark b'(' a ≡ none)

pub Closes-Plain : (b : Input) → Closes b → Plain b
unfolding delimiter_from behind mark punctuation marked_by
Closes-Plain b (at_end e) = ((rw e refl, rw e refl), rw e refl)
Closes-Plain b (at_mark e e') = ((rw e refl, rw e refl), rw e refl)

pub CopyOptItem-Plain : {a b : Input} {x : DefElem} → CopyOptItem a b x → Plain a
unfolding delimiter_from behind is_with mark punctuation marked_by
CopyOptItem-Plain (null_item e o d) = ((rw e refl, rw e refl), rw e refl)
CopyOptItem-Plain (csv_item e) = ((rw e refl, rw e refl), rw e refl)

pub CopyOptList-Plain : {a b : Input} {l : List DefElem} → CopyOptList a b l → Plain b → Plain a
CopyOptList-Plain no_opts plain = plain
CopyOptList-Plain (more_opts dl dx) plain = CopyOptList-Plain dl (CopyOptItem-Plain dx)
