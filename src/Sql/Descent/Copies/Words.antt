-- ===== src/Sql/Descent/Copies/Words.antt =====
-- parser/sql.lalrpop: the words and items of COPY that are read are derived.
use kui_ba_db.Base.{ℕ, zero, suc, ◌≡◌, refl, Bool, true, Option, none, some, List, [], ◌∷◌, ◌++◌}
use kui_ba_db.Sql.Syntax.{StrVal, DefElem}
use kui_ba_db.Sql.Grammar.{Keyword, Token, keyword, xb, Input, step, Eats}
use kui_ba_db.Sql.Grammar.Terms.{Sconst, quoted}
use kui_ba_db.Sql.Grammar.Copies.{
  CopyFrom, copy_from, copy_to, OptWord, word, no_word, CopyDelimiter, delimiter, no_delimiter,
  delimiter_of, CopyOptItem, null_item, csv_item, null_of, CopyOptList, more_opts,
}
use kui_ba_db.Sql.Descent.Expressions.Sound.{returned}
use kui_ba_db.Sql.Descent.Queries.{is_as, behind}
use kui_ba_db.Sql.Descent.Queries.Sound.{is_as-as_p, behind-Eats}
use kui_ba_db.Sql.Descent.Tables.Lists.{continue_cases}
use kui_ba_db.Sql.Descent.Copies.{
  is_with, or_here, skip_word, text_from, direction_from, delimited, delimiters_from,
  delimiter_from, item_from, after_opt, opts_loop,
}

pub is_with-with_p : (k : Keyword) → is_with k ≡ true → k ≡ Keyword.with_p
unfolding is_with
is_with-with_p Keyword.with_p h = refl
is_with-with_p _ h = cc

pub skip_word-OptWord :
    (is : Keyword → Bool) (k : Keyword)
    → ((j : Keyword) → is j ≡ true → j ≡ k)
    → (a : Input) → OptWord k a (skip_word is a)
unfolding skip_word
skip_word-OptWord is k only a = go (behind is (step a)) refl
  where
    go : (r : Option Input) → behind is (step a) ≡ r → OptWord k a (or_here a r)
    go none at = unfold or_here in no_word
    go (some b) at = unfold or_here in word (behind-Eats is k only a b (step a) refl at)

pub text_from_sound :
    (a b : Input) (v : StrVal) (r : Option (Token × Input))
    → step a ≡ r
    → text_from r ≡ some (v, b)
    → Sconst a b v
unfolding text_from
text_from_sound a b v (some (xb s, c)) at h = returned (Sconst a) _ v b c h (quoted at)
text_from_sound a b v _ at h = cc

pub direction_from_sound :
    (a b : Input) (v : Bool) (r : Option (Token × Input))
    → step a ≡ r
    → direction_from r ≡ some (v, b)
    → CopyFrom a b v
unfolding direction_from
direction_from_sound a b v (some (keyword Keyword.from, c)) at h =
    returned (CopyFrom a) _ v b c h (copy_from at)
direction_from_sound a b v (some (keyword Keyword.to, c)) at h =
    returned (CopyFrom a) _ v b c h (copy_to at)
direction_from_sound a b v _ at h = cc

delimited_sound :
    (a b c d : Input) (x : Option DefElem)
    → OptWord Keyword.using a b
    → Eats (keyword Keyword.delimiters) b c
    → delimited c ≡ some (x, d)
    → CopyDelimiter a d x
unfolding delimited
delimited_sound a b c d x using e h =
    let (v, f, got, rest) =
      continue_cases (text_from (step c)) (λ v b. some (some (delimiter_of v), b)) x d h in
    returned (CopyDelimiter a) (some (delimiter_of v)) x d f rest
      (delimiter using e (text_from_sound c f v (step c) refl got))

delimiters_from_sound :
    (a b c : Input) (x : Option DefElem) (r : Option (Token × Input))
    → Eats (keyword Keyword.using) a b
    → step b ≡ r
    → delimiters_from r ≡ some (x, c)
    → CopyDelimiter a c x
unfolding delimiters_from
delimiters_from_sound a b c x (some (keyword Keyword.delimiters, d)) e at h =
    delimited_sound a b d c x (word e) at h
delimiters_from_sound a b c x _ e at h = cc

pub delimiter_from_sound :
    (a b : Input) (x : Option DefElem) (r : Option (Token × Input))
    → step a ≡ r
    → delimiter_from a r ≡ some (x, b)
    → CopyDelimiter a b x
unfolding delimiter_from
delimiter_from_sound a b x (some (keyword Keyword.using, c)) at h =
    delimiters_from_sound a c b x (step c) at refl h
delimiter_from_sound a b x (some (keyword Keyword.delimiters, c)) at h =
    delimited_sound a a c b x no_word at h
delimiter_from_sound a b x _ at h = returned (CopyDelimiter a) none x b a h no_delimiter

item_from_sound :
    (a b : Input) (x : DefElem) (r : Option (Token × Input))
    → step a ≡ r
    → item_from r ≡ some (x, b)
    → CopyOptItem a b x
unfolding item_from
item_from_sound a b x (some (keyword Keyword.null_p, c)) at h =
    let (v, d, got, rest) =
      continue_cases (text_from (step (skip_word is_as c))) (λ v c. some (null_of v, c)) x b h in
    returned (CopyOptItem a) (null_of v) x b d rest (
      null_item at (skip_word-OptWord is_as Keyword.as_p is_as-as_p c)
        (text_from_sound (skip_word is_as c) d v (step (skip_word is_as c)) refl got))
item_from_sound a b x (some (keyword Keyword.csv, c)) at h =
    returned (CopyOptItem a) _ x b c h (csv_item at)
item_from_sound a b x _ at h = cc

after_opt_sound :
    (go : List DefElem → Input → Option (List DefElem × Input)) (a b c : Input)
    (l l' : List DefElem) (r : Option (DefElem × Input))
    → ((l' : List DefElem) (b' : Input) (l'' : List DefElem)
        → CopyOptList a b' l'
        → go l' b' ≡ some (l'', c)
        → CopyOptList a c l'')
    → CopyOptList a b l
    → item_from (step b) ≡ r
    → after_opt go l b r ≡ some (l', c)
    → CopyOptList a c l'
unfolding after_opt
after_opt_sound go a b c l l' none ih d at h = returned (CopyOptList a) l l' c b h d
after_opt_sound go a b c l l' (some (x, b')) ih d at h =
    ih (l ++ x ∷ []) b' l' (more_opts d (item_from_sound b b' x (step b) refl at)) h

pub opts_loop_sound :
    (k : ℕ) (a b c : Input) (l l' : List DefElem)
    → CopyOptList a b l
    → opts_loop k l b ≡ some (l', c)
    → CopyOptList a c l'
unfolding opts_loop
opts_loop_sound zero a b c l l' d h = cc
opts_loop_sound (suc k) a b c l l' d h =
    after_opt_sound (opts_loop k) a b c l l' (item_from (step b))
      (λ m b' m' d' h'. opts_loop_sound k a b' c m m' d' h') d refl h
