-- ===== src/Sql/Descent/Loop.antt =====
-- parser/sql.lalrpop: a loop over items reads what left recursion derives, and the other way round.
use kui_ba_db.Base.{
  ℕ, zero, suc, ◌<◌, ◌≡◌, refl, sym, ap, ◌∙◌, arith, Bool, true, false, Option, none, some, length,
  List, [], ◌∷◌,
}
use mathlib.Core.Path.{subst}
use kui_ba_db.Sql.Grammar.{Token, punct, Spanned, Input, step, take_first, Eats}
use kui_ba_db.Sql.Descent.{
  Parser, punctuation, marked_by, after_item, after_mark, loop, after_first, sequence,
}

-- A terminal takes a token.
take_first-length :
    (t : Token) (ts : List Spanned) (b : Input)
    → take_first ts ≡ some (t, b)
    → length ts ≡ suc (length b.rest)
unfolding take_first
take_first-length t [] b e = cc
take_first-length t (x ∷ ts) b e = let r : ts ≡ b.rest = ground arith in rw r refl

-- A terminal takes a token.
pub Eats-size : (t : Token) (a b : Input) → Eats t a b → length a.rest ≡ suc (length b.rest)
unfolding step
Eats-size t a b e = take_first-length t a.rest b e

pub punctuation-Eats :
    (is : ℕ → Bool) (a b : Input) (o : ℕ)
    → punctuation is a ≡ some (o, b)
    → Eats (punct o) a b × (is o ≡ true)
unfolding punctuation marked_by
punctuation-Eats is a b o e = go (step a) refl e
  where
    go :
        (r : Option (Token × Input))
        → step a ≡ r
        → marked_by is r ≡ some (o, b)
        → (step a ≡ some (punct o, b)) × (is o ≡ true)
    go none at h = unfold marked_by in cc
    go (some (punct c, d)) at h = unfold marked_by in ground arith
    go (some (Token.keyword k, d)) at h = unfold marked_by in cc
    go (some (Token.lowercase_id v, d)) at h = unfold marked_by in cc
    go (some (Token.id v, d)) at h = unfold marked_by in cc
    go (some (Token.decimal v, d)) at h = unfold marked_by in cc
    go (some (Token.integer v, d)) at h = unfold marked_by in cc
    go (some (Token.xb v, d)) at h = unfold marked_by in cc

pub Eats-punctuation :
    (is : ℕ → Bool) (a b : Input) (o : ℕ)
    → Eats (punct o) a b
    → is o ≡ true
    → punctuation is a ≡ some (o, b)
unfolding punctuation marked_by
Eats-punctuation is a b o e h = rw (e, h) refl

pub Eats-not_punctuation :
    (is : ℕ → Bool) (a b : Input) (o : ℕ)
    → Eats (punct o) a b
    → is o ≡ false
    → punctuation is a ≡ none
unfolding punctuation marked_by
Eats-not_punctuation is a b o e h = rw (e, h) refl

module _ {I A : Type 0} (is : ℕ → Bool) (item : Parser I)
    (join : Input → A → ℕ → I → Input → A) where
  -- What was read from `a` is `acc`, and the loop goes on behind it with enough fuel.
  pub record Follows (start : I → A) (a b : Input) (acc : A) : Type 0 where
    pub fuel : ℕ
    pub enough : length b.rest < fuel
    pub follows : sequence is item join start a ≡ loop is item join fuel a acc b

  pub Follows-first :
      (start : I → A) (a b : Input) (x : I) → item a ≡ some (x, b) → Follows start a b (start x)
  unfolding sequence after_first
  Follows-first start a b x e = record {
    fuel = suc (length b.rest);
    enough = omega arith;
    follows = rw e refl;
  }

  pub Follows-next :
      (start : I → A) (a b c d : Input) (acc : A) (o : ℕ) (x : I)
      → Follows start a b acc
      → Eats (punct o) b c
      → is o ≡ true
      → item c ≡ some (x, d)
      → length d.rest < length c.rest
      → Follows start a d (join a acc o x d)
  Follows-next start a b c d acc o x f e h i less = go f.fuel f.enough f.follows
    where
      go :
          (k : ℕ)
          → length b.rest < k
          → sequence is item join start a ≡ loop is item join k a acc b
          → Follows start a d (join a acc o x d)
      go zero lt eq = absurd (omega arith)
      go (suc k) lt eq = record {
        fuel = k;
        enough = omega (arith, Eats-size (punct o) b c e);
        follows =
            eq ∙ (unfold loop after_mark after_item in rw (Eats-punctuation is b c o e h, i) refl);
      }

  pub Follows-end :
      (start : I → A) (a b : Input) (acc : A)
      → Follows start a b acc
      → punctuation is b ≡ none
      → sequence is item join start a ≡ some (acc, b)
  Follows-end start a b acc f e = go f.fuel f.enough f.follows
    where
      go :
          (k : ℕ)
          → length b.rest < k
          → sequence is item join start a ≡ loop is item join k a acc b
          → sequence is item join start a ≡ some (acc, b)
      go zero lt eq = absurd (omega arith)
      go (suc k) lt eq = eq ∙ (unfold loop after_mark in rw e refl)

  -- What the loop returns is derived, if the first item and each next one is.
  module _ (start : I → A) (D : Input → Input → I → Type 0) (E : Input → Input → A → Type 0)
      (first : (a b : Input) (x : I) → D a b x → E a b (start x))
      (next : (a b c d : Input) (acc : A) (o : ℕ) (x : I)
        → E a b acc
        → Eats (punct o) b c
        → is o ≡ true
        → D c d x
        → E a d (join a acc o x d))
      (sound : (a b : Input) (x : I) → item a ≡ some (x, b) → D a b x) where
    after_mark_sound :
        (go : A → Input → Option (A × Input)) (a b d : Input) (acc x : A) (m : Option (ℕ × Input))
        → ((acc' : A) (b' : Input)
            → E a b' acc'
            → go acc' b' ≡ some (x, d)
            → E a d x × (punctuation is d ≡ none))
        → E a b acc
        → punctuation is b ≡ m
        → after_mark is item join go a acc b m ≡ some (x, d)
        → E a d x × (punctuation is d ≡ none)
    unfolding after_mark
    after_mark_sound go a b d acc x none ih e at h =
        let y : acc ≡ x = ground arith in
        let z : b ≡ d = ground arith in
        (subst (λ t. E a t x) z (subst (λ t. E a b t) y e), ap (punctuation is) (sym z) ∙ at)
    after_mark_sound go a b d acc x (some (o, c)) ih e at h = item_read (item c) refl h
      where
        item_read :
            (r : Option (I × Input))
            → item c ≡ r
            → after_item is item join go a acc o r ≡ some (x, d)
            → E a d x × (punctuation is d ≡ none)
        item_read none got h = unfold after_item in cc
        item_read (some (y, b')) got h =
            let (eats, yes_mark) = punctuation-Eats is b c o at in
            ih (join a acc o y b') b' (next a b c b' acc o y e eats yes_mark (sound c b' y got))
              (unfold after_item in h)

    loop_sound :
        (k : ℕ) (a b d : Input) (acc x : A)
        → E a b acc
        → loop is item join k a acc b ≡ some (x, d)
        → E a d x × (punctuation is d ≡ none)
    unfolding loop
    loop_sound zero a b d acc x e h = cc
    loop_sound (suc k) a b d acc x e h =
        after_mark_sound (loop is item join k a) a b d acc x (punctuation is b)
          (λ acc' b' e' h'. loop_sound k a b' d acc' x e' h') e refl h

    pub sequence_sound :
        (a b : Input) (x : A)
        → sequence is item join start a ≡ some (x, b)
        → E a b x × (punctuation is b ≡ none)
    unfolding sequence
    sequence_sound a b x h = go (item a) refl h
      where
        go :
            (r : Option (I × Input))
            → item a ≡ r
            → after_first is item join start a r ≡ some (x, b)
            → E a b x × (punctuation is b ≡ none)
        go none at h = unfold after_first in cc
        go (some (y, c)) at h =
            loop_sound (suc (length c.rest)) a c b (start y) x (first a c y (sound a c y at))
              (unfold after_first in h)
