-- ===== src/Sql/Descent/Tables/Lists.antt =====
-- parser/sql.lalrpop: what is read in a row, and lists with commas.
use kui_ba_db.Base.{ℕ, ◌<◌, ◌≡◌, refl, Option, none, some, length, List, [], ◌∷◌, ◌==◌, ==_iff}
use mathlib.Core.Path.{subst}
use kui_ba_db.Sql.Syntax.{RangeVar}
use kui_ba_db.Sql.Grammar.{punct, Input, Eats}
use kui_ba_db.Sql.Grammar.Tables.{
  CommaList, first_item, more_items, relation_named, QualifiedName, relation,
}
use kui_ba_db.Sql.Descent.{Parser, punctuation}
use kui_ba_db.Sql.Descent.Loop.{
  punctuation-Eats, Eats-punctuation, sequence_sound, Follows, Follows-first, Follows-next,
  Follows-end,
}
use kui_ba_db.Sql.Descent.Expressions.Sound.{returned}
use kui_ba_db.Sql.Descent.Queries.{parse_name}
use kui_ba_db.Sql.Descent.Queries.Sound.{parse_name_sound}
use kui_ba_db.Sql.Descent.Queries.Complete.{Ident-less, Ident-parse}
use kui_ba_db.Sql.Descent.Tables.{continue, mark, append_item, comma_list, parse_relation}

-- What was read in a row was read one after the other.
pub continue_cases :
    {A B : Type 0} (r : Option (A × Input)) (f : A → Input → Option (B × Input)) (y : B) (c : Input)
    → continue r f ≡ some (y, c)
    → (x : A) × (b : Input) × (r ≡ some (x, b)) × (f x b ≡ some (y, c))
unfolding continue
continue_cases none f y c h = cc
continue_cases (some (x, b)) f y c h = (x, b, refl, h)

pub mark-Eats : (c o : ℕ) (a b : Input) → mark c a ≡ some (o, b) → Eats (punct c) a b
unfolding mark
mark-Eats c o a b h =
    let (eats, is_mark) = punctuation-Eats (λ o. o == c) a b o h in
    subst (λ t. Eats (punct t) a b) ((==_iff o c).0 is_mark) eats

pub Eats-mark : (c : ℕ) (a b : Input) → Eats (punct c) a b → mark c a ≡ some (c, b)
unfolding mark
Eats-mark c a b e = Eats-punctuation (λ o. o == c) a b c e ((==_iff c c).1 refl)

module _ {I : Type 0} (item : Parser I) (Item : Input → Input → I → Type 0) where
  pub comma_list_sound :
      ((a b : Input) (x : I) → item a ≡ some (x, b) → Item a b x)
      → (a b : Input) (l : List I) → comma_list item a ≡ some (l, b)
      → CommaList Item a b l
  unfolding comma_list
  comma_list_sound sound a b l h =
      (sequence_sound (λ o. o == b',') item append_item (λ x. x ∷ []) Item (CommaList Item)
        (λ a b x d. first_item d)
        (λ a b c d l o x dl e is_comma dx.
          more_items dl (subst (λ t. Eats (punct t) b c) ((==_iff o b',').0 is_comma) e) dx)
        sound a b l h).0

  -- `Stops` says what an item needs behind it: a comma will do.
  module _ (Stops : Input → Type 0) (comma : (b c : Input) → Eats (punct b',') b c → Stops b)
      (less : (a b : Input) (x : I) → Item a b x → length b.rest < length a.rest)
      (parsed : (a b : Input) (x : I) → Item a b x → Stops b → item a ≡ some (x, b)) where
    CommaList-Follows :
        {a b : Input} {l : List I}
        → CommaList Item a b l
        → Stops b
        → Follows (λ o. o == b',') item append_item (λ x. x ∷ []) a b l
    CommaList-Follows (first_item {a = a} {b = b} {x = x} d) stops =
        Follows-first (λ o. o == b',') item append_item (λ x. x ∷ []) a b x (parsed a b x d stops)
    CommaList-Follows (more_items {a = a} {b = b} {c = c} {d = d} {l = l} {x = x} dl e dx) stops =
        Follows-next (λ o. o == b',') item append_item (λ x. x ∷ []) a b c d l b',' x
          (CommaList-Follows dl (comma b c e)) e refl (parsed c d x dx stops) (less c d x dx)

    pub CommaList-parse :
        {a b : Input} {l : List I}
        → CommaList Item a b l
        → Stops b
        → punctuation (λ o. o == b',') b ≡ none
        → comma_list item a ≡ some (l, b)
    unfolding comma_list
    CommaList-parse {a} {b} {l} d stops no_comma =
        Follows-end (λ o. o == b',') item append_item (λ x. x ∷ []) a b l
          (CommaList-Follows d stops) no_comma

pub parse_relation_sound :
    (a b : Input) (r : RangeVar) → parse_relation a ≡ some (r, b) → QualifiedName a b r
unfolding parse_relation
parse_relation_sound a b r h =
    let (n, c, at, rest) =
      continue_cases (parse_name a) (λ n b. some (relation_named n, b)) r b h in
    returned (QualifiedName a) (relation_named n) r b c rest (relation (parse_name_sound a c n at))

pub QualifiedName-parse :
    (a b : Input) (r : RangeVar) → QualifiedName a b r → parse_relation a ≡ some (r, b)
unfolding parse_relation continue
QualifiedName-parse a b r (relation d) = rw (Ident-parse d) refl

pub QualifiedName-less :
    (a b : Input) (r : RangeVar) → QualifiedName a b r → length b.rest < length a.rest
QualifiedName-less a b r (relation d) = Ident-less d
