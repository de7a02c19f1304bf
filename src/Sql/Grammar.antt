-- ===== src/Sql/Grammar.antt =====
-- parser/sql.lalrpop: the tokens, and what a production sees of the input. The lexer is generated
-- from the regular expressions of the file, and its tokens are given: each has the text that its
-- production uses, and the place where it starts and ends in the query.
pub mod Terms
pub mod Values
pub mod Tables
pub mod Statements
pub mod Copies
use kui_ba_db.Base.{ℕ, List, [], ◌∷◌, Bytes, Option, none, some, ◌≡◌}

pub data Keyword : Type 0 where
  csv null_p delimiters using copy with_p mode_p select as_p create type_p to from in_p set show
        true_p begin_p abort_p commit_p false_p int_p smallint table varchar lock_p access row share
        exclusive update :
      Keyword

-- The terminals; a punctuation mark is its character.
pub data Token : Type 0 where
  keyword : Keyword → Token
  lowercase_id id decimal integer xb : Bytes → Token
  punct : ℕ → Token

pub record Spanned : Type 0 where
  pub token : Token
  pub s : ℕ
  pub e : ℕ

-- The tokens that are left, and the end of the last one that was taken.
pub record Input : Type 0 where
  pub last : ℕ
  pub rest : List Spanned

unfoldable pub first_start : ℕ → List Spanned → ℕ
first_start last [] = last
first_start last (t ∷ ts) = t.s

-- `@L`; `@R` is `last`.
unfoldable pub left : Input → ℕ
unfolding first_start
left a = first_start a.last a.rest

unfoldable pub take_first : List Spanned → Option (Token × Input)
take_first [] = none
take_first (t ∷ ts) = some (t.token, record { last = t.e; rest = ts })

unfoldable pub step : Input → Option (Token × Input)
unfolding take_first
step a = take_first a.rest

-- A terminal of a production.
abbrev pub Eats : Token → Input → Input → Type 0
Eats t a b = step a ≡ some (t, b)
