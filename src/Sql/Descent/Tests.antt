-- ===== src/Sql/Descent/Tests.antt =====
-- parser/sql.lalrpop: the recursive descent on short queries.
use kui_ba_db.Base.{ℕ, [], ◌∷◌, ◌≡◌, refl, true, some}
use kui_ba_db.Base.Text.{codes}
use kui_ba_db.Sql.Syntax.{Stmt, in_place}
use kui_ba_db.Sql.Grammar.{Keyword, Token, keyword, lowercase_id, xb, punct, Spanned, Input, step}
use kui_ba_db.Sql.Grammar.Tables.{Modes}
use kui_ba_db.Sql.Descent.Actions.{relation_of, csv_opt, with_delimiter}
use kui_ba_db.Sql.Descent.{punctuation, sequence}
use kui_ba_db.Sql.Descent.Queries.{parse_name, behind}
use kui_ba_db.Sql.Descent.Tables.{continue, comma_list, parse_lock, parse_relation}
use kui_ba_db.Sql.Descent.Copies.{parse_copy, is_with}
use kui_ba_db.Sql.Descent.Statements.{parse_query}

abbrev at_zero : Token → Spanned
at_zero t = record { token = t; s = 0; e = 0 }

abbrev numbered : Modes ℕ
numbered = record {
  access_share = 1;
  row_share = 2;
  row_exclusive = 3;
  share_update_exclusive = 4;
  share = 5;
  share_row_exclusive = 6;
  exclusive = 7;
  access_exclusive = 8;
}

-- `lock t in row exclusive mode`
abbrev lock_tokens : Input
lock_tokens = record {
  last = 0;
  rest =
      at_zero (keyword Keyword.lock_p)
      ∷ at_zero (lowercase_id (codes "t"))
      ∷ at_zero (keyword Keyword.in_p)
      ∷ at_zero (keyword Keyword.row)
      ∷ at_zero (keyword Keyword.exclusive)
      ∷ at_zero (keyword Keyword.mode_p)
      ∷ [];
}

lock_tokens-parse :
    parse_query numbered true lock_tokens
    ≡ some (Stmt.lock (record { rels = relation_of (in_place (codes "t")) ∷ []; mode = 3 }))
unfolding parse_query step parse_lock continue comma_list sequence parse_relation parse_name
    punctuation
lock_tokens-parse = refl

-- `copy t from 'f' csv;`
abbrev copy_tokens : Input
copy_tokens = record {
  last = 0;
  rest =
      at_zero (keyword Keyword.copy)
      ∷ at_zero (lowercase_id (codes "t"))
      ∷ at_zero (keyword Keyword.from)
      ∷ at_zero (xb (codes "'f'"))
      ∷ at_zero (keyword Keyword.csv)
      ∷ at_zero (punct b';')
      ∷ [];
}

copy_tokens-parse :
    parse_query numbered true copy_tokens
    ≡ some (
        Stmt.copy (record {
          rel = relation_of (in_place (codes "t"));
          from = true;
          filename = in_place (codes "f");
          opts = csv_opt ∷ [];
        }))
unfolding parse_query step parse_copy parse_name punctuation behind is_with with_delimiter
copy_tokens-parse = refl
