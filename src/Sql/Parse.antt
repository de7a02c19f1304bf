-- ===== src/Sql/Parse.antt =====
-- parser.rs: `parse`. The parser that lalrpop generates is given: on a query it returns a statement or
-- an error, whose `{:#}` is `show_alternate`.
use kui_ba_db.Base.{Bytes, ◌++◌, ◌⊎◌, inl, inr, ok, err}
use kui_ba_db.Base.Text.{codes}
use kui_ba_db.Utils.Err.{Fallible, kbanyhow}
use kui_ba_db.Protocol.Errcodes.{errcode_syntax_error}

module _ {S E : Type 0} (show_alternate : E → Bytes) (run : Bytes → S ⊎ E) where
  parsed : Bytes → S ⊎ E → Fallible S
  parsed query (inl v) = ok v
  parsed query (inr e) = err (
      kbanyhow errcode_syntax_error
        (codes "parse error: query=" ++ query ++ codes " e=" ++ show_alternate e))

  pub parse : Bytes → Fallible S
  parse query = parsed query (run query)
