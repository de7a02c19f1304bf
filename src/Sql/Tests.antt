-- ===== src/Sql/Tests.antt =====
-- The analysis over a catalogue with one operator, `+` on two int4.
use kui_ba_db.Base.{
  ℕ, ◌^◌, ◌<◌, ◌≤◌, ◌≡◌, refl, arith, ◌⊎◌, inl, ◌∷◌, [], List, Bytes, true, none, some, ok, err,
  eq_bytes, ◌==◌, ◌&&◌, if◌then◌else◌,
}
use mathlib.Core.Logic.{◌↔◌}
use kui_ba_db.Base.Int.{ℤ, pos}
use kui_ba_db.Base.Text.{codes, parse_i32}
use kui_ba_db.Base.Text.Decimal.{decimal}
use kui_ba_db.Oids.{Oid, OptOid, int4oid}
use kui_ba_db.Common.{Float}
use kui_ba_db.Utils.Ser.{Endian}
use kui_ba_db.Utils.Err.{Fallible, kbanyhow}
use kui_ba_db.Protocol.Errcodes.{errcode_undefined_function}
use kui_ba_db.Sql.Syntax as Syn
use kui_ba_db.Sql.Syntax.{
  StrVal, in_place, as_str, NumVal, int, float, neg_num, num, AExprKind, node, two, a_const, a_expr,
  Location, ResTarget, SelectStmt,
}
use kui_ba_db.Sql.Syntax.Numbers.{Balanced, Opposite, neg_num-involutive}
use kui_ba_db.Sql.Analyze.{FormOperator, FormProc, Backend, Expr, const, try_new, val_type}
use kui_ba_db.Sql.Analyze.Literals.{signed, try_new-decimal}
use kui_ba_db.Sql.Analyze.Hash.{hash_expr}
use kui_ba_db.Sql.Analyze.Hash.Total.{hash_expr-unplaced}
use kui_ba_db.Sql.Analyze.Transform.{ParseState, ParseExprKind, transform_expr, kb_analyze}
use kui_ba_db.Sql.Analyze.Transform.Elab.{Elab, Post, transform_expr-Post}
use kui_ba_db.Sql.Analyze.Transform.Types.{
  int4, int8, float8, HasType, typed_const, transform_expr-HasType,
}
use kui_ba_db.Sql.Analyze.Transform.Sessions.{Elaborates}
use kui_ba_db.Sql.Analyze.{func, func_expr, cons, nil}
use kui_ba_db.Sql.Analyze.Transform.Complete.{transform_expr_iff}
use kui_ba_db.Sql.Analyze.Transform.Targets.{AnalyzeSpec, kb_analyze-AnalyzeSpec}
use kui_ba_db.Sql.Grammar.{
  Keyword, Token, keyword, lowercase_id, integer, punct, Spanned, Input, step, left,
}
use kui_ba_db.Sql.Grammar.Terms.{AExpr}
use kui_ba_db.Sql.Descent.Actions.{is_add, is_mul, binary_at, constant_at, target_at}
use kui_ba_db.Sql.Grammar.Tables.{Modes}
use kui_ba_db.Sql.Grammar.Statements.{Query}
use kui_ba_db.Sql.Descent.{punctuation, sequence, read_integer, parse_expr}
use kui_ba_db.Sql.Descent.Expressions.{Ends}
use kui_ba_db.Sql.Descent.Equivalence.{Placed, parse_expr_iff}
use kui_ba_db.Sql.Descent.Queries.{parse_name, is_as, behind, parse_targets, parse_target, or_empty}
use kui_ba_db.Sql.Descent.Statements.{parse_query, query_of, finished, statement_from, selected}
use kui_ba_db.Sql.Descent.Statements.Equivalence.{parse_query_iff}

abbrev numbers : Float
numbers = record {
  Real = ℤ;
  parse_f64 = λ s. some (pos 0);
  of_i64 = λ n. n;
  show_f64 = λ n. codes "0";
}

abbrev plus_op : FormOperator
plus_op = record { oid = 551; oprcode = some 177 }

abbrev answer : List StrVal → OptOid → Oid → Fallible FormOperator
answer (in_place name ∷ []) (some left) right =
    if eq_bytes name (codes "+") && (left == int4oid && right == int4oid)
    then ok plus_op
    else err (kbanyhow errcode_undefined_function (codes "no operator"))
answer _ _ _ = err (kbanyhow errcode_undefined_function (codes "no operator"))

abbrev int4_proc : FormProc
int4_proc = record { prorettype = int4oid }

abbrev one_op : Backend numbers
one_op = record {
  Session = ℕ;
  Datums = ℤ;
  LockMode = ℕ;
  opername_get_oprid = λ name left right s. (answer name left right, s);
  get_proc = λ fn s. (ok int4_proc, s);
  new_i32 = λ n. n;
  new_i64 = λ n. n;
  new_f64 = λ n. n;
  new_varchar = λ t. pos 0;
  get_i32 = λ n. n;
  get_i64 = λ n. n;
  get_f64 = λ n. n;
  get_varchar = λ n. [];
  neg_f64 = λ n. n;
  f64_bits = λ n. 0;
  float_error = λ t. codes "invalid float literal";
  hash_type = λ t. t.id ∷ [];
  md5 = λ bs. bs;
}

abbrev at : ℕ → Location
at n = record { s = n; e = n }

abbrev number : ℕ → ℕ → Syn.Expr
number n k = a_const (record { val = num (int (pos n)); loc = at k })

abbrev one_plus_two : Syn.Expr
one_plus_two =
    a_expr (node AExprKind.op (in_place (codes "+") ∷ []) (two (number 1 7) (number 2 11)) (at 7))

abbrev begin_state : ParseState ℕ
begin_state = record { sess_state = 0; p_expr_kind = ParseExprKind.no_kind; p_next_resno = 1 }

abbrev constant : ℕ → Expr ℤ
constant k = const (record { typ = int4; v = pos 1; loc = at k })

neg_num-involutive_example :
    (w : NumVal) × (neg_num true (int (pos 5)) ≡ ok w)
    × Opposite (int (pos 5)) w
    × Balanced w
    × (neg_num true w ≡ ok (int (pos 5)))
neg_num-involutive_example = neg_num-involutive true (int (pos 5)) (omega arith)

transform_expr-Post_example :
    Post numbers one_op true
      (Elab numbers one_op true one_plus_two)
      begin_state
      (transform_expr numbers one_op true one_plus_two ParseExprKind.select_target begin_state)
transform_expr-Post_example =
    transform_expr-Post numbers one_op true one_plus_two ParseExprKind.select_target begin_state

transform_expr-HasType_example :
    Post numbers one_op true
      (λ e. HasType numbers one_op true e (val_type e))
      begin_state
      (transform_expr numbers one_op true one_plus_two ParseExprKind.select_target begin_state)
transform_expr-HasType_example =
    transform_expr-HasType numbers one_op true one_plus_two ParseExprKind.select_target begin_state

-- The operator is found only in the session 1, and looking it up leaves the session 2.
abbrev moving : Backend numbers
moving = record one_op {
  opername_get_oprid = λ name left right s. (
    if s == 1
        then answer name left right
        else err (kbanyhow errcode_undefined_function (codes "not in the search path")),
    2,
  );
  get_proc = λ fn s. (
    if s == 2
        then ok int4_proc
        else err (kbanyhow errcode_undefined_function (codes "no function")),
    3,
  );
}

abbrev searching : ParseState ℕ
searching = record { sess_state = 1; p_expr_kind = ParseExprKind.no_kind; p_next_resno = 1 }

abbrev sum : Expr ℤ
sum = func (
    func_expr int4oid 177
      (cons (const (record { typ = int4; v = pos 1; loc = at 7 }))
        (cons (const (record { typ = int4; v = pos 2; loc = at 11 })) nil))
      (at 7))

transform_expr_iff_example :
    (transform_expr numbers moving true one_plus_two ParseExprKind.select_target searching
      ≡ (ok sum, record searching { sess_state = 3 }))
    ↔ Elaborates numbers moving true 1 one_plus_two sum 3
transform_expr_iff_example = transform_expr_iff numbers moving true one_plus_two sum searching 3

abbrev select_one_plus_two : Syn.Stmt ℕ
select_one_plus_two =
    Syn.Stmt.select (record { tlist = record { name = none; val = one_plus_two; loc = at 7 } ∷ [] })

kb_analyze-AnalyzeSpec_example :
    AnalyzeSpec numbers one_op true 0 select_one_plus_two
      (kb_analyze numbers one_op true select_one_plus_two 0)
kb_analyze-AnalyzeSpec_example = kb_analyze-AnalyzeSpec numbers one_op true select_one_plus_two 0

try_new-decimal_example :
    ((decimal (codes "3000000000") < 2 ^ 63)
      × (try_new numbers one_op true
            (record { val = num (float true (codes "3000000000")); loc = at 7 })
          ≡ ok (record { typ = int8; v = signed true (decimal (codes "3000000000")); loc = at 7 })))
    ⊎ ((2 ^ 63 ≤ decimal (codes "3000000000"))
        × (try_new numbers one_op true
              (record { val = num (float true (codes "3000000000")); loc = at 7 })
            ≡ ok (record { typ = float8; v = pos 0; loc = at 7 })))
try_new-decimal_example =
    try_new-decimal numbers one_op true true (codes "3000000000") (at 7) (pos 0) (omega arith) refl

hash_expr-unplaced_example :
    (h : Bytes) × (hash_expr numbers one_op Endian.little (constant 7) ≡ some h)
    × (hash_expr numbers one_op Endian.little (constant 99) ≡ some h)
hash_expr-unplaced_example =
    hash_expr-unplaced numbers one_op Endian.little true (constant 7) (constant 99) int4oid
      (typed_const (inl refl)) refl

abbrev token_at : Token → ℕ → ℕ → Spanned
token_at t s e = record { token = t; s = s; e = e }

abbrev behind_name : Input
behind_name = record { last = 18; rest = token_at (punct b';') 18 19 ∷ [] }

abbrev behind_two : Input
behind_two = record {
  last = 13;
  rest =
      token_at (keyword Keyword.as_p) 14 16
      ∷ token_at (lowercase_id (codes "x")) 17 18
      ∷ behind_name.rest;
}

abbrev at_two : Input
at_two = record { last = 10; rest = token_at (integer (codes "2")) 12 13 ∷ behind_two.rest }

abbrev behind_one : Input
behind_one = record { last = 8; rest = token_at (punct b'-') 9 10 ∷ at_two.rest }

abbrev at_one : Input
at_one = record { last = 6; rest = token_at (integer (codes "1")) 7 8 ∷ behind_one.rest }

-- `select 1 - 2 as x;`
abbrev query_tokens : Input
query_tokens = record { last = 0; rest = token_at (keyword Keyword.select) 0 6 ∷ at_one.rest }

abbrev one_minus_two : Syn.Expr
one_minus_two =
    binary_at at_one (a_const (constant_at at_one (num (int (pos 1))) behind_one)) b'-'
      (a_const (constant_at at_two (num (int (pos 2))) behind_two)) behind_two

abbrev difference : SelectStmt
difference = record {
  tlist = target_at at_one (some (in_place (codes "x"))) one_minus_two behind_name ∷ [];
}

abbrev lock_modes : Modes ℕ
lock_modes = record {
  access_share = 1;
  row_share = 2;
  row_exclusive = 3;
  share_update_exclusive = 4;
  share = 5;
  share_row_exclusive = 6;
  exclusive = 7;
  access_exclusive = 8;
}

query_tokens-parse : parse_query lock_modes true query_tokens ≡ some (Syn.Stmt.select difference)
unfolding parse_query query_of finished statement_from selected or_empty parse_targets behind step
    punctuation sequence parse_target parse_expr is_mul is_add is_as parse_name read_integer
    parse_i32 left
query_tokens-parse = refl

query_tokens-Query : Query lock_modes true query_tokens (Syn.Stmt.select difference)
query_tokens-Query =
    (parse_query_iff lock_modes true query_tokens (Syn.Stmt.select difference) 5
        (token_at (punct b'-') 9 10) []).0.0
      query_tokens-parse

parse_query_iff_example :
    ((parse_query lock_modes true query_tokens ≡ some (Syn.Stmt.select difference))
      ↔ Query lock_modes true query_tokens (Syn.Stmt.select difference))
    × Placed 5 (token_at (punct b'-') 9 10) []
parse_query_iff_example =
    parse_query_iff lock_modes true query_tokens (Syn.Stmt.select difference) 5
      (token_at (punct b'-') 9 10) []

parse_expr_iff_example :
    ((parse_expr at_one ≡ some (one_minus_two, behind_two))
      ↔ (AExpr at_one behind_two one_minus_two × Ends behind_two))
    × Placed 5 (token_at (punct b'-') 9 10) []
parse_expr_iff_example =
    parse_expr_iff at_one behind_two one_minus_two 5 (token_at (punct b'-') 9 10) []
