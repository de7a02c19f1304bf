-- ===== src/Sql/Analyze/Transform/Types.antt =====
-- parser/sem.rs: the types of the expressions that the analysis makes.
use kui_ba_db.Base.{
  ◌≡◌, ◌⊎◌, inl, inr, List, Bytes, Bool, Option, none, some, ok, bind-eq-ok, if◌then◌else◌,
}
use kui_ba_db.Base.Int.{ℤ, pos, negsuc}
use kui_ba_db.Oids.{Oid, int4oid, int8oid, float8oid, varcharoid}
use kui_ba_db.Common.{Float}
use kui_ba_db.Sql.Syntax as Syn
use kui_ba_db.Sql.Syntax.{
  StrVal, Location, AConst, Value, num, str, int, float, checked_neg, min_i64,
}
use kui_ba_db.Sql.Analyze.{
  TypeDesc, Backend, Const, Expr, const, func, func_expr, nil, cons, val_type, Literal, i64_literal,
  f64_literal, float_literal, literal, try_new,
}
use kui_ba_db.Sql.Analyze.Transform.{ParseState, ParseExprKind, transform_expr}
use kui_ba_db.Sql.Analyze.Transform.Elab.{
  Operator, Elab, elab_const, elab_one, elab_two, Post, Post-map, transform_expr-Post,
}

-- The types of literals.
abbrev pub int4 : TypeDesc
int4 = record { id = int4oid; len = pos 4; align = 4; mode = negsuc 0 }

abbrev pub int8 : TypeDesc
int8 = record { id = int8oid; len = pos 8; align = 8; mode = negsuc 0 }

abbrev pub float8 : TypeDesc
float8 = record { id = float8oid; len = pos 8; align = 8; mode = negsuc 0 }

abbrev pub varchar : TypeDesc
varchar = record { id = varcharoid; len = negsuc 0; align = 8; mode = negsuc 0 }

abbrev pub LiteralType : TypeDesc → Type 0
LiteralType t = (t ≡ int4) ⊎ (t ≡ int8) ⊎ (t ≡ float8) ⊎ (t ≡ varchar)

module _ (f : Float) (b : Backend f) (debug : Bool) where
  -- A literal has one of the literal types. A call has the result type of a function that the
  -- catalogue gives for the operator on the types of its arguments.
  pub data HasType : Expr b.Datums → Oid → Type 0 where
    typed_const : {c : Const b.Datums} → LiteralType c.typ → HasType (const c) c.typ.id
    typed_one :
        {name : List StrVal} {e : Expr b.Datums} {loc : Location} {right fn ret : Oid}
        → HasType e right
        → Operator f b debug name none right fn ret
        → HasType (func (func_expr ret fn (cons e nil) loc)) ret
    typed_two :
        {name : List StrVal} {l r : Expr b.Datums} {loc : Location} {left right fn ret : Oid}
        → HasType l left
        → HasType r right
        → Operator f b debug name (some left) right fn ret
        → HasType (func (func_expr ret fn (cons l (cons r nil)) loc)) ret

  abbrev desc : Literal b.Datums → TypeDesc
  desc c = record { id = c.id; len = c.len; align = c.align; mode = negsuc 0 }

  f64_literal-LiteralType :
      (sign : Bool) (v : Bytes) (o : Option f.Real) (c : Literal b.Datums)
      → f64_literal f b debug sign v o ≡ ok c
      → desc c ≡ float8
  unfolding f64_literal
  f64_literal-LiteralType sign v none c h = cc
  f64_literal-LiteralType sign v (some x) c h = cc

  i64_literal-int8 :
      (sign : Bool) (i : ℤ) (c : Literal b.Datums)
      → i64_literal f b debug sign i ≡ ok c
      → desc c ≡ int8
  unfolding i64_literal
  i64_literal-int8 sign i c h =
      let (w, e, g) = bind-eq-ok (if sign then checked_neg debug min_i64 i else ok i) _ h in cc

  float_literal-LiteralType :
      (sign : Bool) (v : Bytes) (o : Option ℤ) (c : Literal b.Datums)
      → float_literal f b debug sign v o ≡ ok c
      → (desc c ≡ int8) ⊎ (desc c ≡ float8)
  unfolding float_literal
  float_literal-LiteralType sign v none c h = inr (f64_literal-LiteralType sign v _ c h)
  float_literal-LiteralType sign v (some i) c h = inl (i64_literal-int8 sign i c h)

  literal-LiteralType :
      (v : Value) (c : Literal b.Datums) → literal f b debug v ≡ ok c → LiteralType (desc c)
  unfolding literal
  literal-LiteralType (num (int i)) c h = inl cc
  literal-LiteralType (num (float sign v)) c h = elim (float_literal-LiteralType sign v _ c h) [
    | inl e ↦ inr (inl e)
    | inr e ↦ inr (inr (inl e))
  ]
  literal-LiteralType (str s) c h = inr (inr (inr cc))

  try_new-LiteralType :
      (v : AConst) (c : Const b.Datums) → try_new f b debug v ≡ ok c → LiteralType c.typ
  unfolding try_new
  try_new-LiteralType v c h =
      let (l, e, g) = bind-eq-ok (literal f b debug v.val) _ h in
      let same : desc l ≡ c.typ = cc in rw (← same) (literal-LiteralType v.val l e)

  Elab-HasType :
      (e : Syn.Expr) (e' : Expr b.Datums) → Elab f b debug e e' → HasType e' (val_type e')
  unfolding val_type
  Elab-HasType _ _ (elab_const {v} {c} h) = typed_const (try_new-LiteralType v c h)
  Elab-HasType _ _ (elab_one {e = e} {e' = e'} h oper) = typed_one (Elab-HasType e e' h) oper
  Elab-HasType _ _ (elab_two {l = l} {r = r} {l' = l'} {r' = r'} hl hr oper) =
      typed_two (Elab-HasType l l' hl) (Elab-HasType r r' hr) oper

  -- Every expression that `transform_expr` returns is well typed, and `val_type` is its type.
  pub transform_expr-HasType :
      (e : Syn.Expr) (ekind : ParseExprKind) (p : ParseState b.Session)
      → Post f b debug (λ e'. HasType e' (val_type e')) p (transform_expr f b debug e ekind p)
  transform_expr-HasType e ekind p =
      Post-map f b debug (Elab f b debug e) _ p _ (λ e' h. Elab-HasType e e' h)
        (transform_expr-Post f b debug e ekind p)
