-- ===== src/Sql/Analyze/Transform/Sessions.antt =====
-- parser/sem.rs: elaboration with the session handed on from one question to the catalogue to the
-- next, and a call of an operator.
use kui_ba_db.Base.{◌≡◌, refl, ap, ◌∙◌, arith, List, Bool, none, some, ok, err, panic}
use kui_ba_db.Oids.{Oid, OptOid}
use kui_ba_db.Common.{Float}
use kui_ba_db.Utils.Err.{Fallible}
use kui_ba_db.Sql.Steps.{Step, continue}
use kui_ba_db.Sql.Syntax as Syn
use kui_ba_db.Sql.Syntax.{
  StrVal, Location, AConst, AExprKind, AExpr, AExprOprands, node, one, two, a_const, a_expr,
}
use kui_ba_db.Sql.Analyze.{
  FormOperator, FormProc, Backend, Const, const, func, Expr, FuncExpr, func_expr, Args, nil, cons,
  val_type, try_new,
}
use kui_ba_db.Sql.Analyze.Transform.{
  ParseState, Parse, keep_session, in_session, oprcode_of, make_func,
}

module _ (f : Float) (b : Backend f) (debug : Bool) where
  -- In the session `s` the catalogue finds an operator of this name for these operand types, and in
  -- the session that this leaves, its function `fn`, of the result type `ret`; that leaves `s'`.
  pub record Finds (name : List StrVal) (left : OptOid) (right fn ret : Oid) (s s' : b.Session)
      : Type 0 where
    pub op : FormOperator
    pub proc : FormProc
    pub between : b.Session
    pub found : b.opername_get_oprid name left right s ≡ (ok op, between)
    pub code : op.oprcode ≡ some fn
    pub called : b.get_proc fn between ≡ (ok proc, s')
    pub result : proc.prorettype ≡ ret

  -- From the session `s`, the expression of the query is elaborated, and the session is then `s'`:
  -- the operands from left to right, then the operator.
  pub data Elaborates : b.Session → Syn.Expr → Expr b.Datums → b.Session → Type 0 where
    literal :
        {s : b.Session} {v : AConst} {c : Const b.Datums}
        → try_new f b debug v ≡ ok c
        → Elaborates s (a_const v) (const c) s
    unary_op :
        {s s1 s' : b.Session} {kind : AExprKind} {name : List StrVal} {e : Syn.Expr}
        {loc : Location} {e' : Expr b.Datums} {fn ret : Oid}
        → Elaborates s e e' s1
        → Finds name none (val_type e') fn ret s1 s'
        → Elaborates s
            (a_expr (node kind name (one e) loc))
            (func (func_expr ret fn (cons e' nil) loc))
            s'
    binary_op :
        {s s1 s2 s' : b.Session} {kind : AExprKind} {name : List StrVal} {l r : Syn.Expr}
        {loc : Location} {l' r' : Expr b.Datums} {fn ret : Oid}
        → Elaborates s l l' s1
        → Elaborates s1 r r' s2
        → Finds name (some (val_type l')) (val_type r') fn ret s2 s'
        → Elaborates s
            (a_expr (node kind name (two l r) loc))
            (func (func_expr ret fn (cons l' (cons r' nil)) loc))
            s'

  abbrev pub Returned : Type 0 → Type 0
  Returned A = Fallible A × ParseState b.Session

  -- The state in another session.
  abbrev pub within : ParseState b.Session → b.Session → ParseState b.Session
  within p s = record p { sess_state = s }

  pub same_ok :
      {A : Type 0} {x y : A} {p q : ParseState b.Session}
      → ◌≡◌ {A = Returned A} (ok x, p) (ok y, q)
      → (x ≡ y) × (p ≡ q)
  same_ok e = ground arith

  pub continue_cases :
      {A B : Type 0} (r : Returned A) (k : A → Parse f b debug B) (y : B) (q : ParseState b.Session)
      → continue r k ≡ (ok y, q)
      → (x : A) × (p : ParseState b.Session) × (r ≡ (ok x, p)) × (k x p ≡ (ok y, q))
  unfolding continue
  continue_cases (ok x, p) k y q h = (x, p, refl, h)
  continue_cases (err x, p) k y q h = cc
  continue_cases (panic, p) k y q h = cc

  pub continue-ok :
      {A B : Type 0} (r : Returned A) (k : A → Parse f b debug B) (x : A) (p : ParseState b.Session)
      (y : Returned B)
      → r ≡ (ok x, p)
      → k x p ≡ y
      → continue r k ≡ y
  unfolding continue
  continue-ok r k x p y e h = rw e h

  in_session_cases :
      {A : Type 0} (m : Step b.Session A) (x : A) (p q : ParseState b.Session)
      → in_session f b debug m p ≡ (ok x, q)
      → (s : b.Session) × (m p.sess_state ≡ (ok x, s)) × (within p s ≡ q)
  unfolding in_session
  in_session_cases m x p q h = go (m p.sess_state) refl h
    where
      go :
          (r : Fallible _ × b.Session)
          → m p.sess_state ≡ r
          → keep_session f b debug p r ≡ (ok x, q)
          → (s : b.Session) × (m p.sess_state ≡ (ok x, s)) × (within p s ≡ q)
      go (ok y, s) e h =
          unfold keep_session in let (ey, eq) = same_ok h in (s, e ∙ ap (λ t. (ok t, s)) ey, eq)
      go (err y, s) e h = unfold keep_session in cc
      go (panic, s) e h = unfold keep_session in cc

  in_session-ok :
      {A : Type 0} (m : Step b.Session A) (x : A) (p : ParseState b.Session) (s : b.Session)
      → m p.sess_state ≡ (ok x, s)
      → in_session f b debug m p ≡ (ok x, within p s)
  unfolding in_session keep_session
  in_session-ok m x p s e = rw e refl

  oprcode_cases :
      (op : FormOperator) (o : OptOid) (fn : Oid) → oprcode_of f b debug op o ≡ ok fn → o ≡ some fn
  unfolding oprcode_of
  oprcode_cases op none fn h = cc
  oprcode_cases op (some v) fn h = cc

  module _ (name : List StrVal) (left : OptOid) (right : Oid) (args : Args b.Datums)
      (loc : Location) where
    abbrev pub call : ParseState b.Session → Returned (FuncExpr b.Datums)
    call p =
        continue (in_session f b debug (b.opername_get_oprid name left right) p)
          (make_func f b debug args loc)

    abbrev pub Calls : ParseState b.Session → FuncExpr b.Datums → ParseState b.Session → Type 0
    Calls p x q =
        (fn ret : Oid) × (s : b.Session) × Finds name left right fn ret p.sess_state s
        × (func_expr ret fn args loc ≡ x)
        × (within p s ≡ q)

    pub call-Calls :
        (p : ParseState b.Session) (x : FuncExpr b.Datums) (q : ParseState b.Session)
        → call p ≡ (ok x, q)
        → Calls p x q
    unfolding make_func
    call-Calls p x q h =
        let (op, p1, h1, k1) = continue_cases _ _ x q h in
        let (s1, e1, w1) = in_session_cases (b.opername_get_oprid name left right) op p p1 h1 in
        let (fn, p2, h2, k2) = continue_cases _ _ x q k1 in
        let moved : within p s1 ≡ p2 = w1 ∙ ap (λ t. t.1) h2 in
        let (proc, p3, h3, k3) = continue_cases _ _ x q k2 in
        let (s3, e3, w3) = in_session_cases (b.get_proc fn) proc p2 p3 h3 in
        let (ex, eq) = same_ok k3 in
        (
          fn,
          proc.prorettype,
          s3,
          record {
            op = op;
            proc = proc;
            between = s1;
            found = e1;
            code = oprcode_cases op op.oprcode fn (ap (λ t. t.0) h2);
            called = ap (λ t. b.get_proc fn (t.sess_state)) moved ∙ e3;
            result = refl;
          },
          ex,
          ap (λ t. within t s3) moved ∙ w3 ∙ eq,
        )

    pub Finds-call :
        (fn ret : Oid) (p : ParseState b.Session) (s : b.Session)
        → Finds name left right fn ret p.sess_state s
        → call p ≡ (ok (func_expr ret fn args loc), within p s)
    unfolding make_func
    Finds-call fn ret p s o =
        continue-ok _ _ o.op (within p o.between) _
          (in_session-ok (b.opername_get_oprid name left right) o.op p o.between o.found)
          (continue-ok _ _ fn (within p o.between) _ (rw o.code (unfold oprcode_of in refl)) (
            continue-ok _ _ o.proc (within p s) _
              (in_session-ok (b.get_proc fn) o.proc (within p o.between) s o.called)
              (ap (λ t. (ok (func_expr t fn args loc), within p s)) o.result)))
