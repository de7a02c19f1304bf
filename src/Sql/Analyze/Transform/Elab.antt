-- ===== src/Sql/Analyze/Transform/Elab.antt =====
-- parser/sem.rs: which expressions `transform_expr_recurse` makes, by rules of elaboration over the
-- catalogue's answers.
use kui_ba_db.Base.{
  Bool-cases, inl, inr, ◌&&◌, ◌≡◌, refl, ◌∙◌, List, Bool, none, some, ok, err, panic,
}
use kui_ba_db.Oids.{Oid, OptOid}
use kui_ba_db.Common.{Float}
use kui_ba_db.Utils.Err.{Fallible}
use kui_ba_db.Sql.Steps.{Step, continue, lift}
use kui_ba_db.Sql.Syntax as Syn
use kui_ba_db.Sql.Syntax.{
  StrVal, Location, AConst, AExprKind, AExpr, node, AExprOprands, one, two, a_const, a_expr,
}
use kui_ba_db.Sql.Analyze.{
  FormOperator, FormProc, Backend, Const, Expr, const, func, FuncExpr, func_expr, Args, nil, cons,
  val_type, try_new,
}
use kui_ba_db.Sql.Analyze.Transform.{
  ParseState, Parse, keep_session, in_session, binary_oper_exact, oper, left_oper, oprcode_of,
  make_func, make_op, transform_expr_recurse, transform_a_expr_op, transform_oprands,
  transform_expr, restore, is_no_kind, ParseExprKind,
}

-- The step returns this in some state.
abbrev pub Gives {ℓ κ} : {S : Type κ} {A : Type ℓ} → Step S A → A → Type (ℓ ⊔ κ)
Gives {S = S} m a = (s s' : S) × (m s ≡ (ok a, s'))

module _ (f : Float) (b : Backend f) (debug : Bool) where
  -- The catalogue has an operator of this name for these operand types; it is the function `fn`,
  -- whose result is of the type `ret`.
  pub record Operator (name : List StrVal) (left : OptOid) (right fn ret : Oid) : Type 0 where
    pub op : FormOperator
    pub proc : FormProc
    pub found : Gives (b.opername_get_oprid name left right) op
    pub code : op.oprcode ≡ some fn
    pub called : Gives (b.get_proc fn) proc
    pub result : proc.prorettype ≡ ret

  -- An expression of the query and what the analysis makes of it.
  pub data Elab : Syn.Expr → Expr b.Datums → Type 0 where
    elab_const :
        {v : AConst} {c : Const b.Datums} → try_new f b debug v ≡ ok c → Elab (a_const v) (const c)
    elab_one :
        {kind : AExprKind} {name : List StrVal} {e : Syn.Expr} {loc : Location} {e' : Expr b.Datums}
        {fn ret : Oid}
        → Elab e e'
        → Operator name none (val_type e') fn ret
        → Elab (a_expr (node kind name (one e) loc)) (func (func_expr ret fn (cons e' nil) loc))
    elab_two :
        {kind : AExprKind} {name : List StrVal} {l r : Syn.Expr} {loc : Location}
        {l' r' : Expr b.Datums} {fn ret : Oid}
        → Elab l l'
        → Elab r r'
        → Operator name (some (val_type l')) (val_type r') fn ret
        → Elab
            (a_expr (node kind name (two l r) loc))
            (func (func_expr ret fn (cons l' (cons r' nil)) loc))

  -- The kind of expression and the next number are as before.
  abbrev pub Same : ParseState b.Session → ParseState b.Session → Type 0
  Same p p' = (p'.p_expr_kind ≡ p.p_expr_kind) × (p'.p_next_resno ≡ p.p_next_resno)

  -- What a step that began in `p` returns, and that it keeps these.
  abbrev pub Post :
      {A : Type 0}
      → (A → Type 0)
      → ParseState b.Session
      → Fallible A × ParseState b.Session
      → Type 0
  Post Q p (ok a, p') = Q a × Same p p'
  Post Q p (err e, p') = Same p p'
  Post Q p (panic, p') = Same p p'

  weaken :
      {A : Type 0} (Q : A → Type 0) (p p' : ParseState b.Session)
      (r : Fallible A × ParseState b.Session)
      → Same p p'
      → Post Q p' r
      → Post Q p r
  weaken Q p p' (ok a, s) (k, n) (q, (k', n')) = (q, (k' ∙ k, n' ∙ n))
  weaken Q p p' (err e, s) (k, n) (k', n') = (k' ∙ k, n' ∙ n)
  weaken Q p p' (panic, s) (k, n) (k', n') = (k' ∙ k, n' ∙ n)

  Post-continue :
      {A B : Type 0} (Q : A → Type 0) (R : B → Type 0) (p : ParseState b.Session)
      (r : Fallible A × ParseState b.Session) (k : A → Parse f b debug B)
      → Post Q p r
      → ((a : A) → Q a → (p' : ParseState b.Session) → Post R p' (k a p'))
      → Post R p (continue r k)
  unfolding continue
  Post-continue Q R p (ok a, p') k (q, same) h = weaken R p p' (k a p') same (h a q p')
  Post-continue Q R p (err e, p') k same h = same
  Post-continue Q R p (panic, p') k same h = same

  Post-lift :
      {A : Type 0} (r : Fallible A) (p : ParseState b.Session) → Post (λ a. r ≡ ok a) p (lift r p)
  Post-lift (ok a) p = (refl, (refl, refl))
  Post-lift (err e) p = (refl, refl)
  Post-lift panic p = (refl, refl)

  Post-in_session :
      {A : Type 0} (m : Step b.Session A) (p : ParseState b.Session)
      → Post (Gives m) p (in_session f b debug m p)
  unfolding in_session
  Post-in_session m p = go (m p.sess_state) refl
    where
      go :
          (r : Fallible _ × b.Session)
          → m p.sess_state ≡ r
          → Post (Gives m) p (keep_session f b debug p r)
      go (ok a, s) e = unfold keep_session in ((p.sess_state, s, e), (refl, refl))
      go (err x, s) e = unfold keep_session in (refl, refl)
      go (panic, s) e = unfold keep_session in (refl, refl)

  oprcode_of-code :
      (op : FormOperator) (o : OptOid) (fn : Oid) → oprcode_of f b debug op o ≡ ok fn → o ≡ some fn
  unfolding oprcode_of
  oprcode_of-code op none fn h = cc
  oprcode_of-code op (some v) fn h = cc

  -- A call of the function of such an operator.
  abbrev CallOf : List StrVal → OptOid → Oid → Args b.Datums → Location → FuncExpr b.Datums → Type 0
  CallOf name left right args loc x =
      (fn ret : Oid) × (x ≡ func_expr ret fn args loc) × Operator name left right fn ret

  module _ (name : List StrVal) (left : OptOid) (right : Oid) (args : Args b.Datums)
      (loc : Location) where
    make_func-CallOf :
        (op : FormOperator)
        → Gives (b.opername_get_oprid name left right) op
        → (p : ParseState b.Session)
        → Post (CallOf name left right args loc) p (make_func f b debug args loc op p)
    unfolding make_func
    make_func-CallOf op found p =
        Post-continue _ _ p (lift (oprcode_of f b debug op op.oprcode) p) _ (Post-lift _ p)
          (λ fn code p1.
            Post-continue _ _ p1 _ _ (Post-in_session (b.get_proc fn) p1) (λ proc called p2. (
              (
                fn,
                proc.prorettype,
                refl,
                (record {
                  op = op;
                  proc = proc;
                  found = found;
                  code = oprcode_of-code op op.oprcode fn code;
                  called = called;
                  result = refl;
                }),
              ),
              (refl, refl),
            )))

    find_and_call :
        (p : ParseState b.Session)
        → Post (CallOf name left right args loc) p (
            continue
              (in_session f b debug (b.opername_get_oprid name left right) p)
              (make_func f b debug args loc))
    find_and_call p =
        Post-continue _ _ p _ _ (Post-in_session (b.opername_get_oprid name left right) p)
          (λ op found p1. make_func-CallOf op found p1)

  -- A weaker condition on the value.
  pub Post-map :
      {A : Type 0} (Q R : A → Type 0) (p : ParseState b.Session)
      (r : Fallible A × ParseState b.Session)
      → ((a : A) → Q a → R a)
      → Post Q p r
      → Post R p r
  Post-map Q R p (ok a, p') h (q, same) = (h a q, same)
  Post-map Q R p (err e, p') h same = same
  Post-map Q R p (panic, p') h same = same

  mutual
    unfolding transform_expr_recurse transform_a_expr_op transform_oprands make_op left_oper oper
        binary_oper_exact

    recurse-Post :
        (e : Syn.Expr) (p : ParseState b.Session)
        → Post (Elab e) p (transform_expr_recurse f b debug e p)
    recurse-Post (a_const v) p =
        Post-continue _ _ p _ _ (Post-lift (try_new f b debug v) p)
          (λ c h p1. (elab_const h, (refl, refl)))
    recurse-Post (a_expr a) p =
        Post-continue _ _ p _ _ (a_expr-Post a p) (λ x h p1. (h, (refl, refl)))

    a_expr-Post :
        (a : AExpr) (p : ParseState b.Session)
        → Post (λ x. Elab (a_expr a) (func x)) p (transform_a_expr_op f b debug a p)
    a_expr-Post (node kind name oprands loc) p = oprands-Post oprands kind name loc p

    oprands-Post :
        (o : AExprOprands) (kind : AExprKind) (name : List StrVal) (loc : Location)
        (p : ParseState b.Session)
        → Post
            (λ x. Elab (a_expr (node kind name o loc)) (func x))
            p
            (transform_oprands f b debug o name loc p)
    oprands-Post (one e) kind name loc p = Post-continue _ _ p _ _ (recurse-Post e p) (λ e' he p1.
        Post-map _ _ p1 _ (λ x (fn, ret, same, oper). rw same (elab_one he oper))
          (find_and_call name none (val_type e') (cons e' nil) loc p1))
    oprands-Post (two l r) kind name loc p = Post-continue _ _ p _ _ (recurse-Post l p) (λ l' hl p1.
        Post-continue _ _ p1 _ _ (recurse-Post r p1) (λ r' hr p2.
          Post-map _ _ p2 _ (λ x (fn, ret, same, oper). rw same (elab_two hl hr oper))
            (find_and_call name (some (val_type l')) (val_type r') (cons l' (cons r' nil)) loc p2)))

  restore-Post :
      {A : Type 0} (Q : A → Type 0) (p : ParseState b.Session) (kind : ParseExprKind)
      (r : Fallible A × ParseState b.Session)
      → Post Q (record p { p_expr_kind = kind }) r
      → Post Q p (restore f b debug p.p_expr_kind r)
  unfolding restore
  restore-Post Q p kind (ok a, p') (q, (k, n)) = (q, (refl, n))
  restore-Post Q p kind (err e, p') (k, n) = (refl, n)
  restore-Post Q p kind (panic, p') (k, n) = (refl, n)

  -- Whatever it is called with, `transform_expr` returns only what the rules of elaboration give for
  -- the expression; however it ends, the kind of expression and the next number are as before.
  pub transform_expr-Post :
      (e : Syn.Expr) (ekind : ParseExprKind) (p : ParseState b.Session)
      → Post (Elab e) p (transform_expr f b debug e ekind p)
  unfolding transform_expr
  transform_expr-Post e ekind p = elim (Bool-cases (debug && is_no_kind ekind)) [
    | inl refused ↦ rw refused (refl, refl)
    | inr goes ↦ rw goes (restore-Post (Elab e) p ekind _ (recurse-Post e _))
  ]
