-- ===== src/Sql/Analyze/Transform/Complete.antt =====
-- parser/sem.rs: `transform_expr` against elaboration, whatever the catalogue answers.
use kui_ba_db.Base.{◌≡◌, refl, sym, ap, ◌∙◌, List, Bool, true, false, none, some, ok, err, panic}
use mathlib.Core.Logic.{◌↔◌}
use mathlib.Core.Path.{subst}
use kui_ba_db.Common.{Float}
use kui_ba_db.Sql.Syntax as Syn
use kui_ba_db.Sql.Syntax.{
  StrVal, Location, AConst, AExprKind, AExpr, AExprOprands, node, one, two, a_const, a_expr,
}
use kui_ba_db.Sql.Analyze.{Backend, func, Expr, FuncExpr, nil, cons, val_type}
use kui_ba_db.Sql.Analyze.Transform.{
  ParseState, ParseExprKind, binary_oper_exact, oper, left_oper, make_op, transform_expr_recurse,
  transform_a_expr_op, transform_oprands, restore, is_no_kind, transform_expr,
}
use kui_ba_db.Sql.Analyze.Transform.Sessions.{
  Finds, Elaborates, literal, unary_op, binary_op, Returned, within, same_ok, continue_cases,
  continue-ok, call-Calls, Finds-call,
}

module _ (f : Float) (b : Backend f) (debug : Bool) where
  -- What a step returned is elaborated, and only the session changed.
  abbrev Elaborated :
      ParseState b.Session → Syn.Expr → Expr b.Datums → ParseState b.Session → Type 0
  Elaborated p e e' q =
      (s : b.Session) × Elaborates f b debug p.sess_state e e' s × (within f b debug p s ≡ q)

  mutual
    unfolding transform_expr_recurse transform_a_expr_op transform_oprands make_op left_oper oper
        binary_oper_exact

    recurse-Elaborated :
        (e : Syn.Expr) (p : ParseState b.Session) (e' : Expr b.Datums) (q : ParseState b.Session)
        → transform_expr_recurse f b debug e p ≡ (ok e', q)
        → Elaborated p e e' q
    recurse-Elaborated (a_const v) p e' q h =
        let (c, p1, h1, k1) = continue_cases f b debug _ _ e' q h in
        let (ee, eq) = same_ok f b debug k1 in
        (
          p.sess_state,
          subst (λ t. Elaborates f b debug p.sess_state (a_const v) t p.sess_state) ee
              (literal (ap (λ t. t.0) h1)),
          ap (λ t. t.1) h1 ∙ eq,
        )
    recurse-Elaborated (a_expr a) p e' q h =
        let (x, p1, h1, k1) = continue_cases f b debug _ _ e' q h in
        let (ee, eq) = same_ok f b debug k1 in
        let (s, d, w) = a_expr-Elaborated a p x p1 h1 in
        (s, subst (λ t. Elaborates f b debug p.sess_state (a_expr a) t s) ee d, w ∙ eq)

    a_expr-Elaborated :
        (a : AExpr) (p : ParseState b.Session) (x : FuncExpr b.Datums) (q : ParseState b.Session)
        → transform_a_expr_op f b debug a p ≡ (ok x, q)
        → Elaborated p (a_expr a) (func x) q
    a_expr-Elaborated (node kind name oprands loc) p x q h =
        oprands-Elaborated oprands kind name loc p x q h

    oprands-Elaborated :
        (o : AExprOprands) (kind : AExprKind) (name : List StrVal) (loc : Location)
        (p : ParseState b.Session) (x : FuncExpr b.Datums) (q : ParseState b.Session)
        → transform_oprands f b debug o name loc p ≡ (ok x, q)
        → Elaborated p (a_expr (node kind name o loc)) (func x) q
    oprands-Elaborated (one e) kind name loc p x q h =
        let (e', p1, h1, k1) = continue_cases f b debug _ _ x q h in
        let (s1, d1, w1) = recurse-Elaborated e p e' p1 h1 in
        let (fn, ret, s2, o, ex, w2) =
          call-Calls f b debug name none (val_type e') (cons e' nil) loc p1 x q k1 in
        (
          s2,
          subst
              (λ t.
                Elaborates f b debug p.sess_state (a_expr (node kind name (one e) loc)) (func t) s2)
              ex
              (unary_op d1 (
                subst (λ t. Finds f b debug name none (val_type e') fn ret (t.sess_state) s2)
                  (sym w1) o)),
          ap (λ t. within f b debug t s2) w1 ∙ w2,
        )
    oprands-Elaborated (two l r) kind name loc p x q h =
        let (l', p1, h1, k1) = continue_cases f b debug _ _ x q h in
        let (s1, d1, w1) = recurse-Elaborated l p l' p1 h1 in
        let (r', p2, h2, k2) = continue_cases f b debug _ _ x q k1 in
        let (s2, d2, w2) = recurse-Elaborated r p1 r' p2 h2 in
        let (fn, ret, s3, o, ex, w3) =
          call-Calls f b debug name (some (val_type l')) (val_type r') (cons l' (cons r' nil)) loc
            p2 x q k2 in
        (
          s3,
          subst
              (λ t.
                Elaborates f b debug p.sess_state (a_expr (node kind name (two l r) loc)) (func t)
                  s3)
              ex
              (binary_op d1 (subst (λ t. Elaborates f b debug (t.sess_state) r r' s2) (sym w1) d2) (
                subst
                  (λ t.
                    Finds f b debug name (some (val_type l')) (val_type r') fn ret (t.sess_state)
                      s3)
                  (sym w2) o)),
          ap (λ t. within f b debug t s3) (ap (λ t. within f b debug t s2) w1 ∙ w2) ∙ w3,
        )

  Elaborates-recurse :
      (e : Syn.Expr) (e' : Expr b.Datums) (s s' : b.Session)
      → Elaborates f b debug s e e' s'
      → (p : ParseState b.Session)
      → transform_expr_recurse f b debug e (within f b debug p s) ≡ (ok e', within f b debug p s')
  unfolding transform_expr_recurse transform_a_expr_op transform_oprands make_op left_oper oper
      binary_oper_exact
  Elaborates-recurse _ _ s _ (literal {c = c} h) p =
      continue-ok f b debug _ _ c (within f b debug p s) _ (ap (λ t. (t, within f b debug p s)) h)
        refl
  Elaborates-recurse _ _ s s'
        (unary_op {s1 = s1} {name = name} {e = e} {loc = loc} {e' = e'} {fn = fn} {ret = ret} d o)
        p =
      continue-ok f b debug _ _ _ (within f b debug p s') _
        (continue-ok f b debug _ _ e' (within f b debug p s1) _ (Elaborates-recurse e e' s s1 d p) (
          Finds-call f b debug name none (val_type e') (cons e' nil) loc fn ret
            (within f b debug p s1) s' o))
        refl
  Elaborates-recurse _ _ s s'
        (binary_op {s1 = s1} {s2 = s2} {name = name} {l = l} {r = r} {loc = loc} {l' = l'} {r' = r'}
          {fn = fn} {ret = ret} dl dr o)
        p =
      continue-ok f b debug _ _ _ (within f b debug p s') _
        (continue-ok f b debug _ _ l' (within f b debug p s1) _ (Elaborates-recurse l l' s s1 dl p)
          (continue-ok f b debug _ _ r' (within f b debug p s2) _
            (Elaborates-recurse r r' s1 s2 dr p)
            (Finds-call f b debug name (some (val_type l')) (val_type r') (cons l' (cons r' nil))
              loc fn ret (within f b debug p s2) s' o)))
        refl

  transform_expr-recurse :
      (d : Bool) (e : Syn.Expr) (p : ParseState b.Session)
      → transform_expr f b d e ParseExprKind.select_target p
        ≡ restore f b d p.p_expr_kind (
            transform_expr_recurse f b d e (record p { p_expr_kind = ParseExprKind.select_target }))
  unfolding transform_expr is_no_kind
  transform_expr-recurse true e p = refl
  transform_expr-recurse false e p = refl

  restore_cases :
      {A : Type 0} (k : ParseExprKind) (r : Returned f b debug A) (x : A) (q : ParseState b.Session)
      → restore f b debug k r ≡ (ok x, q)
      → (p : ParseState b.Session) × (r ≡ (ok x, p)) × (p.sess_state ≡ q.sess_state)
  unfolding restore
  restore_cases k (ok y, p) x q h =
      let (e, w) = same_ok f b debug h in (p, ap (λ t. (ok t, p)) e, ap (λ t. t.sess_state) w)
  restore_cases k (err y, p) x q h = cc
  restore_cases k (panic, p) x q h = cc

  -- Whatever the catalogue answers in each session, `transform_expr` returns an expression and leaves
  -- a session exactly when elaboration gives this expression and session, from the session that it
  -- was called in; the kind of expression and the next number are then as before.
  pub transform_expr_iff :
      (e : Syn.Expr) (e' : Expr b.Datums) (p : ParseState b.Session) (s : b.Session)
      → (transform_expr f b debug e ParseExprKind.select_target p ≡ (ok e', within f b debug p s))
        ↔ Elaborates f b debug p.sess_state e e' s
  transform_expr_iff e e' p s = (to, from)
    where
      selecting : ParseState b.Session
      selecting = record p { p_expr_kind = ParseExprKind.select_target }

      to :
          transform_expr f b debug e ParseExprKind.select_target p ≡ (ok e', within f b debug p s)
          → Elaborates f b debug p.sess_state e e' s
      to h =
          let (q, got, same) =
            restore_cases p.p_expr_kind _ e' (within f b debug p s)
              (sym (transform_expr-recurse debug e p) ∙ h) in
          let (s', d, w) = recurse-Elaborated e selecting e' q got in
          subst (Elaborates f b debug p.sess_state e e') (ap (λ t. t.sess_state) w ∙ same) d

      from :
          Elaborates f b debug p.sess_state e e' s
          → transform_expr f b debug e ParseExprKind.select_target p ≡ (ok e', within f b debug p s)
      from d =
          transform_expr-recurse debug e p
          ∙ ap (restore f b debug p.p_expr_kind)
              (Elaborates-recurse e e' p.sess_state s d selecting)
          ∙ (unfold restore in refl)
