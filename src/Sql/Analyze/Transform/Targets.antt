-- ===== src/Sql/Analyze/Transform/Targets.antt =====
-- parser/sem.rs: target lists and statements.
use kui_ba_db.Base.{
  ℕ, suc, ◌+◌, ◌<◌, ◌≤◌, ◌≡◌, refl, ap, arith, List, [], ◌∷◌, Bytes, length, Bool, Bool-cases, inl,
  inr, Option, none, some, ok, err, panic, ◌==◌,
}
use kui_ba_db.Common.{Float}
use kui_ba_db.Utils.Err.{Fallible}
use kui_ba_db.Sql.Steps.{continue, lift}
use kui_ba_db.Sql.Syntax as Syn
use kui_ba_db.Sql.Syntax.{StrVal, as_str, ResTarget, SelectStmt}
use kui_ba_db.Sql.Analyze.{Backend, Expr}
use kui_ba_db.Sql.Analyze.Transform.{
  ParseState, Parse, ParseExprKind, TargetEntry, CmdType, UtilityStmt, Stmt, utility, optimizable,
  max_attr, figure_colname, next_resno, resname_of, name_of, transform_expr, transform_target_entry,
  transform_target_list, transform_select_stmt, optimized, kb_analyze,
}
use kui_ba_db.Sql.Analyze.Transform.Elab.{Elab, Post, transform_expr-Post}

-- The name of a result column.
abbrev pub column_name : Option StrVal → Syn.Expr → Bytes
column_name none expr = figure_colname expr
column_name (some v) expr = as_str v

module _ (f : Float) (b : Backend f) (debug : Bool) where
  -- The entry of a target: its expression by the rules, its number and its name.
  abbrev pub EntryOf : ℕ → ResTarget → TargetEntry b.Datums → Type 0
  EntryOf n t x =
      Elab f b debug t.val x.expr × (x.resno ≡ n) × (x.resname ≡ some (column_name t.name t.val))

  -- The entries of a target list, numbered from `n` on.
  abbrev pub Entries : ℕ → List ResTarget → List (TargetEntry b.Datums) → Type 0
  Entries n [] [] = Unit
  Entries n [] (x ∷ xs) = ⊥
  Entries n (t ∷ ts) [] = ⊥
  Entries n (t ∷ ts) (x ∷ xs) = EntryOf n t x × Entries (suc n) ts xs

  -- What a step over `k` targets returns, and that the numbers go up by `k` without leaving u16.
  abbrev Counted :
      {A : Type 0}
      → ℕ
      → (A → Type 0)
      → ParseState b.Session
      → Fallible A × ParseState b.Session
      → Type 0
  Counted k Q p (ok a, p') =
      Q a × (p'.p_next_resno ≡ p.p_next_resno + k) × (p'.p_next_resno ≤ max_attr)
  Counted k Q p _ = Unit

  Counted-continue :
      {A B : Type 0} (n m k : ℕ) (Q : A → Type 0) (R : B → Type 0) (p : ParseState b.Session)
      (r : Fallible A × ParseState b.Session) (g : A → Parse f b debug B)
      → n ≡ m + k
      → Counted m Q p r
      → ((a : A)
          → Q a
          → (p' : ParseState b.Session) → p'.p_next_resno ≡ p.p_next_resno + m
          → p'.p_next_resno ≤ max_attr
          → Counted k R p' (g a p'))
      → Counted n R p (continue r g)
  unfolding continue
  Counted-continue n m k Q R p (ok a, p') g sum (q, n1, le) h = shift (g a p') (h a q p' n1 le)
    where
      shift : (r : Fallible _ × ParseState b.Session) → Counted k R p' r → Counted n R p r
      shift (ok x, p2) (q2, n2, le2) = (q2, omega arith, le2)
      shift (err x, p2) c = tt
      shift (panic, p2) c = tt
  Counted-continue n m k Q R p (err e, p') g sum c h = tt
  Counted-continue n m k Q R p (panic, p') g sum c h = tt

  expr-Counted :
      (t : ResTarget) (ekind : ParseExprKind) (p : ParseState b.Session)
      → p.p_next_resno ≤ max_attr
      → Counted 0 (Elab f b debug t.val) p (transform_expr f b debug t.val ekind p)
  expr-Counted t ekind p le = go _ (transform_expr-Post f b debug t.val ekind p)
    where
      go :
          (r : Fallible (Expr b.Datums) × ParseState b.Session)
          → Post f b debug (Elab f b debug t.val) p r
          → Counted 0 (Elab f b debug t.val) p r
      go (ok x, p') (q, (k, n)) = (q, omega arith, omega arith)
      go (err x, p') c = tt
      go (panic, p') c = tt

  next_resno-Counted :
      (p : ParseState b.Session)
      → p.p_next_resno ≤ max_attr
      → Counted 1 (λ n. n ≡ p.p_next_resno) p (next_resno f b debug p)
  unfolding next_resno
  next_resno-Counted p le = elim (Bool-cases (p.p_next_resno == max_attr)) [
    | inl last ↦ rw last (elim (Bool-cases debug) [ inl d ↦ rw d tt | inr d ↦ rw d tt ])
    | inr more ↦ rw more (refl, refl, ground arith)
  ]

  resname_of-column_name :
      (t : ResTarget)
      → resname_of f b debug t.val (name_of f b debug t.name) ≡ column_name t.name t.val
  unfolding resname_of name_of
  resname_of-column_name t = go t.name
    where
      go :
          (o : Option StrVal)
          → resname_of f b debug t.val (name_of f b debug o) ≡ column_name o t.val
      go none = refl
      go (some v) = refl

  entry-Counted :
      (t : ResTarget) (ekind : ParseExprKind) (p : ParseState b.Session)
      → p.p_next_resno ≤ max_attr
      → Counted 1
          (EntryOf p.p_next_resno t)
          p
          (transform_target_entry f b debug t.val ekind (name_of f b debug t.name) p)
  unfolding transform_target_entry
  entry-Counted t ekind p le =
      Counted-continue 1 0 1 _ _ p _ _ refl (expr-Counted t ekind p le) (λ x hx p1 n1 le1.
        Counted-continue 1 1 0 _ _ p1 _ _ refl (next_resno-Counted p1 le1) (λ n hn p2 n2 le2.
          ((hx, omega (arith, hn, n1), ap some (resname_of-column_name t)), omega arith, le2)))

  list-Counted :
      (ts : List ResTarget) (ekind : ParseExprKind) (p : ParseState b.Session)
      → p.p_next_resno ≤ max_attr
      → Counted
          (length ts)
          (Entries p.p_next_resno ts)
          p
          (transform_target_list f b debug ts ekind p)
  unfolding transform_target_list
  list-Counted [] ekind p le = (tt, omega arith, le)
  list-Counted (t ∷ ts) ekind p le =
      Counted-continue (suc (length ts)) 1 (length ts) _ _ p _ _ (omega arith)
        (entry-Counted t ekind p le)
        (λ x hx p1 n1 le1.
          Counted-continue (length ts) (length ts) 0 _ _ p1 _ _ (omega arith)
            (list-Counted ts ekind p1 le1)
            (λ xs hxs p2 n2 le2.
              let next : p1.p_next_resno ≡ suc p.p_next_resno = omega (arith, n1) in
              ((hx, rw next at hxs), omega arith, le2)))

  -- What `kb_analyze` may make of a statement: a utility statement goes through with the session as it
  -- is, an empty statement is a panic, and a select gives a query or no result.
  abbrev pub AnalyzeSpec :
      b.Session → Syn.Stmt b.LockMode → Fallible (Stmt b.LockMode b.Datums) × b.Session → Type 0
  AnalyzeSpec s (Syn.Stmt.variable_set v) r = r ≡ (ok (utility (UtilityStmt.variable_set v)), s)
  AnalyzeSpec s (Syn.Stmt.variable_show v) r = r ≡ (ok (utility (UtilityStmt.variable_show v)), s)
  AnalyzeSpec s (Syn.Stmt.define_type v) r = r ≡ (ok (utility (UtilityStmt.define_type v)), s)
  AnalyzeSpec s (Syn.Stmt.tran v) r = r ≡ (ok (utility (UtilityStmt.tran v)), s)
  AnalyzeSpec s (Syn.Stmt.create_table v) r = r ≡ (ok (utility (UtilityStmt.create_table v)), s)
  AnalyzeSpec s (Syn.Stmt.lock v) r = r ≡ (ok (utility (UtilityStmt.lock v)), s)
  AnalyzeSpec s (Syn.Stmt.copy v) r = r ≡ (ok (utility (UtilityStmt.copy v)), s)
  AnalyzeSpec s Syn.Stmt.empty r = r ≡ (panic, s)
  AnalyzeSpec s (Syn.Stmt.select v) (ok (utility u), s') = ⊥
  AnalyzeSpec s (Syn.Stmt.select v) (ok (optimizable q), s') =
      Entries 1 v.tlist q.tlist × (length v.tlist < max_attr)
  AnalyzeSpec s (Syn.Stmt.select v) (err e, s') = Unit
  AnalyzeSpec s (Syn.Stmt.select v) (panic, s') = Unit

  -- `kb_analyze` obeys this on every statement: the entries of a query are those of its target list,
  -- in order, numbered from 1, each with its expression by the rules of elaboration and its name;
  -- and a list of 65535 targets or more is not analyzed.
  pub kb_analyze-AnalyzeSpec :
      (stmt : Syn.Stmt b.LockMode) (s : b.Session)
      → AnalyzeSpec s stmt (kb_analyze f b debug stmt s)
  unfolding kb_analyze transform_select_stmt
  kb_analyze-AnalyzeSpec (Syn.Stmt.variable_set v) s = refl
  kb_analyze-AnalyzeSpec (Syn.Stmt.variable_show v) s = refl
  kb_analyze-AnalyzeSpec (Syn.Stmt.define_type v) s = refl
  kb_analyze-AnalyzeSpec (Syn.Stmt.tran v) s = refl
  kb_analyze-AnalyzeSpec (Syn.Stmt.create_table v) s = refl
  kb_analyze-AnalyzeSpec (Syn.Stmt.lock v) s = refl
  kb_analyze-AnalyzeSpec (Syn.Stmt.copy v) s = refl
  kb_analyze-AnalyzeSpec Syn.Stmt.empty s = refl
  kb_analyze-AnalyzeSpec (Syn.Stmt.select v) s =
      go _ (list-Counted v.tlist ParseExprKind.select_target start (omega arith))
    where
      start : ParseState b.Session
      start = record { sess_state = s; p_expr_kind = ParseExprKind.no_kind; p_next_resno = 1 }

      go :
          (r : Fallible (List (TargetEntry b.Datums)) × ParseState b.Session)
          → Counted (length v.tlist) (Entries 1 v.tlist) start r
          → AnalyzeSpec s (Syn.Stmt.select v) (
              optimized f b debug (
                continue r
                  (λ tlist. lift (ok (record { cmdtype = CmdType.select; tlist = tlist })))))
      go (ok xs, p) (h, n, le) = unfold continue optimized in (h, omega arith)
      go (err x, p) c = unfold continue optimized in tt
      go (panic, p) c = unfold continue optimized in tt
