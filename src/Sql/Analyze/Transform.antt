-- ===== src/Sql/Analyze/Transform.antt =====
-- parser/sem.rs: operators, expressions, target lists and statements. `debug` says whether overflow
-- checks and debug assertions are compiled in.
pub mod Elab
pub mod Types
pub mod Sessions
pub mod Complete
pub mod Targets
use kui_ba_db.Base.{
  ℕ, suc, ◌+◌, ◌-◌, ◌^◌, List, [], ◌∷◌, ◌++◌, Bytes, Bool, true, false, ◌&&◌, Option, none, some,
  ok, err, panic, ◌==◌, if◌then◌else◌,
}
use kui_ba_db.Base.Text.{codes, show_ℕ}
use kui_ba_db.Oids.{Oid, OptOid}
use kui_ba_db.Common.{Float}
use kui_ba_db.Utils.Err.{Cause, Fallible, kbanyhow}
use kui_ba_db.Protocol.Errcodes.{errcode_undefined_function}
use kui_ba_db.Sql.Steps.{Step, ◌>>=◌, lift}
use kui_ba_db.Sql.Syntax as Syn
use kui_ba_db.Sql.Syntax.{
  StrVal, as_str, Location, VariableSetStmt, VariableShowStmt, DefineTypeStmt, TranStmt,
  CreateTableStmt, LockStmt, CopyStmt, SelectStmt, ResTarget, AExpr, node, AExprOprands, one, two,
  a_const, a_expr,
}
use kui_ba_db.Sql.Analyze.{
  FormOperator, FormProc, Backend, Const, Expr, const, func, FuncExpr, func_expr, Args, nil, cons,
  val_type, try_new,
}

pub data ParseExprKind : Type 0 where
  no_kind select_target : ParseExprKind

pub record TargetEntry (Datums : Type 0) : Type 0 where
  pub expr : Expr Datums
  pub resno : ℕ
  pub resname : Option Bytes

pub data CmdType : Type 0 where
  select : CmdType

pub record Query (Datums : Type 0) : Type 0 where
  pub cmdtype : CmdType
  pub tlist : List (TargetEntry Datums)

pub data UtilityStmt (LockMode : Type 0) : Type 0 where
  variable_set : VariableSetStmt → UtilityStmt LockMode
  variable_show : VariableShowStmt → UtilityStmt LockMode
  define_type : DefineTypeStmt → UtilityStmt LockMode
  create_table : CreateTableStmt → UtilityStmt LockMode
  tran : TranStmt → UtilityStmt LockMode
  lock : LockStmt LockMode → UtilityStmt LockMode
  copy : CopyStmt → UtilityStmt LockMode

pub data Stmt (LockMode Datums : Type 0) : Type 0 where
  utility : UtilityStmt LockMode → Stmt LockMode Datums
  optimizable : Query Datums → Stmt LockMode Datums

pub record ParseState (Session : Type 0) : Type 0 where
  pub sess_state : Session
  pub p_expr_kind : ParseExprKind
  pub p_next_resno : ℕ

-- `NonZeroU16::MAX`
abbrev pub max_attr : ℕ
max_attr = 2 ^ 16 - 1

-- FigureColname
abbrev pub figure_colname : Syn.Expr → Bytes
figure_colname expr = codes "?column?"

is_no_kind : ParseExprKind → Bool
is_no_kind ParseExprKind.no_kind = true
is_no_kind ParseExprKind.select_target = false

module _ (f : Float) (b : Backend f) (debug : Bool) where
  abbrev pub Parse : Type 0 → Type 0
  Parse A = Step (ParseState b.Session) A

  -- A call that works on the session.
  keep_session :
      {A : Type 0}
      → ParseState b.Session
      → Fallible A × b.Session
      → Fallible A × ParseState b.Session
  keep_session p (r, s) = (r, record p { sess_state = s })

  pub in_session : {A : Type 0} → Step b.Session A → Parse A
  in_session m p = keep_session p (m p.sess_state)

  pub binary_oper_exact : List StrVal → Oid → Oid → Parse FormOperator
  binary_oper_exact opname oprleft oprright =
      in_session (b.opername_get_oprid opname (some oprleft) oprright)

  pub oper : List StrVal → Oid → Oid → Parse FormOperator
  oper opname oprleft oprright = binary_oper_exact opname oprleft oprright

  pub left_oper : List StrVal → Oid → Parse FormOperator
  left_oper opname oprright = in_session (b.opername_get_oprid opname none oprright)

  -- The `match op.oprcode.0`.
  oprcode_of : FormOperator → OptOid → Fallible Oid
  oprcode_of op none =
      err (
        kbanyhow errcode_undefined_function
          (codes "operator is only a shell. op=" ++ show_ℕ op.oid))
  oprcode_of op (some v) = ok v

  -- What `make_op` does with the operator and the arguments.
  pub make_func : Args b.Datums → Location → FormOperator → Parse (FuncExpr b.Datums)
  make_func args loc op = do
    oprcode ← lift (oprcode_of op op.oprcode)
    oprfunc ← in_session (b.get_proc oprcode)
    lift (ok (func_expr oprfunc.prorettype oprcode args loc))

  pub make_op :
      List StrVal → Option (Expr b.Datums) → Expr b.Datums → Location → Parse (FuncExpr b.Datums)
  make_op opname none rtree loc = do
    op ← left_oper opname (val_type rtree)
    make_func (cons rtree nil) loc op
  make_op opname (some ltree) rtree loc = do
    op ← oper opname (val_type ltree) (val_type rtree)
    make_func (cons ltree (cons rtree nil)) loc op

  mutual
    pub transform_expr_recurse : Syn.Expr → Parse (Expr b.Datums)
    transform_expr_recurse (a_const v) = do c ← lift (try_new f b debug v); lift (ok (const c))
    transform_expr_recurse (a_expr v) = do e ← transform_a_expr_op v; lift (ok (func e))

    pub transform_a_expr_op : AExpr → Parse (FuncExpr b.Datums)
    transform_a_expr_op (node kind name oprands loc) = transform_oprands oprands name loc

    -- The `match *expr.oprands`.
    pub transform_oprands : AExprOprands → List StrVal → Location → Parse (FuncExpr b.Datums)
    transform_oprands (one e) name loc = do e' ← transform_expr_recurse e; make_op name none e' loc
    transform_oprands (two l r) name loc = do
      l' ← transform_expr_recurse l
      r' ← transform_expr_recurse r
      make_op name (some l') r' loc

  restore :
      {A : Type 0}
      → ParseExprKind
      → Fallible A × ParseState b.Session
      → Fallible A × ParseState b.Session
  restore kind (r, p) = (r, record p { p_expr_kind = kind })

  pub transform_expr : Syn.Expr → ParseExprKind → Parse (Expr b.Datums)
  transform_expr expr ekind p =
      if debug && is_no_kind ekind
      then (panic, p)
      else restore p.p_expr_kind (transform_expr_recurse expr (record p { p_expr_kind = ekind }))

  -- `pstate.p_next_resno = (pstate.p_next_resno.get() + 1).try_into()?`, with the number before it.
  next_resno : Parse ℕ
  next_resno p =
      if p.p_next_resno == max_attr
      then if debug then (panic, p) else (
        err (record {
          contexts = [];
          cause = Cause.text (codes "out of range integral type conversion attempted");
        }),
        p,
      )
      else (ok p.p_next_resno, record p { p_next_resno = p.p_next_resno + 1 })

  resname_of : Syn.Expr → Option Bytes → Bytes
  resname_of expr none = figure_colname expr
  resname_of expr (some v) = v

  pub transform_target_entry :
      Syn.Expr → ParseExprKind → Option Bytes → Parse (TargetEntry b.Datums)
  transform_target_entry expr ekind colname = do
    e ← transform_expr expr ekind
    resno ← next_resno
    lift (ok (record { expr = e; resno = resno; resname = some (resname_of expr colname) }))

  -- `target.name.as_ref().map(|v| v.to_string())`
  name_of : Option StrVal → Option Bytes
  name_of none = none
  name_of (some v) = some (as_str v)

  pub transform_target_list : List ResTarget → ParseExprKind → Parse (List (TargetEntry b.Datums))
  transform_target_list [] ekind = lift (ok [])
  transform_target_list (target ∷ tlist) ekind = do
    entry ← transform_target_entry target.val ekind (name_of target.name)
    entries ← transform_target_list tlist ekind
    lift (ok (entry ∷ entries))

  pub transform_select_stmt : SelectStmt → Parse (Query b.Datums)
  transform_select_stmt stmt = do
    tlist ← transform_target_list stmt.tlist ParseExprKind.select_target
    lift (ok (record { cmdtype = CmdType.select; tlist = tlist }))

  pub optimized :
      Fallible (Query b.Datums) × ParseState b.Session
      → Fallible (Stmt b.LockMode b.Datums) × b.Session
  optimized (ok q, p) = (ok (optimizable q), p.sess_state)
  optimized (err e, p) = (err e, p.sess_state)
  optimized (panic, p) = (panic, p.sess_state)

  pub kb_analyze : Syn.Stmt b.LockMode → Step b.Session (Stmt b.LockMode b.Datums)
  kb_analyze (Syn.Stmt.variable_set v) s = (ok (utility (UtilityStmt.variable_set v)), s)
  kb_analyze (Syn.Stmt.variable_show v) s = (ok (utility (UtilityStmt.variable_show v)), s)
  kb_analyze (Syn.Stmt.define_type v) s = (ok (utility (UtilityStmt.define_type v)), s)
  kb_analyze (Syn.Stmt.tran v) s = (ok (utility (UtilityStmt.tran v)), s)
  kb_analyze (Syn.Stmt.select v) s = optimized (
      transform_select_stmt v
        (record { sess_state = s; p_expr_kind = ParseExprKind.no_kind; p_next_resno = 1 }))
  kb_analyze (Syn.Stmt.create_table v) s = (ok (utility (UtilityStmt.create_table v)), s)
  kb_analyze (Syn.Stmt.lock v) s = (ok (utility (UtilityStmt.lock v)), s)
  kb_analyze (Syn.Stmt.copy v) s = (ok (utility (UtilityStmt.copy v)), s)
  kb_analyze Syn.Stmt.empty s = (panic, s)
