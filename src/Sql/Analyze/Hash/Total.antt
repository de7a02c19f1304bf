-- ===== src/Sql/Analyze/Hash/Total.antt =====
-- parser/sem.rs: which expressions have a hash, and which share it.
use kui_ba_db.Base.{◌++◌, ◌≡◌, refl, sym, ap, ◌∙◌, inl, inr, [], Bytes, Option, some, Bool}
use kui_ba_db.Oids.{Oid}
use kui_ba_db.Common.{Float}
use kui_ba_db.Utils.Ser.{Endian}
use kui_ba_db.Sql.Syntax.{Location}
use kui_ba_db.Sql.Analyze.{
  TypeDesc, Backend, Expr, const, func, FuncExpr, func_expr, Args, nil, cons,
}
use kui_ba_db.Sql.Analyze.Hash.{
  value_bytes, digest, hash_const, joined, hash_expr, hash_func, hash_args,
}
use kui_ba_db.Sql.Analyze.Transform.Types.{LiteralType, HasType, typed_const, typed_one, typed_two}

abbrev nowhere : Location
nowhere = record { s = 0; e = 0 }

-- The expression without its places in the query.
abbrev mutual
  pub unplaced : {Datums : Type 0} → Expr Datums → Expr Datums
  unplaced (const c) = const (record c { loc = nowhere })
  unplaced (func x) = func (unplaced_func x)

  pub unplaced_func : {Datums : Type 0} → FuncExpr Datums → FuncExpr Datums
  unplaced_func (func_expr ret fn args loc) = func_expr ret fn (unplaced_args args) nowhere

  pub unplaced_args : {Datums : Type 0} → Args Datums → Args Datums
  unplaced_args nil = nil
  unplaced_args (cons x xs) = cons (unplaced x) (unplaced_args xs)

module _ (f : Float) (b : Backend f) (e : Endian) where
  abbrev Hashed : Option Bytes → Type 0
  Hashed o = (h : Bytes) × (o ≡ some h)

  digest-Hashed : (before : Bytes) (o : Option Bytes) → Hashed o → Hashed (digest f b e before o)
  unfolding digest
  digest-Hashed before o (h, eq) = rw eq (b.md5 (before ++ h), refl)

  joined-Hashed : (o p : Option Bytes) → Hashed o → Hashed p → Hashed (joined f b e o p)
  unfolding joined
  joined-Hashed o p (d, ed) (ds, eds) = rw (ed, eds) (d ++ ds, refl)

  value-Hashed : (t : TypeDesc) (v : b.Datums) → LiteralType t → Hashed (value_bytes f b e t.id v)
  unfolding value_bytes
  value-Hashed t v (inl h) = rw h (_, refl)
  value-Hashed t v (inr (inl h)) = rw h (_, refl)
  value-Hashed t v (inr (inr (inl h))) = rw h (_, refl)
  value-Hashed t v (inr (inr (inr h))) = rw h (_, refl)

  HasType-Hashed :
      (debug : Bool) (x : Expr b.Datums) (t : Oid)
      → HasType f b debug x t
      → Hashed (hash_expr f b e x)
  unfolding hash_expr hash_func hash_args hash_const
  HasType-Hashed debug _ _ (typed_const {c} lit) = digest-Hashed _ _ (value-Hashed c.typ c.v lit)
  HasType-Hashed debug _ _ (typed_one {e = x} {right = t} h o) =
      digest-Hashed _ _ (joined-Hashed _ _ (HasType-Hashed debug x t h) ([], refl))
  HasType-Hashed debug _ _ (typed_two {l = l} {r = r} {left = t} {right = u} hl hr o) =
      digest-Hashed _ _ (
        joined-Hashed _ _ (HasType-Hashed debug l t hl)
          (joined-Hashed _ _ (HasType-Hashed debug r u hr) ([], refl)))

  mutual
    unfolding hash_expr hash_func hash_args hash_const

    hash-unplaced : (x : Expr b.Datums) → hash_expr f b e (unplaced x) ≡ hash_expr f b e x
    hash-unplaced (const c) = refl
    hash-unplaced (func x) = hash_func-unplaced x

    hash_func-unplaced :
        (x : FuncExpr b.Datums) → hash_func f b e (unplaced_func x) ≡ hash_func f b e x
    hash_func-unplaced (func_expr ret fn args loc) = ap (digest f b e _) (hash_args-unplaced args)

    hash_args-unplaced :
        (xs : Args b.Datums) → hash_args f b e (unplaced_args xs) ≡ hash_args f b e xs
    hash_args-unplaced nil = refl
    hash_args-unplaced (cons x xs) = rw (hash-unplaced x, hash_args-unplaced xs) refl

  -- A well-typed expression has a hash (`unreachable!` is not reached), and an expression that
  -- differs from it only in its places in the query has the same hash.
  pub hash_expr-unplaced :
      (debug : Bool) (x y : Expr b.Datums) (t : Oid)
      → HasType f b debug x t
      → unplaced x ≡ unplaced y
      → (h : Bytes) × (hash_expr f b e x ≡ some h) × (hash_expr f b e y ≡ some h)
  hash_expr-unplaced debug x y t typed same =
      let (h, eq) = HasType-Hashed debug x t typed in
      (h, eq, sym (hash-unplaced y) ∙ ap (hash_expr f b e) (sym same) ∙ hash-unplaced x ∙ eq)
