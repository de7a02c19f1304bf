-- ===== src/Sql/Descent/Statements/Sound.antt =====
-- parser/sql.lalrpop: what the recursive descent reads as a query, the grammar derives.
use kui_ba_db.Base.{
  ℕ, ◌≡◌, refl, Bool, true, Bool-cases, inl, inr, Option, none, some, List, ◌==◌, ==_iff,
}
use mathlib.Core.Path.{subst}
use kui_ba_db.Sql.Syntax.{StrVal, AConst, Stmt, CreateTableStmt, LockStmt, CopyStmt}
use kui_ba_db.Sql.Grammar.{Keyword, Token, keyword, punct, Input, step, Eats}
use kui_ba_db.Sql.Grammar.Terms.{select_list}
use kui_ba_db.Sql.Grammar.Values.{VarName}
use kui_ba_db.Sql.Grammar.Statements.{
  show_name, begins, aborts, commits, create_type, Statement, variable_set, variable_show,
  define_type, select, tran, empty, Query, bare, ended, create, lock, copy,
}
use kui_ba_db.Sql.Descent.{punctuation}
use kui_ba_db.Sql.Descent.Loop.{punctuation-Eats}
use kui_ba_db.Sql.Descent.Expressions.Sound.{returned, absurd_none}
use kui_ba_db.Sql.Descent.Queries.{parse_targets, or_empty}
use kui_ba_db.Sql.Descent.Queries.Sound.{same_some, or_empty_sound}
use kui_ba_db.Sql.Grammar.Tables.{Modes}
use kui_ba_db.Sql.Descent.Tables.{parse_table, parse_lock}
use kui_ba_db.Sql.Descent.Tables.Create.{parse_table_sound}
use kui_ba_db.Sql.Descent.Tables.Locks.{parse_lock_sound}
use kui_ba_db.Sql.Descent.Copies.{parse_copy}
use kui_ba_db.Sql.Descent.Copies.Sound.{parse_copy_sound}
use kui_ba_db.Sql.Descent.Values.{parse_var_name, parse_any_name, setting_from}
use kui_ba_db.Sql.Descent.Statements.{
  set_value, set_named, shown, defined, created, selected, statement_from, is_end, last_mark,
  finished, query_of, parse_query, table_created, locked, copied,
}
use kui_ba_db.Sql.Descent.Values.Sound.{
  parse_var_name_sound, parse_any_name_sound, setting_from_sound,
}

is_end-none : (r : Option (Token × Input)) → is_end r ≡ true → r ≡ none
unfolding is_end
is_end-none none h = refl
is_end-none (some r) h = cc

module _ {M : Type 0} (modes : Modes M) (debug : Bool) where
  set_value_sound :
      (a b c d : Input) (n : StrVal) (s : Stmt M) (r : Option (AConst × Input))
      → Eats (keyword Keyword.set) a b
      → VarName b c n
      → setting_from debug (step c) ≡ r
      → set_value modes debug n r ≡ some (s, d)
      → Statement modes debug a d s
  unfolding set_value
  set_value_sound a b c d n s none e dn at h = cc
  set_value_sound a b c d n s (some (v, d')) e dn at h =
      returned (Statement modes debug a) _ s d d' h
        (variable_set (setting_from_sound debug a b c d' n v (step c) e dn refl at))

  set_named_sound :
      (a b d : Input) (s : Stmt M) (r : Option (StrVal × Input))
      → Eats (keyword Keyword.set) a b
      → parse_var_name b ≡ r
      → set_named modes debug r ≡ some (s, d)
      → Statement modes debug a d s
  unfolding set_named
  set_named_sound a b d s none e at h = cc
  set_named_sound a b d s (some (n, c)) e at h =
      set_value_sound a b c d n s (setting_from debug (step c)) e (parse_var_name_sound b c n at)
        refl h

  shown_sound :
      (a b d : Input) (s : Stmt M) (r : Option (StrVal × Input))
      → Eats (keyword Keyword.show) a b
      → parse_var_name b ≡ r
      → shown modes debug r ≡ some (s, d)
      → Statement modes debug a d s
  unfolding shown
  shown_sound a b d s none e at h = cc
  shown_sound a b d s (some (n, c)) e at h =
      returned (Statement modes debug a) _ s d c h
        (variable_show (show_name e (parse_var_name_sound b c n at)))

  defined_sound :
      (a b c d : Input) (s : Stmt M) (r : Option (List StrVal × Input))
      → Eats (keyword Keyword.create) a b
      → Eats (keyword Keyword.type_p) b c
      → parse_any_name c ≡ r
      → defined modes debug r ≡ some (s, d)
      → Statement modes debug a d s
  unfolding defined
  defined_sound a b c d s none e e' at h = cc
  defined_sound a b c d s (some (l, c')) e e' at h =
      returned (Statement modes debug a) _ s d c' h
        (define_type (create_type e e' (parse_any_name_sound c c' l at)))

  table_created_sound :
      (a b c d : Input) (s : Stmt M) (r : Option (CreateTableStmt × Input))
      → Eats (keyword Keyword.create) a b
      → Eats (keyword Keyword.table) b c
      → parse_table debug c ≡ r
      → table_created modes debug r ≡ some (s, d)
      → Statement modes debug a d s
  unfolding table_created
  table_created_sound a b c d s none e e' at h = cc
  table_created_sound a b c d s (some (x, c')) e e' at h =
      returned (Statement modes debug a) _ s d c' h
        (create (parse_table_sound debug a b c c' x e e' at))

  locked_sound :
      (a b d : Input) (s : Stmt M) (r : Option (LockStmt M × Input))
      → Eats (keyword Keyword.lock_p) a b
      → parse_lock modes b ≡ r
      → locked modes debug r ≡ some (s, d)
      → Statement modes debug a d s
  unfolding locked
  locked_sound a b d s none e at h = cc
  locked_sound a b d s (some (x, c)) e at h =
      returned (Statement modes debug a) _ s d c h (lock (parse_lock_sound modes a b c x e at))

  copied_sound :
      (a b d : Input) (s : Stmt M) (r : Option (CopyStmt × Input))
      → Eats (keyword Keyword.copy) a b
      → parse_copy debug b ≡ r
      → copied modes debug r ≡ some (s, d)
      → Statement modes debug a d s
  unfolding copied
  copied_sound a b d s none e at h = cc
  copied_sound a b d s (some (x, c)) e at h =
      returned (Statement modes debug a) _ s d c h (copy (parse_copy_sound debug a b c x e at))

  created_sound :
      (a b d : Input) (s : Stmt M) (r : Option (Token × Input))
      → Eats (keyword Keyword.create) a b
      → step b ≡ r
      → created modes debug r ≡ some (s, d)
      → Statement modes debug a d s
  unfolding created
  created_sound a b d s (some (keyword Keyword.type_p, c)) e at h =
      defined_sound a b c d s (parse_any_name c) e at refl h
  created_sound a b d s (some (keyword Keyword.table, c)) e at h =
      table_created_sound a b c d s (parse_table debug c) e at refl h
  created_sound a b d s _ e at h = cc

  statement_from_sound :
      (a b : Input) (s : Stmt M) (r : Option (Token × Input))
      → step a ≡ r
      → statement_from modes debug a r ≡ some (s, b)
      → Statement modes debug a b s
  unfolding statement_from selected
  statement_from_sound a b s (some (keyword Keyword.set, c)) at h =
      set_named_sound a c b s (parse_var_name c) at refl h
  statement_from_sound a b s (some (keyword Keyword.show, c)) at h =
      shown_sound a c b s (parse_var_name c) at refl h
  statement_from_sound a b s (some (keyword Keyword.create, c)) at h =
      created_sound a c b s (step c) at refl h
  statement_from_sound a b s (some (keyword Keyword.select, c)) at h =
      returned (Statement modes debug a) _ s b (or_empty c (parse_targets c)).1 h
        (select (select_list at (or_empty_sound c (parse_targets c) refl)))
  statement_from_sound a b s (some (keyword Keyword.lock_p, c)) at h =
      locked_sound a c b s (parse_lock modes c) at refl h
  statement_from_sound a b s (some (keyword Keyword.copy, c)) at h =
      copied_sound a c b s (parse_copy debug c) at refl h
  statement_from_sound a b s (some (keyword Keyword.begin_p, c)) at h =
      returned (Statement modes debug a) _ s b c h (tran (begins at))
  statement_from_sound a b s (some (keyword Keyword.abort_p, c)) at h =
      returned (Statement modes debug a) _ s b c h (tran (aborts at))
  statement_from_sound a b s (some (keyword Keyword.commit_p, c)) at h =
      returned (Statement modes debug a) _ s b c h (tran (commits at))
  statement_from_sound a b s _ at h = returned (Statement modes debug a) Stmt.empty s b a h empty

  finished-Query :
      (a b : Input) (s : Stmt M) (r : Option (ℕ × Input))
      → Statement modes debug a b s
      → punctuation (λ o. o == b';') b ≡ r
      → last_mark r b ≡ true
      → Query modes debug a s
  unfolding last_mark
  finished-Query a b s none d at h = bare d (is_end-none (step b) h)
  finished-Query a b s (some (o, c)) d at h =
      let (eats, mark) = punctuation-Eats (λ o. o == b';') b c o at in
      ended d (subst (λ t. Eats (punct t) b c) ((==_iff o b';').0 mark) eats)
        (is_end-none (step c) h)

  query_of-Query :
      (a : Input) (s : Stmt M) (r : Option (Stmt M × Input))
      → statement_from modes debug a (step a) ≡ r
      → query_of modes debug r ≡ some s
      → Query modes debug a s
  unfolding query_of finished
  query_of-Query a s none at h = cc
  query_of-Query a s (some (x, b)) at h = elim (Bool-cases (finished b)) [
    | inl fin ↦
        subst (λ t. Query modes debug a t) (same_some (rw fin at h))
          (finished-Query a b x (punctuation (λ o. o == b';') b)
            (statement_from_sound a b x (step a) refl at) refl fin)
    | inr unfinished ↦ absurd_none (rw unfinished at h)
  ]

  -- A query that the descent reads is derived.
  pub parse_query_sound :
      (a : Input) (s : Stmt M) → parse_query modes debug a ≡ some s → Query modes debug a s
  unfolding parse_query
  parse_query_sound a s h = query_of-Query a s (statement_from modes debug a (step a)) refl h
