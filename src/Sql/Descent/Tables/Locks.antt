-- ===== src/Sql/Descent/Tables/Locks.antt =====
-- parser/sql.lalrpop: LOCK, read and derived.
use kui_ba_db.Base.{◌≡◌, refl, Option, none, some, List, ◌==◌}
use kui_ba_db.Sql.Syntax.{StrVal, RangeVar, LockStmt}
use kui_ba_db.Sql.Grammar.{Keyword, Token, keyword, Input, step, Eats}
use kui_ba_db.Sql.Grammar.Terms.{Ident, lower, upper, marked}
use kui_ba_db.Sql.Grammar.Tables.{
  CommaList, first_item, more_items, QualifiedName, relation, Modes, OptTable, table_word,
  no_table_word, LockType, lock_access_share, lock_row_share, lock_row_exclusive,
  lock_share_update_exclusive, lock_share, lock_share_row_exclusive, lock_exclusive,
  lock_access_exclusive, OptLock, in_mode, default_mode, Lock, lock_tables,
}
use kui_ba_db.Sql.Descent.{punctuation, marked_by}
use kui_ba_db.Sql.Descent.Expressions.Sound.{returned}
use kui_ba_db.Sql.Descent.Queries.Complete.{Closes, at_end, at_mark, Closes-not_comma}
use kui_ba_db.Sql.Descent.Tables.{
  continue, comma_list, parse_relation, skip_table, access_from, row_from, exclusively, share_from,
  lock_from, mode_word, opt_lock_from, parse_lock,
}
use kui_ba_db.Sql.Descent.Tables.Lists.{
  continue_cases, comma_list_sound, CommaList-parse, parse_relation_sound, QualifiedName-parse,
  QualifiedName-less,
}

skip_table-OptTable :
    (a : Input) (r : Option (Token × Input)) → step a ≡ r → OptTable a (skip_table a r)
unfolding skip_table
skip_table-OptTable a (some (keyword Keyword.table, b)) at = table_word at
skip_table-OptTable a _ at = no_table_word

Ident-skip : {a b : Input} {n : StrVal} → Ident a b n → skip_table a (step a) ≡ a
unfolding skip_table
Ident-skip (lower e) = rw e refl
Ident-skip (upper e) = rw e refl
Ident-skip (marked e e' e'') = rw e refl

CommaList-skip :
    {a b : Input} {l : List RangeVar} → CommaList QualifiedName a b l → skip_table a (step a) ≡ a
CommaList-skip (first_item (relation d)) = Ident-skip d
CommaList-skip (more_items dl e d) = CommaList-skip dl

OptTable-skip :
    {a b c : Input} {l : List RangeVar}
    → OptTable a b
    → CommaList QualifiedName b c l
    → skip_table a (step a) ≡ b
unfolding skip_table
OptTable-skip (table_word e) d = rw e refl
OptTable-skip no_table_word d = CommaList-skip d

module _ {M : Type 0} (modes : Modes M) where
  access_from_sound :
      (a b c : Input) (m : M) (r : Option (Token × Input))
      → Eats (keyword Keyword.access) a b
      → step b ≡ r
      → access_from modes r ≡ some (m, c)
      → LockType modes a c m
  unfolding access_from
  access_from_sound a b c m (some (keyword Keyword.share, d)) e at h =
      returned (LockType modes a) _ m c d h (lock_access_share e at)
  access_from_sound a b c m (some (keyword Keyword.exclusive, d)) e at h =
      returned (LockType modes a) _ m c d h (lock_access_exclusive e at)
  access_from_sound a b c m _ e at h = cc

  row_from_sound :
      (a b c : Input) (m : M) (r : Option (Token × Input))
      → Eats (keyword Keyword.row) a b
      → step b ≡ r
      → row_from modes r ≡ some (m, c)
      → LockType modes a c m
  unfolding row_from
  row_from_sound a b c m (some (keyword Keyword.share, d)) e at h =
      returned (LockType modes a) _ m c d h (lock_row_share e at)
  row_from_sound a b c m (some (keyword Keyword.exclusive, d)) e at h =
      returned (LockType modes a) _ m c d h (lock_row_exclusive e at)
  row_from_sound a b c m _ e at h = cc

  exclusively_sound :
      (a b c : Input) (x m : M)
      → ((d : Input) → Eats (keyword Keyword.exclusive) b d → LockType modes a d x)
      → (r : Option (Token × Input)) → step b ≡ r
      → exclusively modes x r ≡ some (m, c)
      → LockType modes a c m
  unfolding exclusively
  exclusively_sound a b c x m made (some (keyword Keyword.exclusive, d)) at h =
      returned (LockType modes a) x m c d h (made d at)
  exclusively_sound a b c x m made _ at h = cc

  share_from_sound :
      (a b c : Input) (m : M) (r : Option (Token × Input))
      → Eats (keyword Keyword.share) a b
      → step b ≡ r
      → share_from modes b r ≡ some (m, c)
      → LockType modes a c m
  unfolding share_from
  share_from_sound a b c m (some (keyword Keyword.update, d)) e at h =
      exclusively_sound a d c _ m (λ d' e'. lock_share_update_exclusive e at e') (step d) refl h
  share_from_sound a b c m (some (keyword Keyword.row, d)) e at h =
      exclusively_sound a d c _ m (λ d' e'. lock_share_row_exclusive e at e') (step d) refl h
  share_from_sound a b c m _ e at h = returned (LockType modes a) _ m c b h (lock_share e)

  lock_from_sound :
      (a b : Input) (m : M) (r : Option (Token × Input))
      → step a ≡ r
      → lock_from modes r ≡ some (m, b)
      → LockType modes a b m
  unfolding lock_from
  lock_from_sound a b m (some (keyword Keyword.access, c)) at h =
      access_from_sound a c b m (step c) at refl h
  lock_from_sound a b m (some (keyword Keyword.row, c)) at h =
      row_from_sound a c b m (step c) at refl h
  lock_from_sound a b m (some (keyword Keyword.share, c)) at h =
      share_from_sound a c b m (step c) at refl h
  lock_from_sound a b m (some (keyword Keyword.exclusive, c)) at h =
      returned (LockType modes a) _ m b c h (lock_exclusive at)
  lock_from_sound a b m _ at h = cc

  mode_word_sound :
      (a b c d : Input) (x m : M) (r : Option (Token × Input))
      → Eats (keyword Keyword.in_p) a b
      → LockType modes b c x
      → step c ≡ r
      → mode_word modes x r ≡ some (m, d)
      → OptLock modes a d m
  unfolding mode_word
  mode_word_sound a b c d x m (some (keyword Keyword.mode_p, d')) e dx at h =
      returned (OptLock modes a) x m d d' h (in_mode e dx at)
  mode_word_sound a b c d x m _ e dx at h = cc

  opt_lock_from_sound :
      (a b : Input) (m : M) (r : Option (Token × Input))
      → step a ≡ r
      → opt_lock_from modes a r ≡ some (m, b)
      → OptLock modes a b m
  unfolding opt_lock_from
  opt_lock_from_sound a b m (some (keyword Keyword.in_p, c)) at h =
      let (x, d, got, rest) =
        continue_cases (lock_from modes (step c)) (λ m c. mode_word modes m (step c)) m b h in
      mode_word_sound a c d b x m (step d) at (lock_from_sound c d x (step c) refl got) refl rest
  opt_lock_from_sound a b m _ at h = returned (OptLock modes a) _ m b a h default_mode

  -- A LOCK statement that the descent reads is derived.
  pub parse_lock_sound :
      (a b c : Input) (s : LockStmt M)
      → Eats (keyword Keyword.lock_p) a b
      → parse_lock modes b ≡ some (s, c)
      → Lock modes a c s
  unfolding parse_lock
  parse_lock_sound a b c s e h =
      let (l, d, got, rest) =
        continue_cases (comma_list parse_relation (skip_table b (step b)))
          (λ l b.
            continue (opt_lock_from modes b (step b))
              (λ m c. some (record { rels = l; mode = m }, c)))
          s c h in
      let (m, f, got', rest') =
        continue_cases (opt_lock_from modes d (step d))
          (λ m c. some (record { rels = l; mode = m }, c)) s c rest in
      returned (Lock modes a) (record { rels = l; mode = m }) s c f rest'
        (lock_tables e (skip_table-OptTable b (step b) refl)
          (comma_list_sound parse_relation QualifiedName parse_relation_sound
            (skip_table b (step b)) d l got)
          (opt_lock_from_sound d f m (step d) refl got'))

  LockType-parse :
      {a b c : Input} {m : M}
      → LockType modes a b m
      → Eats (keyword Keyword.mode_p) b c
      → lock_from modes (step a) ≡ some (m, b)
  unfolding lock_from access_from row_from share_from exclusively
  LockType-parse (lock_access_share e e') last = rw (e, e') refl
  LockType-parse (lock_row_share e e') last = rw (e, e') refl
  LockType-parse (lock_row_exclusive e e') last = rw (e, e') refl
  LockType-parse (lock_share_update_exclusive e e' e'') last = rw (e, e', e'') refl
  LockType-parse (lock_share e) last = rw (e, last) refl
  LockType-parse (lock_share_row_exclusive e e' e'') last = rw (e, e', e'') refl
  LockType-parse (lock_exclusive e) last = rw e refl
  LockType-parse (lock_access_exclusive e e') last = rw (e, e') refl

  OptLock-parse :
      {a b : Input} {m : M}
      → OptLock modes a b m
      → Closes b
      → opt_lock_from modes a (step a) ≡ some (m, b)
  unfolding opt_lock_from continue mode_word
  OptLock-parse (in_mode e d e') closes = rw (e, LockType-parse d e', e') refl
  OptLock-parse default_mode (at_end e) = rw e refl
  OptLock-parse default_mode (at_mark e e') = rw e refl

  OptLock-not_comma :
      {a b : Input} {m : M} → OptLock modes a b m → Closes b → punctuation (λ o. o == b',') a ≡ none
  unfolding punctuation marked_by
  OptLock-not_comma (in_mode e d e') closes = rw e refl
  OptLock-not_comma (default_mode {a = a}) closes = Closes-not_comma a closes

  -- A LOCK statement that is derived is read.
  pub parse_lock_complete :
      {a b c d : Input} {l : List RangeVar} {m : M}
      → OptTable a b
      → CommaList QualifiedName b c l
      → OptLock modes c d m
      → Closes d
      → parse_lock modes a ≡ some (record { rels = l; mode = m }, d)
  unfolding parse_lock continue
  parse_lock_complete t dl dm closes =
      rw
        (
          OptTable-skip t dl,
          CommaList-parse parse_relation QualifiedName (λ b. Unit {0}) (λ b c e. tt)
              QualifiedName-less (λ a b r d u. QualifiedName-parse a b r d) dl tt
              (OptLock-not_comma dm closes),
          OptLock-parse dm closes,
        )
        refl
