-- ===== src/Build/Format/Places.antt =====
-- build.rs: what format_gucs and gen_gucdef return, and the map that the generated file makes.
use kui_ba_db.Base.{
  ℕ, ◌≡◌, refl, List, [], ◌∷◌, map, All, Bytes, Bool, true, false, Option, none, some, eq_bytes,
  Bool-cases, inl, inr,
}
use kui_ba_db.Base.Text.{codes}
use kui_ba_db.Common.{Yaml}
use kui_ba_db.Utils.Err.{Fallible}
use kui_ba_db.Guc.{GucIdx}
use kui_ba_db.Build.{Guc, Gucs, CharCase, first_char, load_gucs, to_camel_case}
use kui_ba_db.Base.Assoc.{Assoc, lookup}
use kui_ba_db.Build.Names.{IsWord}
use kui_ba_db.Build.Camel.{AsciiCase, capitals, to_camel_case-snake}
use kui_ba_db.Build.Format.{
  Token, literal, parsed, Row, Gucdef, parse, some_token, option_tokenstream, boot_token,
  format_guc, format_rows, table, format_ret, format_gucs, gucdef, write_gucdef, gen_gucdef,
}
use kui_ba_db.Build.Format.Insertions.{
  IsName, Distinct, names, item, items, bindings, fill, name_map, last_binding, lookup-filled,
  name_map-tables,
}

module _ (u : CharCase) (lexes : Bytes → Bool) where
  -- The texts of the variable that are parsed, other than its name, are token streams.
  pub record Lexes (var_logical_type : Bytes) (guc : Guc) : Type 0 where
    pub context : lexes guc.context ≡ true
    pub vartype : lexes guc.vartype ≡ true
    pub boot_val : eq_bytes var_logical_type (codes "Str") ≡ false → lexes guc.boot_val ≡ true
    pub flags : lexes guc.flags ≡ true
    pub preassign : (v : Bytes) → guc.preassign ≡ some v → lexes v ≡ true
    pub show : (v : Bytes) → guc.show ≡ some v → lexes v ≡ true

  abbrev pub LexesItems : Type 0
  LexesItems =
      (w : Bytes) (ws : List Bytes) → All IsWord (w ∷ ws) → lexes (capitals (w ∷ ws)) ≡ true

  option_tokenstream-total :
      (o : Option Bytes)
      → ((v : Bytes) → o ≡ some v → lexes v ≡ true)
      → (t : Option Token) × option_tokenstream u lexes o false ≡ some t
  unfolding option_tokenstream parse some_token
  option_tokenstream-total none h = (none, refl)
  option_tokenstream-total (some v) h = (some (parsed v), rw (h v refl) refl)

  boot_token-total :
      (ty v : Bytes)
      → (eq_bytes ty (codes "Str") ≡ false → lexes v ≡ true)
      → (t : Token) × boot_token u lexes ty v ≡ some t
  unfolding boot_token parse
  boot_token-total ty v h = elim (Bool-cases (eq_bytes ty (codes "Str"))) [
    | inl str ↦ (literal v, rw str refl)
    | inr other ↦ (parsed v, rw (other, h other) refl)
  ]

  format_guc-Row :
      AsciiCase u
      → LexesItems
      → (ty : Bytes) (g : Guc) (hn : IsName g.name) → Lexes ty g
      → (r : Row) × (format_guc u lexes ty g ≡ some r)
        × (r.name ≡ literal g.name)
        × (r.enumitem ≡ parsed (item g.name hn))
  unfolding format_guc parse
  format_guc-Row a li ty g (w, ws, e, h) x =
      let (b, eb) = boot_token-total ty g.boot_val x.boot_val in
      let (p, ep) = option_tokenstream-total g.preassign x.preassign in
      let (s, es) = option_tokenstream-total g.show x.show in
      let camel : to_camel_case u g.name ≡ some (capitals (w ∷ ws)) =
        rw e (to_camel_case-snake u a w ws h) in
      let row : Row = record {
        name = literal g.name;
        context = parsed g.context;
        flags = parsed g.flags;
        show = s;
        preassign = p;
        boot_val = b;
        enumitem = parsed (capitals (w ∷ ws));
      } in
      (row, rw (x.context, x.vartype, eb, x.flags, ep, es, camel, li w ws h) refl, refl, refl)

  format_rows-Rows :
      AsciiCase u
      → LexesItems
      → (ty : Bytes) (gs : List Guc) (hn : All IsName (names gs)) → All (Lexes ty) gs
      → (rs : List Row) × (format_rows u lexes ty gs ≡ some rs)
        × (map (λ r. r.name) rs ≡ map literal (names gs))
        × (map (λ r. r.enumitem) rs ≡ map parsed (items (names gs) hn))
  unfolding format_rows
  format_rows-Rows a li ty [] hn x = ([], refl, refl, refl)
  format_rows-Rows a li ty (g ∷ gs) (hn, hns) (x, xs) =
      let (r, er, nr, ir) = format_guc-Row a li ty g hn x in
      let (rs, ers, nrs, irs) = format_rows-Rows a li ty gs hns xs in
      (r ∷ rs, rw (er, ers) refl, rw (nr, nrs) refl, rw (ir, irs) refl)

  -- What the build asks of the variables of a table.
  pub record TableOk (var_logical_type : Bytes) (gs : List Guc) : Type 0 where
    pub name : All IsName (names gs)
    pub distinct : Distinct (names gs)
    pub texts : All (Lexes var_logical_type) gs

  format_gucs-Table :
      AsciiCase u
      → LexesItems
      → (ty : Bytes) (gs : List Guc) (l : ℕ) (h : TableOk ty gs) → first_char ty ≡ some l
      → (rs : List Row) × (format_gucs u lexes ty gs ≡ some (table ty gs l rs, format_ret rs))
        × (map (λ r. r.name) rs ≡ map literal (names gs))
        × (map (λ r. r.enumitem) rs ≡ map parsed (items (names gs) h.name))
  unfolding format_gucs
  format_gucs-Table a li ty gs l h fl =
      let (rs, e, ns, is) = format_rows-Rows a li ty gs h.name h.texts in
      (rs, rw (e, fl) refl, ns, is)

  write_gucdef-name_map :
      AsciiCase u
      → LexesItems
      → (gucs : Gucs) → TableOk (codes "Bool") gucs.bool_gucs
      → TableOk (codes "Int") gucs.int_gucs
      → TableOk (codes "Str") gucs.str_gucs
      → TableOk (codes "Real") gucs.real_gucs
      → (d : Gucdef) × (write_gucdef u lexes gucs ≡ some d)
        × (name_map d ≡ some (fill [] (bindings gucs)))
  unfolding write_gucdef gucdef table format_ret first_char
  write_gucdef-name_map a li gucs hb hi hs hr =
      let (rb, eb, nb, ib) = format_gucs-Table a li (codes "Bool") gucs.bool_gucs b'B' hb refl in
      let (ri, ei, ni, ii) = format_gucs-Table a li (codes "Int") gucs.int_gucs b'I' hi refl in
      let (rs, es, ns, is) = format_gucs-Table a li (codes "Str") gucs.str_gucs b'S' hs refl in
      let (rr, er, nr, ir) = format_gucs-Table a li (codes "Real") gucs.real_gucs b'R' hr refl in
      let d : Gucdef =
        gucdef gucs (table (codes "Bool") gucs.bool_gucs b'B' rb) (format_ret rb)
          (table (codes "Int") gucs.int_gucs b'I' ri) (format_ret ri)
          (table (codes "Str") gucs.str_gucs b'S' rs) (format_ret rs)
          (table (codes "Real") gucs.real_gucs b'R' rr) (format_ret rr) in
      (
        d,
        rw (eb, ei, es, er) refl,
        name_map-tables d (names gucs.bool_gucs) (names gucs.int_gucs) (names gucs.real_gucs)
            (names gucs.str_gucs) hb.name hi.name hr.name hs.name hb.distinct hi.distinct
            hr.distinct hs.distinct ib ii ir is (rw (nb, ib, ni, ii, ns, is, nr, ir) refl),
      )

  -- Where the file of the variables loads, and in each of the four tables the names are distinct
  -- and are lowercase words joined by underscores and the texts that are parsed are token streams:
  -- gen_gucdef returns, and in the map of the file that it generates every name is looked up as
  -- the variant of GucIdx for the type of the variable and its place in the table; a name of several
  -- tables is bound by the last of BOOL, INT, STR and REAL, and other names are not bound.
  pub gen_gucdef-name_map :
      AsciiCase u
      → LexesItems
      → (docs : Fallible (List Yaml)) (gucs : Gucs) (n : Bytes) → load_gucs docs ≡ some gucs
      → TableOk (codes "Bool") gucs.bool_gucs
      → TableOk (codes "Int") gucs.int_gucs
      → TableOk (codes "Str") gucs.str_gucs
      → TableOk (codes "Real") gucs.real_gucs
      → (d : Gucdef) × (gen_gucdef u lexes docs ≡ some d)
        × (m : Assoc GucIdx) × (name_map d ≡ some m)
        × (lookup n m ≡ last_binding n (bindings gucs))
  unfolding gen_gucdef
  gen_gucdef-name_map a li docs gucs n load hb hi hs hr =
      let (d, e, m) = write_gucdef-name_map a li gucs hb hi hs hr in
      (d, rw load e, fill [] (bindings gucs), m, lookup-filled n (bindings gucs))
