-- ===== src/Build/Format/Insertions.antt =====
-- build.rs: GUC_NAMEINFO_MAP as the insertions of the generated file fill it, table by table.
use kui_ba_db.Base.{
  ℕ, suc, ◌≡◌, refl, sym, ap, ◌∙◌, ◌≢◌, List, [], ◌∷◌, ◌++◌, append-nil, map, All, Bytes, false,
  Option, none, some, eq_bytes, eq_bytes_iff, Bool-cases, inl, inr, ◌==◌, if◌then◌else◌,
}
use kui_ba_db.Base.{Bool, true}
use kui_ba_db.Base.Assoc.{Assoc, lookup, insert, lookup-insert}
use kui_ba_db.Guc.{GucIdx}
use kui_ba_db.Build.{Guc, Gucs}
use kui_ba_db.Build.Names.{IsWord, snake}
use kui_ba_db.Build.Camel.{capitals, lower_snake, lower_snake-snake}
use kui_ba_db.Build.Format.{Token, literal, parsed, Insert, Gucdef, zip_inserts}

-- A name of lowercase words that underscores join.
abbrev pub IsName : Bytes → Type 0
IsName s = (w : Bytes) × (ws : List Bytes) × (s ≡ snake w ws) × All IsWord (w ∷ ws)

abbrev pub Distinct : List Bytes → Type 0
Distinct [] = Unit
Distinct (n ∷ ns) = All (λ m. n ≢ m) ns × Distinct ns

-- The discriminant of an enum item: its place among the items of the enum, from `k` on.
abbrev pub discriminant : ℕ → Bytes → List Token → Option ℕ
discriminant k i [] = none
discriminant k i (literal j ∷ js) = discriminant (suc k) i js
discriminant k i (parsed j ∷ js) = if eq_bytes j i then some k else discriminant (suc k) i js

abbrev pub put :
    Bytes
    → (ℕ → GucIdx)
    → Option ℕ
    → Option (List (Bytes × GucIdx))
    → Option (List (Bytes × GucIdx))
put name idx (some k) (some m) = some ((name, idx k) ∷ m)
put name idx _ _ = none

-- What the insertions `m.insert(name, GucIdx::L(L::item))` bind, one after the other; `enum L` is the enum of the letter, and its variant of GucIdx. `none` says that the
-- file does not compile.
module _ (enum : ℕ → List Token) (variant : ℕ → ℕ → GucIdx) where
  abbrev insertion :
      ℕ → Token → Token → Option (List (Bytes × GucIdx)) → Option (List (Bytes × GucIdx))
  insertion l (literal n) (parsed j) rest = put n (variant l) (discriminant 0 j (enum l)) rest
  insertion l _ _ rest = none

  abbrev insertions : List Insert → Option (List (Bytes × GucIdx))
  insertions [] = some []
  insertions (i ∷ is) = insertion i.letter i.name i.item (insertions is)

abbrev pub enum_items : Gucdef → ℕ → List Token
enum_items d l =
    if l == d.bool_table.enum_ident
    then d.bool_table.items
    else if l == d.int_table.enum_ident
    then d.int_table.items
    else if l == d.str_table.enum_ident
    then d.str_table.items
    else if l == d.real_table.enum_ident
    then d.real_table.items
    else []

abbrev pub variant : ℕ → ℕ → GucIdx
variant l =
    if l == b'B'
    then GucIdx.bool_idx
    else if l == b'I'
    then GucIdx.int_idx
    else if l == b'S'
    then GucIdx.str_idx
    else GucIdx.real_idx

-- The map that is filled by insertions, the first one first: a later one replaces a binding.
abbrev pub fill : Assoc GucIdx → List (Bytes × GucIdx) → Assoc GucIdx
fill m [] = m
fill m ((n, idx) ∷ bs) = fill (insert n idx m) bs

abbrev filled : Option (List (Bytes × GucIdx)) → Option (Assoc GucIdx)
filled none = none
filled (some bs) = some (fill [] bs)

-- The map that the generated file makes.
abbrev pub name_map : Gucdef → Option (Assoc GucIdx)
name_map d = filled (insertions (enum_items d) variant d.inserts)

-- The last binding of a name.
abbrev or_else : Option GucIdx → Option GucIdx → Option GucIdx
or_else none o = o
or_else (some idx) o = some idx

abbrev pub last_binding : Bytes → List (Bytes × GucIdx) → Option GucIdx
last_binding n [] = none
last_binding n ((j, idx) ∷ bs) =
    or_else (last_binding n bs) (if eq_bytes j n then some idx else none)

or_else-none : (o : Option GucIdx) → or_else o none ≡ o
or_else-none none = refl
or_else-none (some idx) = refl

or_else-if :
    (c : Bool) (o p : Option GucIdx) (idx : GucIdx)
    → or_else o (if c then some idx else p) ≡ or_else (or_else o (if c then some idx else none)) p
or_else-if true none p idx = refl
or_else-if false none p idx = refl
or_else-if c (some i) p idx = refl

lookup-fill :
    (n : Bytes) (m : Assoc GucIdx) (bs : List (Bytes × GucIdx))
    → lookup n (fill m bs) ≡ or_else (last_binding n bs) (lookup n m)
lookup-fill n m [] = refl
lookup-fill n m ((j, idx) ∷ bs) =
    lookup-fill n (insert j idx m) bs
    ∙ ap (or_else (last_binding n bs)) (lookup-insert j n idx m)
    ∙ or_else-if (eq_bytes j n) (last_binding n bs) (lookup n m) idx

-- A name is looked up in the filled map.
pub lookup-filled :
    (n : Bytes) (bs : List (Bytes × GucIdx)) → lookup n (fill [] bs) ≡ last_binding n bs
unfolding lookup
lookup-filled n bs = lookup-fill n [] bs ∙ or_else-none (last_binding n bs)

-- The names with their places.
abbrev pub numbered : (ℕ → GucIdx) → ℕ → List Bytes → List (Bytes × GucIdx)
numbered idx k [] = []
numbered idx k (n ∷ ns) = (n, idx k) ∷ numbered idx (suc k) ns

abbrev pub names : List Guc → List Bytes
names = map (λ g. g.name)

-- The names of the four tables with their places, in the order of the tables.
abbrev pub bindings : Gucs → List (Bytes × GucIdx)
bindings gucs =
    numbered GucIdx.bool_idx 0 (names gucs.bool_gucs)
    ++ (numbered GucIdx.int_idx 0 (names gucs.int_gucs)
        ++ (numbered GucIdx.str_idx 0 (names gucs.str_gucs)
            ++ numbered GucIdx.real_idx 0 (names gucs.real_gucs)))

abbrev pub item : (n : Bytes) → IsName n → Bytes
item n (w, ws, e, h) = capitals (w ∷ ws)

abbrev pub items : (ns : List Bytes) → All IsName ns → List Bytes
items [] h = []
items (n ∷ ns) (h, hs) = item n h ∷ items ns hs

lower_snake-item : (n : Bytes) (h : IsName n) → lower_snake (item n h) ≡ b'_' ∷ n
lower_snake-item n (w, ws, e, h) = lower_snake-snake w ws h ∙ ap (λ t. b'_' ∷ t) (sym e)

tail-injective : {x : ℕ} {n m : Bytes} → x ∷ n ≡ x ∷ m → n ≡ m
tail-injective e = cc

item-differ :
    (n m : Bytes) (hn : IsName n) (hm : IsName m) → n ≢ m → eq_bytes (item n hn) (item m hm) ≡ false
item-differ n m hn hm ne = elim (Bool-cases (eq_bytes (item n hn) (item m hm))) [
  | inr differ ↦ differ
  | inl same ↦
      let e : b'_' ∷ n ≡ b'_' ∷ m =
        sym (lower_snake-item n hn)
        ∙ (ap lower_snake ((eq_bytes_iff (item n hn) (item m hm)).0 same)
            ∙ lower_snake-item m hm) in
      absurd (ne (tail-injective e))
]

-- The items after the first one are found among the others.
discriminant-rest :
    (k : ℕ) (n : Bytes) (hn : IsName n) (whole : List Token) (js : List Token) (ns : List Bytes)
    (hs : All IsName ns)
    → All (λ m. n ≢ m) ns
    → All (λ j. discriminant 0 j whole ≡ discriminant k j (parsed (item n hn) ∷ js)) (items ns hs)
    → All (λ j. discriminant 0 j whole ≡ discriminant (suc k) j js) (items ns hs)
discriminant-rest k n hn whole js [] hs ne all = tt
discriminant-rest k n hn whole js (m ∷ ns) (hm, hs) (ne, nes) (e, es) =
    (e ∙ rw (item-differ n m hn hm ne) refl, discriminant-rest k n hn whole js ns hs nes es)

module _ (enum : ℕ → List Token) (variant : ℕ → ℕ → GucIdx) where
  insertions-table :
      (l k : ℕ) (ns : List Bytes) (hs : All IsName ns) (rest : List Insert)
      (m : List (Bytes × GucIdx))
      → Distinct ns
      → All
          (λ j. discriminant 0 j (enum l) ≡ discriminant k j (map parsed (items ns hs)))
          (items ns hs)
      → insertions enum variant rest ≡ some m
      → insertions enum variant (zip_inserts l (map literal ns) (map parsed (items ns hs)) ++ rest)
        ≡ some (numbered (variant l) k ns ++ m)
  unfolding zip_inserts
  insertions-table l k [] hs rest m d all h = h
  insertions-table l k (n ∷ ns) (hn, hs) rest m (ne, d) (e, all) h =
      let found : discriminant 0 (item n hn) (enum l) ≡ some k =
        e ∙ rw ((eq_bytes_iff (item n hn) (item n hn)).1 refl) refl in
      rw
        (
          found,
          insertions-table l (suc k) ns hs rest m d
              (discriminant-rest k n hn (enum l) (map parsed (items ns hs)) ns hs ne all) h,
        )
        refl

  insertions-last :
      (l : ℕ) (ns : List Bytes) (hs : All IsName ns)
      → Distinct ns
      → All
          (λ j. discriminant 0 j (enum l) ≡ discriminant 0 j (map parsed (items ns hs)))
          (items ns hs)
      → insertions enum variant (zip_inserts l (map literal ns) (map parsed (items ns hs)))
        ≡ some (numbered (variant l) 0 ns)
  insertions-last l ns hs d all =
      let e = insertions-table l 0 ns hs [] [] d all refl in
      ap (insertions enum variant)
        (sym (append-nil (zip_inserts l (map literal ns) (map parsed (items ns hs)))))
      ∙ (e ∙ ap some (append-nil (numbered (variant l) 0 ns)))

same_items :
    (whole js : List Token)
    → whole ≡ js
    → (is : List Bytes) → All (λ j. discriminant 0 j whole ≡ discriminant 0 j js) is
same_items whole js e [] = tt
same_items whole js e (i ∷ is) = (ap (discriminant 0 i) e, same_items whole js e is)

abbrev pub letter_inserts : ℕ → (ns : List Bytes) → All IsName ns → List Insert
letter_inserts l ns hs = zip_inserts l (map literal ns) (map parsed (items ns hs))

pub name_map-tables :
    (d : Gucdef) (nb ni nr ns : List Bytes) (hb : All IsName nb) (hi : All IsName ni)
    (hr : All IsName nr) (hs : All IsName ns)
    → Distinct nb
    → Distinct ni
    → Distinct nr
    → Distinct ns
    → enum_items d b'B' ≡ map parsed (items nb hb)
    → enum_items d b'I' ≡ map parsed (items ni hi)
    → enum_items d b'R' ≡ map parsed (items nr hr)
    → enum_items d b'S' ≡ map parsed (items ns hs)
    → d.inserts
      ≡ letter_inserts b'B' nb hb
        ++ (letter_inserts b'I' ni hi ++ (letter_inserts b'S' ns hs ++ letter_inserts b'R' nr hr))
    → name_map d
      ≡ some (
          fill [] (
            numbered GucIdx.bool_idx 0 nb
            ++ (numbered GucIdx.int_idx 0 ni
                ++ (numbered GucIdx.str_idx 0 ns ++ numbered GucIdx.real_idx 0 nr))))
name_map-tables d nb ni nr ns hb hi hr hs db di dr ds eb ei er es e = ap filled (
    ap (insertions (enum_items d) variant) e
    ∙ (insertions-table (enum_items d) variant b'B' 0 nb hb _ _ db (same_items _ _ eb _) (
        insertions-table (enum_items d) variant b'I' 0 ni hi _ _ di (same_items _ _ ei _) (
          insertions-table (enum_items d) variant b'S' 0 ns hs _ _ ds (same_items _ _ es _)
            (insertions-last (enum_items d) variant b'R' nr hr dr (same_items _ _ er _))))))
