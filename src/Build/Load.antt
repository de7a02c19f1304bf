-- ===== src/Build/Load.antt =====
-- build.rs: `load_gucs` sorts the variables of the file by their types.
pub mod Described
use kui_ba_db.Base.{
  ◌≡◌, refl, ap, ◌∙◌, inl, inr, List, [], ◌∷◌, ◌++◌, append_assoc, append-nil, Bytes, Bool, true,
  false, ◌&&◌, ◌||◌, Option, none, some, eq_bytes, eq_bytes_iff, ok, Bool-cases, if◌then◌else◌,
}
use kui_ba_db.Base.Text.{codes}
use kui_ba_db.Common.{Yaml, Items, array, end, item}
use kui_ba_db.Build.{
  Guc, Gucs, new_guc, push_guc, push_new, load_items, no_gucs, load_doc, load_gucs,
}

-- The variables of the file, all types mixed.
abbrev pub add_new : Option Guc → Option (List Guc) → Option (List Guc)
add_new (some g) (some gs) = some (g ∷ gs)
add_new _ _ = none

abbrev pub new_gucs : Items → Option (List Guc)
new_gucs end = some []
new_gucs (item y ys) = add_new (new_guc y) (new_gucs ys)

-- Those of a type, in the order of the file.
abbrev pub of_type : Bytes → List Guc → List Guc
of_type t [] = []
of_type t (g ∷ gs) = (if eq_bytes g.vartype t then g ∷ [] else []) ++ of_type t gs

abbrev known : Bytes → Bool
known t =
    eq_bytes t (codes "INT")
    || (eq_bytes t (codes "BOOL") || (eq_bytes t (codes "STR") || eq_bytes t (codes "REAL")))

abbrev pub all_known : List Guc → Bool
all_known [] = true
all_known (g ∷ gs) = known g.vartype && all_known gs

abbrev added : Gucs → List Guc → Gucs
added gucs gs = record {
  bool_gucs = gucs.bool_gucs ++ of_type (codes "BOOL") gs;
  int_gucs = gucs.int_gucs ++ of_type (codes "INT") gs;
  str_gucs = gucs.str_gucs ++ of_type (codes "STR") gs;
  real_gucs = gucs.real_gucs ++ of_type (codes "REAL") gs;
}

abbrev pub sorted_into : Gucs → Option (List Guc) → Option Gucs
sorted_into gucs none = none
sorted_into gucs (some gs) = if all_known gs then some (added gucs gs) else none

abbrev pub sorted : Option (List Guc) → Option Gucs
sorted = sorted_into no_gucs

abbrev then_sort : Option Gucs → Option (List Guc) → Option Gucs
then_sort none gs = none
then_sort (some gucs) gs = sorted_into gucs gs

then_sort-none : (m : Option Gucs) → then_sort m none ≡ none
then_sort-none none = refl
then_sort-none (some gucs) = refl

other : (v s t : Bytes) → eq_bytes v s ≡ true → eq_bytes s t ≡ false → eq_bytes v t ≡ false
other v s t e ne = ap (λ x. eq_bytes x t) ((eq_bytes_iff v s).0 e) ∙ ne

-- A variable is pushed to the table of its type.
sorted-push :
    (gucs : Gucs) (g : Guc) (gs : List Guc)
    → then_sort (push_guc gucs g) (some gs) ≡ sorted_into gucs (some (g ∷ gs))
unfolding push_guc
sorted-push gucs g gs = elim (Bool-cases (eq_bytes g.vartype (codes "INT"))) [
  | inl i ↦
      rw
        (
          i,
          other g.vartype (codes "INT") (codes "BOOL") i refl,
          other g.vartype (codes "INT") (codes "STR") i refl,
          other g.vartype (codes "INT") (codes "REAL") i refl,
          append_assoc gucs.int_gucs (g ∷ []) (of_type (codes "INT") gs),
        )
        refl
  | inr ni ↦ elim (Bool-cases (eq_bytes g.vartype (codes "BOOL"))) [
    | inl b ↦
        rw
          (
            ni,
            b,
            other g.vartype (codes "BOOL") (codes "STR") b refl,
            other g.vartype (codes "BOOL") (codes "REAL") b refl,
            append_assoc gucs.bool_gucs (g ∷ []) (of_type (codes "BOOL") gs),
          )
          refl
    | inr nb ↦ elim (Bool-cases (eq_bytes g.vartype (codes "STR"))) [
      | inl s ↦
          rw
            (
              ni,
              nb,
              s,
              other g.vartype (codes "STR") (codes "REAL") s refl,
              append_assoc gucs.str_gucs (g ∷ []) (of_type (codes "STR") gs),
            )
            refl
      | inr ns ↦ elim (Bool-cases (eq_bytes g.vartype (codes "REAL"))) [
        | inl r ↦
            rw (ni, nb, ns, r, append_assoc gucs.real_gucs (g ∷ []) (of_type (codes "REAL") gs))
              refl
        | inr nr ↦ rw (ni, nb, ns, nr) refl
      ]
    ]
  ]
]

then_sort-add :
    (gucs : Gucs) (g : Option Guc) (gs : Option (List Guc))
    → then_sort (push_new gucs g) gs ≡ sorted_into gucs (add_new g gs)
unfolding push_new
then_sort-add gucs none none = refl
then_sort-add gucs none (some gs) = refl
then_sort-add gucs (some g) none = then_sort-none (push_guc gucs g)
then_sort-add gucs (some g) (some gs) = sorted-push gucs g gs

load_step :
    (ys : Items) (m : Option Gucs)
    → ((gucs : Gucs) → load_items gucs ys ≡ sorted_into gucs (new_gucs ys))
    → elim m [ none ↦ none | some gucs' ↦ load_items gucs' ys ] ≡ then_sort m (new_gucs ys)
load_step ys none ih = refl
load_step ys (some gucs') ih = ih gucs'

load_items-sorted : (gucs : Gucs) (ys : Items) → load_items gucs ys ≡ sorted_into gucs (new_gucs ys)
unfolding load_items
load_items-sorted gucs end =
    rw
      (
        append-nil gucs.bool_gucs,
        append-nil gucs.int_gucs,
        append-nil gucs.str_gucs,
        append-nil gucs.real_gucs,
      )
      refl
load_items-sorted gucs (item y ys) =
    load_step ys (push_new gucs (new_guc y)) (λ gucs'. load_items-sorted gucs' ys)
    ∙ then_sort-add gucs (new_guc y) (new_gucs ys)

-- What load_gucs returns, by `new_guc`, on a file whose first document is an array, on every branch: it panics
-- (`none`) exactly where an entry lacks a text that is unwrapped or has a type that is not INT,
-- BOOL, STR or REAL, and otherwise each table has the entries of its type in the order of the file.
pub load_gucs-sorted :
    (ys : Items) (docs : List Yaml) → load_gucs (ok (array ys ∷ docs)) ≡ sorted (new_gucs ys)
unfolding load_gucs load_doc no_gucs
load_gucs-sorted ys docs = load_items-sorted no_gucs ys
