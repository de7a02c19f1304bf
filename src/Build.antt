-- ===== src/Build.antt =====
-- build.rs: the tables of configuration variables that the build makes of gucdef.yaml.
-- A text is the list of its characters. What Unicode says of a character is a parameter, and
-- `quote!` is modelled by the parts that it puts together: a token is a literal or parsed text.
pub mod Load
pub mod Names
pub mod Camel
pub mod Format
mod Tests
use kui_ba_db.Base.{
  ℕ, List, [], ◌∷◌, ◌++◌, map, Bytes, Bool, true, false, not, ◌&&◌, ◌||◌, Option, none, some,
  length, eq_bytes, ◌==◌, Outcome, ok, err, panic, if◌then◌else◌,
}
use kui_ba_db.Base.Text.{codes, to_ascii_uppercase}
use kui_ba_db.Common.{
  Yaml, Items, Entries, string, array, hash, other, item, end, nil, cons, yaml_try_tostr,
}
use kui_ba_db.Utils.Err.{Fallible}

pub record Guc : Type 0 where
  pub name : Bytes
  pub context : Bytes
  pub short_desc : Bytes
  pub vartype : Bytes
  pub boot_val : Bytes
  pub flags : Bytes
  pub long_desc : Option Bytes
  pub preassign : Option Bytes
  pub show : Option Bytes

pub record Gucs : Type 0 where
  pub bool_gucs : List Guc
  pub int_gucs : List Guc
  pub str_gucs : List Guc
  pub real_gucs : List Guc

-- `Yaml::as_str`, and `Yaml` indexed by a text: a missing entry is a bad value.
pub as_str : Yaml → Option Bytes
as_str (string v) = some v
as_str _ = none

is_key : Bytes → Option Bytes → Bool
is_key k none = false
is_key k (some j) = eq_bytes j k

pub find_entry : Bytes → Entries → Yaml
find_entry k nil = other
find_entry k (cons key val es) = if is_key k (as_str key) then val else find_entry k es

pub index : Yaml → Bytes → Yaml
index (hash es) k = find_entry k es
index _ k = other

-- The texts that `Guc::new` unwraps; `none` is the panic.
record Required : Type 0 where
  name : Bytes
  context : Bytes
  short_desc : Bytes
  vartype : Bytes
  boot_val : Bytes

required :
    Option Bytes → Option Bytes → Option Bytes → Option Bytes → Option Bytes → Option Required
required (some n) (some c) (some d) (some t) (some b) =
    some (record { name = n; context = c; short_desc = d; vartype = t; boot_val = b })
required _ _ _ _ _ = none

or_zero : Option Bytes → Bytes
or_zero none = codes "0"
or_zero (some v) = v

guc_of : Yaml → Option Required → Option Guc
guc_of val none = none
guc_of val (some r) = some (record {
  name = r.name;
  context = r.context;
  short_desc = r.short_desc;
  vartype = r.vartype;
  boot_val = r.boot_val;
  flags = or_zero (as_str (index val (codes "flags")));
  long_desc = as_str (index val (codes "long_desc"));
  preassign = as_str (index val (codes "preassign"));
  show = as_str (index val (codes "show"));
})

-- Guc::new
pub new_guc : Yaml → Option Guc
new_guc val = guc_of val (
    required (as_str (index val (codes "name"))) (as_str (index val (codes "context")))
      (as_str (index val (codes "short_desc"))) (as_str (index val (codes "vartype")))
      (yaml_try_tostr (index val (codes "boot_val"))))

-- The `match vartype`: the table that the variable is pushed to.
pub push_guc : Gucs → Guc → Option Gucs
push_guc gucs guc =
    if eq_bytes guc.vartype (codes "INT")
    then some (record gucs { int_gucs = gucs.int_gucs ++ guc ∷ [] })
    else if eq_bytes guc.vartype (codes "BOOL")
    then some (record gucs { bool_gucs = gucs.bool_gucs ++ guc ∷ [] })
    else if eq_bytes guc.vartype (codes "STR")
    then some (record gucs { str_gucs = gucs.str_gucs ++ guc ∷ [] })
    else if eq_bytes guc.vartype (codes "REAL")
    then some (record gucs { real_gucs = gucs.real_gucs ++ guc ∷ [] })
    else none

pub push_new : Gucs → Option Guc → Option Gucs
push_new gucs none = none
push_new gucs (some guc) = push_guc gucs guc

-- The loop over the array.
pub load_items : Gucs → Items → Option Gucs
load_items gucs end = some gucs
load_items gucs (item y ys) = elim (push_new gucs (new_guc y)) [
  | none ↦ none
  | some gucs' ↦ load_items gucs' ys
]

pub no_gucs : Gucs
no_gucs = record { bool_gucs = []; int_gucs = []; str_gucs = []; real_gucs = [] }

load_doc : List Yaml → Option Gucs
load_doc (array ys ∷ docs) = load_items no_gucs ys
load_doc _ = none

-- load_gucs: `docs` is what `common::load_yaml` makes of the file.
pub load_gucs : Fallible (List Yaml) → Option Gucs
load_gucs (ok docs) = load_doc docs
load_gucs (err e) = none
load_gucs panic = none

-- What Unicode says of a character.
pub record CharCase : Type 0 where
  pub is_lowercase : ℕ → Bool
  pub is_uppercase : ℕ → Bool
  pub to_uppercase : ℕ → List ℕ
  pub to_lowercase : ℕ → List ℕ

-- `trim_matches('_')`, `split('_')` and the filter of the parts.
pub trim_start : Bytes → Bytes
trim_start [] = []
trim_start (c ∷ cs) = if c == b'_' then trim_start cs else c ∷ cs

is_empty : Bytes → Bool
is_empty [] = true
is_empty (c ∷ cs) = false

pub trim_end : Bytes → Bytes
trim_end [] = []
trim_end (c ∷ cs) = if c == b'_' && is_empty (trim_end cs) then [] else c ∷ trim_end cs

push_front : ℕ → List Bytes → List Bytes
push_front c [] = (c ∷ []) ∷ []
push_front c (w ∷ ws) = (c ∷ w) ∷ ws

pub split : Bytes → List Bytes
split [] = [] ∷ []
split (c ∷ cs) = if c == b'_' then [] ∷ split cs else push_front c (split cs)

pub non_empty : List Bytes → List Bytes
non_empty [] = []
non_empty (w ∷ ws) = if is_empty w then non_empty ws else w ∷ non_empty ws

first_char : Bytes → Option ℕ
first_char [] = none
first_char (c ∷ cs) = some c

last_char : Bytes → Option ℕ
last_char [] = none
last_char (c ∷ []) = some c
last_char (c ∷ d ∷ cs) = last_char (d ∷ cs)

module _ (u : CharCase) where
  pub char_has_case : ℕ → Bool
  char_has_case c = u.is_lowercase c || u.is_uppercase c

  -- The loop over the characters of a component.
  camel_chars : Bool → Bool → Bytes → Bytes
  camel_chars new_word prev_is_lower_case [] = []
  camel_chars new_word prev_is_lower_case (c ∷ cs) =
      (if (prev_is_lower_case && u.is_uppercase c) || new_word
        then u.to_uppercase c
        else u.to_lowercase c)
      ++ camel_chars false (u.is_lowercase c) cs

  camel_component : Bytes → Bytes
  camel_component component = camel_chars true true component

  -- What stands between two components; `none` is the panic of `unwrap`.
  separator : Option ℕ → Option ℕ → Option Bytes
  separator (some l) (some f) =
      if not (char_has_case l) && not (char_has_case f) then some (codes "_") else some []
  separator _ _ = none

  joined : Option Bytes → Bytes → Option Bytes → Option Bytes
  joined none next rest = none
  joined (some sep) next none = none
  joined (some sep) next (some rest) = some (sep ++ (next ++ rest))

  -- The fold over the components, from the one before them on.
  camel_rest : Bytes → List Bytes → Option Bytes
  camel_rest prev [] = some []
  camel_rest prev (next ∷ rest) =
      joined (separator (last_char prev) (first_char next)) next (camel_rest next rest)

  camel_join : List Bytes → Option Bytes
  camel_join [] = some []
  camel_join (next ∷ rest) = joined (some []) next (camel_rest next rest)

  pub to_camel_case : Bytes → Option Bytes
  to_camel_case s = camel_join (map camel_component (non_empty (split (trim_end (trim_start s)))))
