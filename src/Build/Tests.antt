-- ===== src/Build/Tests.antt =====
-- build.rs on small tables of variables, and the theorems at work on them.
use kui_ba_db.Base.Assoc.{Assoc, lookup}
use kui_ba_db.Build.Load.Described.{Tables, load_gucs_iff}
use mathlib.Core.Logic.{◌↔◌}
use kui_ba_db.Base.{
  ℕ, ◌≡◌, refl, ◌+◌, ◌-◌, inl, inr, List, [], ◌∷◌, All, arith, Bytes, Bool, true, false, ◌&&◌, ◌||◌,
  ◌⊎◌, ◌≤◌, leb, none, some, ok, if◌then◌else◌,
}
use kui_ba_db.Base.Text.{codes}
use kui_ba_db.Common.{Yaml, Items, string, array, hash, item, end, nil, cons, yaml_try_tostr}
use kui_ba_db.Guc.{GucIdx}
use kui_ba_db.Build.{
  Guc, Gucs, CharCase, as_str, is_key, find_entry, index, required, guc_of, or_zero, new_guc,
  push_guc, push_new, no_gucs, load_items, load_doc, load_gucs, to_camel_case,
}
use kui_ba_db.Build.Names.{IsWord, IsLower, IsTail, snake}
use kui_ba_db.Build.Camel.{
  AsciiCase, ascii_lower, ascii_upper, lower_snake, lower_snake-to_camel_case,
}
use kui_ba_db.Build.Format.{Gucdef, gen_gucdef}
use kui_ba_db.Build.Format.Insertions.{name_map}
use kui_ba_db.Build.Format.Places.{TableOk, Lexes, gen_gucdef-name_map}

abbrev ascii : CharCase
ascii = record {
  is_lowercase = ascii_lower;
  is_uppercase = ascii_upper;
  to_uppercase = λ c. (if ascii_lower c then c - 32 else c) ∷ [];
  to_lowercase = λ c. (if ascii_upper c then c + 32 else c) ∷ [];
}

ascii-AsciiCase : AsciiCase ascii
ascii-AsciiCase = record {
  lower = λ c h. refl;
  upper = λ c h. refl;
  to_upper = λ c h. refl;
  to_lower = λ c h. refl;
}

small : (c : ℕ) → ascii_lower c ≡ true → IsLower c
small c h = (ground arith, ground arith)

numeral : (c : ℕ) → (leb b'0' c && leb c b'9') ≡ true → (b'0' ≤ c) × (c ≤ b'9')
numeral c h = (ground arith, ground arith)

abbrev are_tail : Bytes → Bool
are_tail [] = true
are_tail (c ∷ cs) = (ascii_lower c || (leb b'0' c && leb c b'9')) && are_tail cs

and_true : (a b : Bool) → (a && b) ≡ true → (a ≡ true) × (b ≡ true)
and_true true b h = (refl, h)
and_true false b h = cc

or_cases : (a b : Bool) → (a || b) ≡ true → (a ≡ true) ⊎ (b ≡ true)
or_cases true b h = inl refl
or_cases false b h = inr h

tails : (cs : Bytes) → are_tail cs ≡ true → All IsTail cs
tails [] h = tt
tails (c ∷ cs) h =
    let (hc, hs) = and_true (ascii_lower c || (leb b'0' c && leb c b'9')) (are_tail cs) h in
    (
      elim (or_cases (ascii_lower c) (leb b'0' c && leb c b'9') hc) [
        | inl l ↦ inl (small c l)
        | inr d ↦ inr (numeral c d)
      ],
      tails cs hs,
    )

abbrev is_word : Bytes → Bool
is_word [] = false
is_word (c ∷ cs) = ascii_lower c && are_tail cs

word : (w : Bytes) → is_word w ≡ true → IsWord w
word [] h = cc
word (c ∷ cs) h =
    let (hc, hs) = and_true (ascii_lower c) (are_tail cs) h in (small c hc, tails cs hs)

abbrev words : List Bytes
words = codes "max" ∷ codes "level2" ∷ []

words-IsWord : All IsWord (codes "log" ∷ words)
words-IsWord =
    (word (codes "log") refl, (word (codes "max") refl, (word (codes "level2") refl, tt)))

lower_snake-to_camel_case_example :
    (item : Bytes) × (to_camel_case ascii (snake (codes "log") words) ≡ some item)
    × (lower_snake item ≡ codes "_log_max_level2")
lower_snake-to_camel_case_example =
    lower_snake-to_camel_case ascii ascii-AsciiCase (codes "log") words words-IsWord

abbrev entry : Bytes → Bytes → Yaml
entry name vartype = hash (
    cons (string (codes "name")) (string name) (
      cons (string (codes "vartype")) (string vartype) (
        cons (string (codes "context")) (string (codes "INTERNAL")) (
          cons (string (codes "short_desc")) (string (codes "text"))
            (cons (string (codes "boot_val")) (string (codes "1")) nil)))))

abbrev entries : Items
entries = item (entry (codes "port") (codes "INT")) (
    item (entry (codes "fsync") (codes "BOOL"))
      (item (entry (codes "log_level") (codes "INT")) end))

abbrev guc : Bytes → Bytes → Guc
guc name vartype = record {
  name = name;
  context = codes "INTERNAL";
  short_desc = codes "text";
  vartype = vartype;
  boot_val = codes "1";
  flags = codes "0";
  long_desc = none;
  preassign = none;
  show = none;
}

abbrev loaded : Gucs
loaded = record {
  bool_gucs = guc (codes "fsync") (codes "BOOL") ∷ [];
  int_gucs = guc (codes "port") (codes "INT") ∷ guc (codes "log_level") (codes "INT") ∷ [];
  str_gucs = [];
  real_gucs = [];
}

load_gucs_iff_example : (load_gucs (ok (array entries ∷ [])) ≡ some loaded) ↔ Tables entries loaded
load_gucs_iff_example = load_gucs_iff entries [] loaded

entries_load : load_gucs (ok (array entries ∷ [])) ≡ some loaded
unfolding load_gucs load_doc load_items push_new push_guc no_gucs new_guc guc_of required or_zero
    index find_entry is_key as_str yaml_try_tostr
entries_load = refl

abbrev lexes : Bytes → Bool
lexes v = true

all_lex : (ty name vartype : Bytes) → Lexes ascii lexes ty (guc name vartype)
all_lex ty name vartype = record {
  context = refl;
  vartype = refl;
  boot_val = λ e. refl;
  flags = refl;
  preassign = λ v e. refl;
  show = λ v e. refl;
}

bool_ok : TableOk ascii lexes (codes "Bool") loaded.bool_gucs
bool_ok = record {
  name = ((codes "fsync", [], refl, (word (codes "fsync") refl, tt)), tt);
  distinct = (tt, tt);
  texts = (all_lex (codes "Bool") (codes "fsync") (codes "BOOL"), tt);
}

int_ok : TableOk ascii lexes (codes "Int") loaded.int_gucs
int_ok = record {
  name = (
    (codes "port", [], refl, (word (codes "port") refl, tt)),
    (
      (
        codes "log",
        codes "level" ∷ [],
        refl,
        (word (codes "log") refl, (word (codes "level") refl, tt)),
      ),
      tt,
    ),
  );
  distinct = (((λ e. cc), tt), (tt, tt));
  texts = (
    all_lex (codes "Int") (codes "port") (codes "INT"),
    (all_lex (codes "Int") (codes "log_level") (codes "INT"), tt),
  );
}

gen_gucdef-name_map_example :
    (d : Gucdef) × (gen_gucdef ascii lexes (ok (array entries ∷ [])) ≡ some d)
    × (m : Assoc GucIdx) × (name_map d ≡ some m)
    × (lookup (codes "log_level") m ≡ some (GucIdx.int_idx 1))
gen_gucdef-name_map_example =
    gen_gucdef-name_map ascii lexes ascii-AsciiCase (λ w ws h. refl) (ok (array entries ∷ []))
      loaded (codes "log_level") entries_load bool_ok int_ok
      (record { name = tt; distinct = tt; texts = tt })
      (record { name = tt; distinct = tt; texts = tt })
