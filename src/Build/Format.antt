-- ===== src/Build/Format.antt =====
-- build.rs: what the build writes to gucdef.rs.
pub mod Insertions
pub mod Places
use kui_ba_db.Base.{
  ℕ, List, [], ◌∷◌, ◌++◌, map, Bytes, Bool, true, false, Option, none, some, length, eq_bytes,
  if◌then◌else◌,
}
use kui_ba_db.Base.Text.{codes, to_ascii_uppercase}
use kui_ba_db.Common.{Yaml}
use kui_ba_db.Utils.Err.{Fallible}
use kui_ba_db.Build.{Guc, Gucs, CharCase, first_char, to_camel_case, load_gucs}

-- `none` is the panic of `unwrap`.
infixl 5 ◌>>=◌
abbrev ◌>>=◌ : {A B : Type 0} → Option A → (A → Option B) → Option B
none >>= f = none
some a >>= f = f a

-- What a `TokenStream` is made of: `Literal::string`, and `str::parse`.
pub data Token : Type 0 where
  literal parsed : Bytes → Token

-- What the loop of format_gucs pushes for a variable. The description and the type of the
-- variable, which are never written, are left out.
pub record Row : Type 0 where
  pub name : Token
  pub context : Token
  pub flags : Token
  pub show : Option Token
  pub preassign : Option Token
  pub boot_val : Token
  pub enumitem : Token

-- `pub const #const_ident: [#const_type; #const_size] = [..]` and `pub enum #enum_ident {..}`.
pub record Table : Type 0 where
  pub const_ident : Bytes
  pub const_type : Bytes
  pub const_size : ℕ
  pub rows : List Row
  pub enum_ident : ℕ
  pub items : List Token

pub record FormatRet : Type 0 where
  pub name : List Token
  pub enumitem : List Token
  pub boot_val : List Token

-- `m.insert(#name, GucIdx::L(L::#item));` for the letter L.
pub record Insert : Type 0 where
  pub letter : ℕ
  pub name : Token
  pub item : Token

-- The generated file: the tables, `GucVals` and the insertions of GUC_NAMEINFO_MAP.
pub record Gucdef : Type 0 where
  pub bool_table : Table
  pub int_table : Table
  pub str_table : Table
  pub real_table : Table
  pub bool_vals : ℕ × List Token
  pub str_vals : ℕ × List Token
  pub int_vals : ℕ × List Token
  pub real_vals : ℕ × List Token
  pub inserts : List Insert

pub zip_inserts : ℕ → List Token → List Token → List Insert
zip_inserts l (n ∷ ns) (i ∷ is) = record { letter = l; name = n; item = i } ∷ zip_inserts l ns is
zip_inserts l _ _ = []

table : Bytes → List Guc → ℕ → List Row → Table
table var_logical_type gucs letter rows = record {
  const_ident = map to_ascii_uppercase var_logical_type ++ codes "_GUCS";
  const_type = var_logical_type;
  const_size = length gucs;
  rows = rows;
  enum_ident = letter;
  items = map (λ r. r.enumitem) rows;
}

format_ret : List Row → FormatRet
format_ret rows = record {
  name = map (λ r. r.name) rows;
  enumitem = map (λ r. r.enumitem) rows;
  boot_val = map (λ r. r.boot_val) rows;
}

gucdef :
    Gucs → Table → FormatRet → Table → FormatRet → Table → FormatRet → Table → FormatRet → Gucdef
gucdef gucs bool_table bool_ret int_table int_ret str_table str_ret real_table real_ret = record {
  bool_table = bool_table;
  int_table = int_table;
  str_table = str_table;
  real_table = real_table;
  bool_vals = (length gucs.bool_gucs, bool_ret.boot_val);
  str_vals = (length gucs.str_gucs, str_ret.boot_val);
  int_vals = (length gucs.int_gucs, int_ret.boot_val);
  real_vals = (length gucs.real_gucs, real_ret.boot_val);
  inserts =
      zip_inserts b'B' bool_ret.name bool_ret.enumitem
      ++ (zip_inserts b'I' int_ret.name int_ret.enumitem
          ++ (zip_inserts b'S' str_ret.name str_ret.enumitem
              ++ zip_inserts b'R' real_ret.name real_ret.enumitem));
}

-- `lexes` says of a text whether it is a `TokenStream`.
module _ (u : CharCase) (lexes : Bytes → Bool) where
  parse : Bytes → Option Token
  parse v = if lexes v then some (parsed v) else none

  some_token : Option Token → Option (Option Token)
  some_token none = none
  some_token (some t) = some (some t)

  option_tokenstream : Option Bytes → Bool → Option (Option Token)
  option_tokenstream none asstr = some none
  option_tokenstream (some v) asstr = some_token (if asstr then some (literal v) else parse v)

  boot_token : Bytes → Bytes → Option Token
  boot_token var_logical_type v =
      if eq_bytes var_logical_type (codes "Str") then some (literal v) else parse v

  -- One turn of the loop.
  format_guc : Bytes → Guc → Option Row
  format_guc var_logical_type guc = do
    context ← parse guc.context
    vartype ← parse guc.vartype
    boot_val ← boot_token var_logical_type guc.boot_val
    flags ← parse guc.flags
    preassign ← option_tokenstream guc.preassign false
    show ← option_tokenstream guc.show false
    camel ← to_camel_case u guc.name
    enumitem ← parse camel
    some (record {
      name = literal guc.name;
      context = context;
      flags = flags;
      show = show;
      preassign = preassign;
      boot_val = boot_val;
      enumitem = enumitem;
    })

  format_rows : Bytes → List Guc → Option (List Row)
  format_rows var_logical_type [] = some []
  format_rows var_logical_type (guc ∷ gucs) = do
    row ← format_guc var_logical_type guc
    rows ← format_rows var_logical_type gucs
    some (row ∷ rows)

  format_gucs : Bytes → List Guc → Option (Table × FormatRet)
  format_gucs var_logical_type gucs = do
    rows ← format_rows var_logical_type gucs
    letter ← first_char var_logical_type
    some (table var_logical_type gucs letter rows, format_ret rows)

  write_gucdef : Gucs → Option Gucdef
  write_gucdef gucs = do
    (bool_table, bool_ret) ← format_gucs (codes "Bool") gucs.bool_gucs
    (int_table, int_ret) ← format_gucs (codes "Int") gucs.int_gucs
    (str_table, str_ret) ← format_gucs (codes "Str") gucs.str_gucs
    (real_table, real_ret) ← format_gucs (codes "Real") gucs.real_gucs
    some (gucdef gucs bool_table bool_ret int_table int_ret str_table str_ret real_table real_ret)

  pub gen_gucdef : Fallible (List Yaml) → Option Gucdef
  gen_gucdef docs = do gucs ← load_gucs docs; write_gucdef gucs
