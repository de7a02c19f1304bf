-- ===== src/Protocol/Startup/Total.antt =====
-- protocol.rs: `StartupMessage::deserialize` on any input, and what a client writes for it.
use kui_ba_db.Base.{
  ℕ, zero, suc, ◌+◌, ◌*◌, ◌≤◌, ◌<◌, ◌≡◌, refl, sym, ap, ◌∙◌, arith, inl, inr, List, [], ◌∷◌, ◌++◌,
  append_assoc, Bytes, All, length, drop, none, some, Option-cases, false, ok,
}
use kui_ba_db.Base.Text.{codes}
use kui_ba_db.Base.Assoc.{Assoc, lookup, insert}
use kui_ba_db.Utils.Ser.{from_le_bytes}
use kui_ba_db.Utils.Err.{errcode, kbanyhow}
use kui_ba_db.Protocol.Errcodes.{errcode_protocol_violation}
use kui_ba_db.Protocol.Message.{Str}
use kui_ba_db.Protocol.Startup.{
  Cursor, StartupMessage, startup_user_param, is_empty, read_cstr, read_params, ok_or_else,
  deserialize_startup,
}
use kui_ba_db.Protocol.Startup.Cstr.{
  Refuses, Refuses-bind, IsText, past, past-inside, past-rest, read_cstr_cases,
}

-- The parameters as a client writes them: names and values as C strings, and an empty name.
abbrev pub encode_params : List (Str × Str) → Bytes
encode_params [] = 0 ∷ []
encode_params ((k, v) ∷ ps) = k ++ 0 ∷ (v ++ 0 ∷ encode_params ps)

abbrev pub IsParam : Str × Str → Type 0
IsParam (k, v) = IsText k × (is_empty k ≡ false) × IsText v

-- A later parameter of the same name replaces an earlier one.
abbrev pub insert_all : List (Str × Str) → Assoc Str → Assoc Str
insert_all [] m = m
insert_all ((k, v) ∷ ps) m = insert_all ps (insert k v m)

-- The loop refuses, or it has read some parameters to their end and inserted them in order.
data ParamsOutcome (fuel : ℕ) (c : Cursor) (m : Assoc Str) : Type 0 where
  refused : Refuses (read_params fuel c m) → ParamsOutcome fuel c m
  all_read :
      (ps : List (Str × Str)) (rest : Bytes)
      → drop c.position c.bytes ≡ encode_params ps ++ rest
      → All IsParam ps
      → read_params fuel c m ≡ ok (insert_all ps m)
      → ParamsOutcome fuel c m

-- The rounds of the loop: one that ends it, one whose name or value is refused, one that goes on.
module _ (fuel : ℕ) (c : Cursor) (m : Assoc Str) where
  pub params_end : {c' : Cursor} → read_cstr c ≡ ok ([], c') → read_params (suc fuel) c m ≡ ok m
  unfolding read_params is_empty
  params_end e = rw e refl

  params_refused : Refuses (read_cstr c) → Refuses (read_params (suc fuel) c m)
  unfolding read_params
  params_refused r = Refuses-bind (read_cstr c) _ r

  module _ (k : Str) (c' : Cursor) (name : read_cstr c ≡ ok (k, c')) (ne : is_empty k ≡ false) where
    value_refused : Refuses (read_cstr c') → Refuses (read_params (suc fuel) c m)
    unfolding read_params
    value_refused r = rw name (rw ne (Refuses-bind (read_cstr c') _ r))

    pub params_next :
        (v : Str) (c'' : Cursor)
        → read_cstr c' ≡ ok (v, c'')
        → read_params (suc fuel) c m ≡ read_params fuel c'' (insert k v m)
    unfolding read_params
    params_next v c'' value = rw name (rw ne (rw value refl))

join_param :
    (k v : Str) (enc last : Bytes) {d rest rest' : Bytes}
    → d ≡ k ++ 0 ∷ rest
    → rest ≡ v ++ 0 ∷ rest'
    → rest' ≡ enc ++ last
    → d ≡ (k ++ 0 ∷ (v ++ 0 ∷ enc)) ++ last
join_param k v enc last e1 e2 e3 = e1 ∙ rw (e2, e3) (simp append_assoc)

read_params_cases :
    (fuel : ℕ) (c : Cursor) (m : Assoc Str)
    → c.position ≤ length c.bytes
    → length c.bytes < c.position + fuel
    → ParamsOutcome fuel c m
read_params_cases zero c m inside h = absurd (omega arith)
read_params_cases (suc fuel) c m inside h = elim (read_cstr_cases c inside) [
  | inl r ↦ refused (params_refused fuel c m r)
  | inr ([], rest, here, t, e) ↦ all_read [] rest here tt (params_end fuel c m e)
  | inr (x ∷ k, rest, here, t, e) ↦
      let c1 = past c inside (x ∷ k) in
      let in1 = past-inside c inside (x ∷ k) rest here in
      let at1 = past-rest c inside (x ∷ k) rest here in
      let ne : is_empty (x ∷ k) ≡ false = unfold is_empty in refl in
      elim (read_cstr_cases c1 in1) [
        | inl r ↦ refused (value_refused fuel c m (x ∷ k) c1 e ne r)
        | inr (v, rest', here', t', e') ↦
            let c2 = past c1 in1 v in
            let go = params_next fuel c m (x ∷ k) c1 e ne v c2 e' in
            elim (read_params_cases fuel c2 (insert (x ∷ k) v m) (past-inside c1 in1 v rest' here')
              (omega arith)) [
                | refused r ↦ refused (rw go r)
                | all_read ps last at2 valid done ↦
                    all_read ((x ∷ k, v) ∷ ps) last
                      (join_param (x ∷ k) v (encode_params ps) last here (sym at1 ∙ here')
                        (sym (past-rest c1 in1 v rest' here') ∙ at2))
                      ((t, ne, t'), valid) (go ∙ done)
              ]
      ]
]

-- Every outcome of `StartupMessage::deserialize`: a protocol violation, or a message whose
-- parameters are what the bytes behind the version spell, with the value of `user`.
pub data StartupOutcome (d : Bytes) : Type 0 where
  violation : Refuses (deserialize_startup d) → StartupOutcome d
  accepted :
      (d0 d1 d2 d3 : ℕ) (ps : List (Str × Str)) (rest : Bytes) (m : StartupMessage)
      → d ≡ d0 ∷ d1 ∷ d2 ∷ d3 ∷ (encode_params ps ++ rest)
      → All IsParam ps
      → m.params ≡ insert_all ps []
      → lookup startup_user_param m.params ≡ some m.username
      → (m.major_ver ≡ d0 * 256 + d1) × (m.minor_ver ≡ d2 * 256 + d3)
      → deserialize_startup d ≡ ok m
      → StartupOutcome d

module _ (d0 d1 d2 d3 : ℕ) (d : Bytes) (params : Assoc Str) where
  abbrev pub message : Str → StartupMessage
  message user = record {
    major_ver = d0 * 256 + d1;
    minor_ver = d2 * 256 + d3;
    username = user;
    params = params;
  }

  module _
      (read : read_params (suc (length d)) (record { bytes = d; position = 0 }) []
        ≡ ok params) where
    pub startup_user :
        (user : Str)
        → lookup startup_user_param params ≡ some user
        → deserialize_startup (d0 ∷ d1 ∷ d2 ∷ d3 ∷ d) ≡ ok (message user)
    unfolding deserialize_startup from_le_bytes
    startup_user user u =
        let major : d1 + 256 * (d0 + 256 * 0) ≡ d0 * 256 + d1 = omega arith in
        let minor : d3 + 256 * (d2 + 256 * 0) ≡ d2 * 256 + d3 = omega arith in
        rw read (rw (u, major, minor) (unfold ok_or_else in refl))

    pub startup_no_user :
        lookup startup_user_param params ≡ none
        → Refuses (deserialize_startup (d0 ∷ d1 ∷ d2 ∷ d3 ∷ d))
    unfolding deserialize_startup errcode
    startup_no_user u = (
      kbanyhow errcode_protocol_violation (codes "StartupMessage: no user key"),
      rw read (rw u (unfold ok_or_else in refl)),
      refl,
    )

short_startup : (d : Bytes) → length d < 4 → Refuses (deserialize_startup d)
unfolding deserialize_startup errcode
short_startup [] h =
    (kbanyhow errcode_protocol_violation (codes "invalid StartupMessage"), refl, refl)
short_startup (a ∷ []) h =
    (kbanyhow errcode_protocol_violation (codes "invalid StartupMessage"), refl, refl)
short_startup (a ∷ b ∷ []) h =
    (kbanyhow errcode_protocol_violation (codes "invalid StartupMessage"), refl, refl)
short_startup (a ∷ b ∷ c ∷ []) h =
    (kbanyhow errcode_protocol_violation (codes "invalid StartupMessage"), refl, refl)
short_startup (a ∷ b ∷ c ∷ d ∷ ds) h = absurd (omega arith)

long_startup : (d0 d1 d2 d3 : ℕ) (d : Bytes) → StartupOutcome (d0 ∷ d1 ∷ d2 ∷ d3 ∷ d)
unfolding deserialize_startup
long_startup d0 d1 d2 d3 d =
    elim (read_params_cases (suc (length d)) (record { bytes = d; position = 0 }) [] (omega arith)
      (omega arith)) [
        | refused r ↦ violation (Refuses-bind (read_params _ _ _) _ r)
        | all_read ps rest split valid done ↦
            elim (Option-cases (lookup startup_user_param (insert_all ps []))) [
              | inl u ↦ violation (startup_no_user d0 d1 d2 d3 d (insert_all ps []) done u)
              | inr (user, u) ↦
                  accepted d0 d1 d2 d3 ps rest (message d0 d1 d2 d3 d (insert_all ps []) user)
                    (ap (λ t. d0 ∷ d1 ∷ d2 ∷ d3 ∷ t) split) valid refl u (refl, refl)
                    (startup_user d0 d1 d2 d3 d (insert_all ps []) done user u)
            ]
      ]

-- On every input `StartupMessage::deserialize` reports a protocol violation, or it accepts a
-- message whose parameters are what the bytes behind the version spell, with the value of `user`.
-- So the loop ends and nothing panics.
pub deserialize_startup_cases : (d : Bytes) → StartupOutcome d
deserialize_startup_cases (d0 ∷ d1 ∷ d2 ∷ d3 ∷ d) = long_startup d0 d1 d2 d3 d
deserialize_startup_cases [] = violation (short_startup [] (omega arith))
deserialize_startup_cases (a ∷ []) = violation (short_startup (a ∷ []) (omega arith))
deserialize_startup_cases (a ∷ b ∷ []) = violation (short_startup (a ∷ b ∷ []) (omega arith))
deserialize_startup_cases (a ∷ b ∷ c ∷ []) =
    violation (short_startup (a ∷ b ∷ c ∷ []) (omega arith))
