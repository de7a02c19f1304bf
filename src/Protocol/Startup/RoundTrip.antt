-- ===== src/Protocol/Startup/RoundTrip.antt =====
-- protocol.rs: `StartupMessage::deserialize` on what a client writes.
use kui_ba_db.Base.{
  ℕ, zero, suc, ◌+◌, ◌*◌, ◌≤◌, ◌<◌, ◌≡◌, refl, ◌∙◌, arith, List, [], ◌∷◌, ◌++◌, append_assoc, Bytes,
  All, length, length-append, drop, none, some, ok,
}
use kui_ba_db.Base.Text.{is_utf8}
use kui_ba_db.Base.Assoc.{Assoc, lookup}
use kui_ba_db.Protocol.Message.{Str}
use kui_ba_db.Protocol.Startup.{Cursor, startup_user_param, read_params, deserialize_startup}
use kui_ba_db.Protocol.Startup.Cstr.{Refuses, past, past-inside, past-rest, read_cstr_utf8}
use kui_ba_db.Protocol.Startup.Total.{
  encode_params, IsParam, insert_all, params_end, params_next, startup_user, startup_no_user,
}

read_params-encode_params :
    (ps : List (Str × Str)) (fuel : ℕ) (c : Cursor) (m : Assoc Str) (rest : Bytes)
    → All IsParam ps
    → length ps < fuel
    → c.position ≤ length c.bytes
    → drop c.position c.bytes ≡ encode_params ps ++ rest
    → read_params fuel c m ≡ ok (insert_all ps m)
read_params-encode_params ps zero c m rest v f inside here = absurd (omega arith)
read_params-encode_params [] (suc fuel) c m rest v f inside here =
    params_end fuel c m (read_cstr_utf8 c inside [] rest here tt (unfold is_utf8 in refl))
read_params-encode_params ((k, w) ∷ ps) (suc fuel) c m rest ((tk, ne, tw), valid) f inside here =
    params_next fuel c m k c1 (read_cstr_utf8 c inside k _ at0 tk.0 tk.1) ne w c2
      (read_cstr_utf8 c1 in1 w _ at1 tw.0 tw.1)
    ∙ read_params-encode_params ps fuel c2 _ rest valid (omega arith) (past-inside c1 in1 w _ at1)
        (past-rest c1 in1 w _ at1)
  where
    tail2 : Bytes
    tail2 = encode_params ps ++ rest

    tail1 : Bytes
    tail1 = w ++ 0 ∷ tail2

    at0 : drop c.position c.bytes ≡ k ++ 0 ∷ tail1
    at0 = here ∙ simp append_assoc

    c1 : Cursor
    c1 = past c inside k

    in1 : c1.position ≤ length c1.bytes
    in1 = past-inside c inside k tail1 at0

    at1 : drop c1.position c1.bytes ≡ tail1
    at1 = past-rest c inside k tail1 at0

    c2 : Cursor
    c2 = past c1 in1 w

length-encode_params : (ps : List (Str × Str)) → length ps < length (encode_params ps)
length-encode_params [] = omega arith
length-encode_params ((k, v) ∷ ps) =
    rw (length-append k (0 ∷ (v ++ 0 ∷ encode_params ps)), length-append v (0 ∷ encode_params ps))
      (omega (arith, length-encode_params ps))

module _ (d0 d1 d2 d3 : ℕ) (ps : List (Str × Str)) (rest : Bytes) (valid : All IsParam ps) where
  abbrev pub sent : Bytes
  sent = encode_params ps ++ rest

  all_read :
      read_params (suc (length sent)) (record { bytes = sent; position = 0 }) []
      ≡ ok (insert_all ps [])
  all_read =
      read_params-encode_params ps _ _ [] rest valid
        (omega (arith, length-encode_params ps, length-append (encode_params ps) rest))
        (omega arith) refl

  -- If names and values are UTF-8 without a zero and no name is empty, the message that a client
  -- writes is read back: its version, and its parameters with the later of two of one name.
  -- `user` must be among them, and whatever follows the parameters is left.
  pub deserialize_startup-encode_params :
      (user : Str)
      → lookup startup_user_param (insert_all ps []) ≡ some user
      → deserialize_startup (d0 ∷ d1 ∷ d2 ∷ d3 ∷ sent)
        ≡ ok (record {
          major_ver = d0 * 256 + d1;
          minor_ver = d2 * 256 + d3;
          username = user;
          params = insert_all ps [];
        })
  deserialize_startup-encode_params user u =
      startup_user d0 d1 d2 d3 sent (insert_all ps []) all_read user u

  -- A message of such parameters without `user` is refused as a protocol violation.
  pub deserialize_startup_no_user :
      lookup startup_user_param (insert_all ps []) ≡ none
      → Refuses (deserialize_startup (d0 ∷ d1 ∷ d2 ∷ d3 ∷ sent))
  deserialize_startup_no_user u = startup_no_user d0 d1 d2 d3 sent (insert_all ps []) all_read u
