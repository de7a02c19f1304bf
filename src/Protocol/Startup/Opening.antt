-- ===== src/Protocol/Startup/Opening.antt =====
-- protocol.rs: the messages that open a connection are told apart.
use kui_ba_db.Base.{
  ◌≡◌, refl, Bytes, List, [], ◌∷◌, ◌++◌, All, length, Bool, true, false, not, ◌||◌, ◌==◌, none,
  some, ok,
}
use kui_ba_db.Base.Assoc.{lookup}
use kui_ba_db.Protocol.Message.{Str}
use kui_ba_db.Protocol.Startup.{
  StartupMessage, startup_user_param, ssl_code, deserialize_cancel_request, deserialize_ssl_request,
  deserialize_startup,
}
use kui_ba_db.Protocol.Startup.Total.{encode_params, IsParam, insert_all}
use kui_ba_db.Protocol.Startup.RoundTrip.{deserialize_startup-encode_params}

-- The body of a startup message of version 3.0.
abbrev pub startup_body : List (Str × Str) → Bytes
startup_body ps = 0 ∷ 3 ∷ 0 ∷ 0 ∷ (encode_params ps ++ [])

abbrev pub startup_of : List (Str × Str) → Str → StartupMessage
startup_of ps user = record {
  major_ver = 3;
  minor_ver = 0;
  username = user;
  params = insert_all ps [];
}

or_true : (b : Bool) → (b || true) ≡ true
or_true true = refl
or_true false = refl

pub startup-no_cancel : (rest : Bytes) → deserialize_cancel_request (0 ∷ 3 ∷ 0 ∷ 0 ∷ rest) ≡ none
unfolding deserialize_cancel_request
startup-no_cancel rest = rw (or_true (not (length (0 ∷ 3 ∷ 0 ∷ 0 ∷ rest) == 12))) refl

pub ssl-no_cancel : deserialize_cancel_request ssl_code ≡ none
unfolding deserialize_cancel_request
ssl-no_cancel = refl

pub startup-no_ssl : (rest : Bytes) → deserialize_ssl_request (0 ∷ 3 ∷ 0 ∷ 0 ∷ rest) ≡ none
unfolding deserialize_ssl_request
startup-no_ssl rest = refl

pub ssl-ssl : deserialize_ssl_request ssl_code ≡ some tt
unfolding deserialize_ssl_request
ssl-ssl = refl

pub deserialize_startup-startup_body :
    (ps : List (Str × Str)) (user : Str)
    → All IsParam ps
    → lookup startup_user_param (insert_all ps []) ≡ some user
    → deserialize_startup (startup_body ps) ≡ ok (startup_of ps user)
deserialize_startup-startup_body ps user valid u =
    deserialize_startup-encode_params 0 3 0 0 ps [] valid user u
