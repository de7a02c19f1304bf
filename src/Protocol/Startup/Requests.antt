-- ===== src/Protocol/Startup/Requests.antt =====
-- protocol.rs: which messages `CancelRequest`, `SSLRequest` and `Query` are read from.
use kui_ba_db.Base.{
  ℕ, ◌+◌, ◌*◌, ◌-◌, ◌^◌, ◌<◌, ◌≡◌, refl, sym, ap, ◌∙◌, arith, ◌⊎◌, inl, inr, [], ◌∷◌, ◌++◌, Bytes,
  IsByte, All, All-take, All-drop, length, length-append, length-take, length-drop, take, drop,
  take-append, drop-append, take-append-drop, take_all, drop-drop, none, some, true, false,
  Bool-cases, ==_iff, eq_bytes_iff, ok, panic, ◌≢◌,
}
use mathlib.Core.Logic.{◌↔◌}
use kui_ba_db.Base.Text.{codes, is_utf8}
use kui_ba_db.Utils.Err.{errcode, kbanyhow}
use kui_ba_db.Protocol.Errcodes.{errcode_protocol_violation}
use kui_ba_db.Utils.Ser.{be_bytes, from_be_bytes}
use kui_ba_db.Utils.Ser.Order.{length-be_bytes, from_be_bytes-be_bytes, be_bytes-from_be_bytes}
use kui_ba_db.Protocol.Startup.{
  CancelRequest, cancel_code, ssl_code, deserialize_cancel_request, deserialize_ssl_request,
  checked_utf8, deserialize_startup, deserialize_query, read_params, read_cstr, read_cstr_at, find,
  position,
}
use kui_ba_db.Protocol.Startup.Cstr.{Refuses, checked_utf8-ok, checked_utf8-Refuses}

-- A cancel request as a client writes it.
abbrev pub cancel_bytes : CancelRequest → Bytes
cancel_bytes r = cancel_code ++ (be_bytes 4 r.sess ++ be_bytes 4 r.key)

cancel-cancel_bytes :
    (r : CancelRequest)
    → r.sess < 2 ^ 32
    → r.key < 2 ^ 32
    → deserialize_cancel_request (cancel_bytes r) ≡ some r
unfolding deserialize_cancel_request
cancel-cancel_bytes r hs hk = rw ((==_iff (length (cancel_bytes r)) 12).1 twelve) (
    rw
      (
        take-append 4 a b na,
        drop-append 4 a b na,
        take_all 4 b nb,
        from_be_bytes-be_bytes 4 r.sess hs,
        from_be_bytes-be_bytes 4 r.key hk,
      )
      refl)
  where
    a : Bytes
    a = be_bytes 4 r.sess

    b : Bytes
    b = be_bytes 4 r.key

    na : length a ≡ 4
    na = length-be_bytes 4 r.sess

    nb : length b ≡ 4
    nb = length-be_bytes 4 r.key

    twelve : length (cancel_bytes r) ≡ 12
    twelve = omega (arith, length-append a b, na, nb)

module _ (d : Bytes) (bytes : All IsByte d) where
  abbrev read_cancel : CancelRequest
  read_cancel = record {
    sess = from_be_bytes (take 4 (drop 4 d));
    key = from_be_bytes (take 4 (drop 8 d));
  }

  cancel_split : length d ≡ 12 → take 4 d ≡ cancel_code → d ≡ cancel_bytes read_cancel
  cancel_split n code =
      rw
        (
          be_bytes-from_be_bytes 4 (take 4 (drop 4 d)) n1
              (All-take IsByte 4 _ (All-drop IsByte 4 d bytes)),
          be_bytes-from_be_bytes 4 (take 4 (drop 8 d)) n2
              (All-take IsByte 4 _ (All-drop IsByte 8 d bytes)),
        )
        (sym (take-append-drop 4 d)
          ∙ rw code (
              ap (λ t. cancel_code ++ t)
                (sym (take-append-drop 4 (drop 4 d))
                  ∙ rw (drop-drop 4 4 d)
                      (ap (λ t. take 4 (drop 4 d) ++ t) (sym (take_all 4 (drop 8 d) n3))))))
    where
      n3 : length (drop 8 d) ≡ 4
      n3 = omega (arith, length-drop 8 d)

      n2 : length (take 4 (drop 8 d)) ≡ 4
      n2 = length-take 4 (drop 8 d) (omega (arith, n3))

      n1 : length (take 4 (drop 4 d)) ≡ 4
      n1 = length-take 4 (drop 4 d) (omega (arith, length-drop 4 d))

  cancel_only :
      (r : CancelRequest)
      → deserialize_cancel_request d ≡ some r
      → (length d ≡ 12) × (take 4 d ≡ cancel_code) × (r ≡ read_cancel)
  unfolding deserialize_cancel_request
  cancel_only r h = ground (arith, ==_iff (length d) 12, eq_bytes_iff (take 4 d) cancel_code)

-- For bytes, and numbers of 32 bits: a message is read as a cancel request exactly when it is the
-- 12 bytes that a client writes for it, its two numbers in network order.
pub cancel_request_iff :
    (d : Bytes) (r : CancelRequest)
    → All IsByte d
    → r.sess < 2 ^ 32
    → r.key < 2 ^ 32
    → (deserialize_cancel_request d ≡ some r) ↔ (d ≡ cancel_bytes r)
cancel_request_iff d r bytes hs hk = (to, from)
  where
    to : deserialize_cancel_request d ≡ some r → d ≡ cancel_bytes r
    to h = let (n, code, same) = cancel_only d bytes r h in rw same (cancel_split d bytes n code)

    from : d ≡ cancel_bytes r → deserialize_cancel_request d ≡ some r
    from e = rw e (cancel-cancel_bytes r hs hk)

-- An SSL request as a client writes it: 1234 in its upper half and 5679 in its lower half.
abbrev pub ssl_bytes : Bytes
ssl_bytes = be_bytes 4 (1234 * 2 ^ 16 + 5679)

ssl_bytes_code : ssl_bytes ≡ ssl_code
unfolding be_bytes
ssl_bytes_code = refl

ssl_no_cancel : deserialize_cancel_request ssl_bytes ≡ none
unfolding deserialize_cancel_request be_bytes
ssl_no_cancel = refl

ssl_no_startup : Refuses (deserialize_startup ssl_bytes)
unfolding be_bytes deserialize_startup read_params read_cstr read_cstr_at find position errcode
ssl_no_startup =
    (kbanyhow errcode_protocol_violation (codes "invalid string in message"), refl, refl)

-- A message is read as an SSL request exactly when it is the number of the request, 1234 * 2^16 +
-- 5679, in network order. It is no cancel request, and as a startup message it is a protocol
-- violation.
pub ssl_request_iff :
    (d : Bytes)
    → ((deserialize_ssl_request d ≡ some tt) ↔ (d ≡ ssl_bytes))
      × (deserialize_cancel_request ssl_bytes ≡ none)
      × Refuses (deserialize_startup ssl_bytes)
unfolding deserialize_ssl_request
ssl_request_iff d = (
  (
    λ h. read h ∙ sym ssl_bytes_code,
    λ e. rw ((eq_bytes_iff d ssl_code).1 (e ∙ ssl_bytes_code)) refl,
  ),
  ssl_no_cancel,
  ssl_no_startup,
)
  where
    read : deserialize_ssl_request d ≡ some tt → d ≡ ssl_code
    read h = unfold deserialize_ssl_request in ground (arith, eq_bytes_iff d ssl_code)

drop_last : (s : Bytes) (x : ℕ) → take (length (s ++ x ∷ []) - 1) (s ++ x ∷ []) ≡ s
drop_last s x =
    let n : length (s ++ x ∷ []) - 1 ≡ length s = omega (arith, length-append s (x ∷ [])) in
    rw n (take-append (length s) s (x ∷ []) refl)

query_body :
    (s : Bytes) (x : ℕ)
    → deserialize_query (s ++ x ∷ []) ≡ checked_utf8 s (codes "Query string is not UTF-8")
unfolding deserialize_query
query_body [] x = refl
query_body (b ∷ s) x =
    ap (λ t. checked_utf8 t (codes "Query string is not UTF-8")) (drop_last (b ∷ s) x)

pub deserialize_query_utf8 :
    (s : Bytes) (x : ℕ) → is_utf8 s ≡ true → deserialize_query (s ++ x ∷ []) ≡ ok s
deserialize_query_utf8 s x u = query_body s x ∙ checked_utf8-ok s _ u

checked_utf8-no_panic : (s msg : Bytes) → checked_utf8 s msg ≢ panic
checked_utf8-no_panic s msg h = elim (Bool-cases (is_utf8 s)) [
  | inl u ↦ (let e = checked_utf8-ok s msg u in cc)
  | inr u ↦ (let (x, e, code) = checked_utf8-Refuses s msg u in cc)
]

pub deserialize_query-no_panic : (body : Bytes) → deserialize_query body ≢ panic
unfolding deserialize_query
deserialize_query-no_panic [] h = cc
deserialize_query-no_panic (b ∷ d) h = checked_utf8-no_panic _ _ h

empty_query : Refuses (deserialize_query [])
unfolding deserialize_query errcode
empty_query = (kbanyhow errcode_protocol_violation (codes "Query string is empty"), refl, refl)

-- A query is the message without its last byte, whatever that byte is, if it is UTF-8; otherwise
-- and on an empty message it is a protocol violation.
pub deserialize_query_cases :
    (s : Bytes) (x : ℕ)
    → Refuses (deserialize_query [])
      × (((is_utf8 s ≡ true) × (deserialize_query (s ++ x ∷ []) ≡ ok s))
          ⊎ ((is_utf8 s ≡ false) × Refuses (deserialize_query (s ++ x ∷ []))))
deserialize_query_cases s x = (
  empty_query,
  elim (Bool-cases (is_utf8 s)) [
    | inl u ↦ inl (u, deserialize_query_utf8 s x u)
    | inr u ↦ inr (u, rw (query_body s x) (checked_utf8-Refuses s _ u))
  ],
)
