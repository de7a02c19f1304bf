-- ===== src/Protocol/Read/Frames.antt =====
-- protocol.rs: `read_body` and `read_message` on frames and on any bytes.
use kui_ba_db.Base.{
  ℕ, ◌+◌, ◌-◌, ◌*◌, ◌%◌, ◌^◌, ◌≤◌, ◌<◌, ◌≡◌, refl, sym, arith, ◌⊎◌, inl, inr, [], ◌∷◌, ◌++◌,
  append_assoc, Bytes, IsByte, All, length, length-append, take, drop, take-append, drop-append,
  take-append-drop, length-take, length-drop, All-take, All-drop, leb→le, ok, err, panic,
  bind-eq-ok, leb, le→leb, ltb, true, false, Bool-cases,
}
use kui_ba_db.Base.Int.{ℤ, pos}
use kui_ba_db.Utils.Ser.{be_bytes, from_be_bytes}
use kui_ba_db.Utils.Ser.Order.{
  length-be_bytes, from_be_bytes-lt, from_be_bytes-be_bytes, be_bytes-from_be_bytes,
}
use kui_ba_db.Utils.Err.{IoError}
use kui_ba_db.Protocol.Serialize.Frame.{frame}
use kui_ba_db.Protocol.Read.{InStream, read_exact, read_u32, read_i8, read_body, read_message}

module _ (ending : IoError) where
  -- The stream that holds these bytes.
  abbrev pub holding : Bytes → InStream
  holding bs = record { avail = bs; ending = ending }

  read_exact-append :
      (n : ℕ) (xs ys : Bytes)
      → length xs ≡ n
      → read_exact n (holding (xs ++ ys)) ≡ ok (xs, holding ys)
  unfolding read_exact
  read_exact-append n xs ys h =
      let fits : n ≤ length (xs ++ ys) = omega (arith, length-append xs ys) in
      rw (le→leb n _ fits, take-append n xs ys h, drop-append n xs ys h) refl

  read_u32-be_bytes :
      (n : ℕ) (rest : Bytes)
      → n < 2 ^ 32
      → read_u32 (holding (be_bytes 4 n ++ rest)) ≡ ok (n, holding rest)
  unfolding read_u32
  read_u32-be_bytes n rest h =
      rw (read_exact-append 4 (be_bytes 4 n) rest (length-be_bytes 4 n))
        (rw (from_be_bytes-be_bytes 4 n (omega arith)) refl)

  read_i8-byte :
      (b : ℕ) (rest : Bytes) → b < 128 → read_i8 (holding (b ∷ rest)) ≡ ok (pos b, holding rest)
  unfolding read_i8 from_be_bytes
  read_i8-byte b rest h =
      let e : b + 256 * 0 ≡ b = omega arith in
      let small : ltb b 128 ≡ true = ground arith in
      rw (read_exact-append 1 (b ∷ []) rest refl) (rw (e, small) refl)

  pub read_body-frame :
      (body rest : Bytes)
      → length body + 4 < 2 ^ 32
      → read_body (holding (be_bytes 4 (length body + 4) ++ (body ++ rest)))
        ≡ ok (body, holding rest)
  unfolding read_body
  read_body-frame body rest h =
      let n : length body + 4 - 4 ≡ length body = omega arith in
      let big : ltb (length body + 4) 4 ≡ false = ground arith in
      rw (read_u32-be_bytes (length body + 4) (body ++ rest) h)
        (rw (big, n) (read_exact-append (length body) body rest refl))

  -- `read_message` reads back a frame whose type byte is below 128 and whose length fits 32 bits,
  -- and leaves what follows it.
  pub read_message-frame :
      (typ : ℕ) (body rest : Bytes)
      → typ < 128
      → length body + 4 < 2 ^ 32
      → read_message (holding (frame typ body ++ rest)) ≡ ok ((pos typ, body), holding rest)
  unfolding read_message
  read_message-frame typ body rest ht h =
      let n : (length body + 4) % 2 ^ 32 ≡ length body + 4 = omega arith in
      rw (n, read_i8-byte typ _ ht, append_assoc (be_bytes 4 (length body + 4)) body rest)
        (rw (read_body-frame body rest h) refl)

  -- `read_exact` splits the stream, or the stream is too short.
  record Split (n : ℕ) (bs : Bytes) : Type 0 where
    front : Bytes
    back : Bytes
    splits : bs ≡ front ++ back
    long : length front ≡ n
    bytes : All IsByte front × All IsByte back
    reads : read_exact n (holding bs) ≡ ok (front, holding back)

  read_exact_cases :
      (n : ℕ) (bs : Bytes)
      → All IsByte bs
      → ((length bs < n) × (read_exact n (holding bs) ≡ err ending)) ⊎ Split n bs
  unfolding read_exact
  read_exact_cases n bs b = elim (Bool-cases (leb n (length bs))) [
    | inl fits ↦ inr (record {
      front = take n bs;
      back = drop n bs;
      splits = sym (take-append-drop n bs);
      long = length-take n bs (leb→le n _ fits);
      bytes = (All-take IsByte n bs b, All-drop IsByte n bs b);
      reads = rw fits;
    })
    | inr past ↦ inl (ground arith, rw past)
  ]

  -- What `read_body` does with these bytes: an error on a stream that ends early, a panic on a
  -- length field below 4, and otherwise the body that the length field announces.
  pub data BodyOutcome (bs : Bytes) : Type 0 where
    no_length : length bs < 4 → read_body (holding bs) ≡ err ending → BodyOutcome bs
    bad_length :
        (n : ℕ) (rest : Bytes)
        → bs ≡ be_bytes 4 n ++ rest
        → n < 4
        → read_body (holding bs) ≡ panic
        → BodyOutcome bs
    no_body :
        (n : ℕ) (rest : Bytes)
        → bs ≡ be_bytes 4 n ++ rest
        → length rest + 4 < n
        → n < 2 ^ 32
        → read_body (holding bs) ≡ err ending
        → BodyOutcome bs
    body_read :
        (body rest : Bytes)
        → bs ≡ be_bytes 4 (length body + 4) ++ (body ++ rest)
        → length body + 4 < 2 ^ 32
        → read_body (holding bs) ≡ ok (body, holding rest)
        → BodyOutcome bs

  read_u32-Split :
      (bs : Bytes) (f : Split 4 bs)
      → read_u32 (holding bs) ≡ ok (from_be_bytes f.front, holding f.back)
  unfolding read_u32
  read_u32-Split bs f = rw f.reads refl

  length_field : (bs : Bytes) (f : Split 4 bs) → bs ≡ be_bytes 4 (from_be_bytes f.front) ++ f.back
  length_field bs f = rw (be_bytes-from_be_bytes 4 f.front f.long f.bytes.0) f.splits

  -- The part of `read_body` behind the length field `n`.
  read_rest :
      (bs : Bytes) (n : ℕ) (back : Bytes)
      → All IsByte back
      → n < 2 ^ 32
      → bs ≡ be_bytes 4 n ++ back
      → read_u32 (holding bs) ≡ ok (n, holding back)
      → BodyOutcome bs
  unfolding read_body
  read_rest bs n back b fits split r = elim (Bool-cases (ltb n 4)) [
    | inl small ↦ bad_length n back split (ground arith) (rw r (rw small refl))
    | inr big ↦ elim (read_exact_cases (n - 4) back b) [
      | inl (short, e) ↦ no_body n back split (ground arith) fits (rw r (rw (big, e) refl))
      | inr f ↦
          let len : length f.front + 4 ≡ n = ground (arith, f.long) in
          body_read f.front f.back (rw (len, ← f.splits) split) (omega arith)
            (rw r (rw (big, f.reads) refl))
    ]
  ]

  -- On every stream of bytes `read_body` has one of these outcomes: an error if the stream ends
  -- before the end of the length field or before the end of the body that this field, a number of 32
  -- bits, announces, a panic if the length field is below 4, and otherwise the body that the length
  -- field announces, with what follows it left.
  pub read_body_cases : (bs : Bytes) → All IsByte bs → BodyOutcome bs
  unfolding read_body read_u32
  read_body_cases bs b = elim (read_exact_cases 4 bs b) [
    | inl (short, e) ↦ no_length short (rw e refl)
    | inr f ↦
        read_rest bs (from_be_bytes f.front) f.back f.bytes.1
          (from_be_bytes-lt 4 f.front f.long f.bytes.0) (length_field bs f) (read_u32-Split bs f)
  ]

-- A message that was read took a byte of the stream at least.
read_exact-shrinks :
    (n : ℕ) (s : InStream) (bs : Bytes) (rest : InStream)
    → read_exact n s ≡ ok (bs, rest)
    → length rest.avail + n ≤ length s.avail
unfolding read_exact
read_exact-shrinks n s bs rest h = elim (Bool-cases (leb n (length s.avail))) [
  | inl fits ↦ ground (arith, length-drop n s.avail)
  | inr past ↦ ground arith
]

read_i8-shrinks :
    (s : InStream) (b : ℤ) (rest : InStream)
    → read_i8 s ≡ ok (b, rest)
    → length rest.avail < length s.avail
unfolding read_i8
read_i8-shrinks s b rest h =
    let ((bs, r), e, g) = bind-eq-ok (read_exact 1 s) _ h in
    ground (arith, read_exact-shrinks 1 s bs r e)

read_u32-shrinks :
    (s : InStream) (n : ℕ) (rest : InStream)
    → read_u32 s ≡ ok (n, rest)
    → length rest.avail ≤ length s.avail
unfolding read_u32
read_u32-shrinks s n rest h =
    let ((bs, r), e, g) = bind-eq-ok (read_exact 4 s) _ h in
    ground (arith, read_exact-shrinks 4 s bs r e)

pub read_body-shrinks :
    (s : InStream) (body : Bytes) (rest : InStream)
    → read_body s ≡ ok (body, rest)
    → length rest.avail ≤ length s.avail
unfolding read_body
read_body-shrinks s body rest h =
    let ((n, r), e, g) = bind-eq-ok (read_u32 s) _ h in
    ground (arith, read_u32-shrinks s n r e, read_exact-shrinks (n - 4) r body rest)

pub read_message-shrinks :
    (s : InStream) (m : ℤ × Bytes) (rest : InStream)
    → read_message s ≡ ok (m, rest)
    → length rest.avail < length s.avail
unfolding read_message
read_message-shrinks s m rest h =
    let ((b, r), e, g) = bind-eq-ok (read_i8 s) _ h in
    let ((body, r'), e', g') = bind-eq-ok (read_body r) _ g in
    ground (arith, read_i8-shrinks s b r e, read_body-shrinks r body r' e')
