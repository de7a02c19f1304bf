-- ===== src/Utils/Ser/Order.antt =====
-- utils/ser.rs: what the writers leave in the vector, in network order on either machine.
use kui_ba_db.Base.{
  ℕ, zero, suc, ◌+◌, ◌-◌, ◌*◌, ◌/◌, ◌%◌, ◌^◌, ◌≤◌, ◌<◌, ◌≡◌, refl, sym, ap, ◌∙◌, arith, [], ◌∷◌,
  ◌++◌, reverse, Bytes, IsByte, length, take, drop, All, All-reverse, length-reverse, length-append,
  length-take, length-drop, take-append, drop-append, drop-drop, Bool-cases, leb→le, ◌⊎◌, inl, inr,
  none, some, leb, le→leb,
}
use kui_ba_db.Utils.Ser.{
  Endian, le_bytes, be_bytes, from_le_bytes, from_be_bytes, as_bytes, to_be, ser, ser_at, ser_be,
  ser_be_at, ser_be_u32, ser_be_u16, ser_be_i32, ser_be_i16, ser_be_u32_at, ser_cstr,
}
use kui_ba_db.Base.{append_assoc, reverse}
use kui_ba_db.Base.Int.{ℤ, to_bits}
use mathlib.Core.List.{reverse-reverse}
use native.Mathlib.Nat.{pow-suc}

pub length-le_bytes : (k v : ℕ) → length (le_bytes k v) ≡ k
unfolding le_bytes
length-le_bytes zero v = refl
length-le_bytes (suc k) v = ap suc (length-le_bytes k (v / 256))

pub length-be_bytes : (k v : ℕ) → length (be_bytes k v) ≡ k
unfolding be_bytes
length-be_bytes k v = length-reverse (le_bytes k v) ∙ length-le_bytes k v

le_bytes-IsByte : (k v : ℕ) → All IsByte (le_bytes k v)
unfolding le_bytes
le_bytes-IsByte zero v = tt
le_bytes-IsByte (suc k) v = (omega arith, le_bytes-IsByte k (v / 256))

pub be_bytes-IsByte : (k v : ℕ) → All IsByte (be_bytes k v)
unfolding be_bytes
be_bytes-IsByte k v = All-reverse IsByte (le_bytes k v) (le_bytes-IsByte k v)

le_bytes-from_le_bytes :
    (k : ℕ) (bs : Bytes) → length bs ≡ k → All IsByte bs → le_bytes k (from_le_bytes bs) ≡ bs
unfolding le_bytes from_le_bytes
le_bytes-from_le_bytes zero [] h b = refl
le_bytes-from_le_bytes zero (x ∷ bs) h b = absurd (omega arith)
le_bytes-from_le_bytes (suc k) [] h b = absurd (omega arith)
le_bytes-from_le_bytes (suc k) (x ∷ bs) h (hx, hbs) =
    let low : (x + 256 * from_le_bytes bs) % 256 ≡ x = omega arith in
    let high : (x + 256 * from_le_bytes bs) / 256 ≡ from_le_bytes bs = omega arith in
    rw (low, high) (ap (◌∷◌ x) (le_bytes-from_le_bytes k bs (omega arith) hbs))

from_le_bytes-le_bytes : (k v : ℕ) → v < 256 ^ k → from_le_bytes (le_bytes k v) ≡ v
unfolding le_bytes from_le_bytes
from_le_bytes-le_bytes zero v h = omega arith
from_le_bytes-le_bytes (suc k) v h =
    omega (arith, from_le_bytes-le_bytes k (v / 256) (omega (arith, pow-suc 256 k)))

-- Reading the network-order bytes of a value that fits gives the value back.
pub from_be_bytes-be_bytes : (k v : ℕ) → v < 256 ^ k → from_be_bytes (be_bytes k v) ≡ v
unfolding from_be_bytes be_bytes
from_be_bytes-be_bytes k v h = rw (reverse-reverse (le_bytes k v)) (from_le_bytes-le_bytes k v h)

as_bytes-to_be : (e : Endian) (k v : ℕ) → as_bytes e k (to_be e k v) ≡ be_bytes k v
unfolding as_bytes to_be
as_bytes-to_be Endian.little k v =
    le_bytes-from_le_bytes k (be_bytes k v) (length-be_bytes k v) (be_bytes-IsByte k v)
as_bytes-to_be Endian.big k v = refl

-- On either machine `ser_be` keeps the vector and appends the value in network order.
pub ser_be-network :
    (e : Endian) (k : ℕ) (out : Bytes) (v : ℕ) → ser_be e k out v ≡ out ++ be_bytes k v
unfolding ser_be ser
ser_be-network e k out v = ap (λ t. out ++ t) (as_bytes-to_be e k v)

-- What `ser_be_at` leaves: as many bytes as before, those of the area in network order, and the
-- others as they were.
pub record Patched (k idx v : ℕ) (out r : Bytes) : Type 0 where
  pub same_length : length r ≡ length out
  pub before : take idx r ≡ take idx out
  pub area : take k (drop idx r) ≡ be_bytes k v
  pub behind : drop (idx + k) r ≡ drop (idx + k) out

-- The area as the bytes around it, on either machine.
pub ser_be_at_ok :
    (e : Endian) (k : ℕ) (out : Bytes) (idx v : ℕ)
    → idx + k ≤ length out
    → ser_be_at e k out idx v ≡ some (take idx out ++ (be_bytes k v ++ drop (idx + k) out))
unfolding ser_be_at ser_at
ser_be_at_ok e k out idx v h = rw (le→leb (idx + k) (length out) h, as_bytes-to_be e k v)

patch-Patched :
    (k idx v : ℕ) (out : Bytes)
    → idx + k ≤ length out
    → Patched k idx v out (take idx out ++ (be_bytes k v ++ drop (idx + k) out))
patch-Patched k idx v out h = record {
  same_length =
      rw (length-append front (mid ++ back))
        (rw (length-append mid back) (omega (arith, n_front, n_mid, n_back)));
  before = take-append idx front (mid ++ back) n_front;
  area = rw (drop-append idx front (mid ++ back) n_front) (take-append k mid back n_mid);
  behind =
      sym (drop-drop idx k (front ++ (mid ++ back)))
      ∙ rw (drop-append idx front (mid ++ back) n_front) (drop-append k mid back n_mid);
}
  where
    front : Bytes
    front = take idx out

    mid : Bytes
    mid = be_bytes k v

    back : Bytes
    back = drop (idx + k) out

    n_front : length front ≡ idx
    n_front = length-take idx out (omega arith)

    n_mid : length mid ≡ k
    n_mid = length-be_bytes k v

    n_back : length back ≡ length out - (idx + k)
    n_back = length-drop (idx + k) out

-- `ser_be_at` panics exactly when the area leaves the vector; otherwise it writes the area in
-- network order and nothing else.
pub ser_be_at_total :
    (e : Endian) (k : ℕ) (out : Bytes) (idx v : ℕ)
    → ((length out < idx + k) × (ser_be_at e k out idx v ≡ none))
      ⊎ ((r : Bytes) × (idx + k ≤ length out)
          × (ser_be_at e k out idx v ≡ some r)
          × Patched k idx v out r)
unfolding ser_be_at ser_at
ser_be_at_total e k out idx v = elim (Bool-cases (leb (idx + k) (length out))) [
  | inl fits ↦
      let h : idx + k ≤ length out = leb→le _ _ fits in
      inr (_, h, ser_be_at_ok e k out idx v h, patch-Patched k idx v out h)
  | inr past ↦ inl (ground arith, rw past)
]

-- The typed writers of the protocol.
module _ (e : Endian) (out : Bytes) where
  pub u32-network : (v : ℕ) → ser_be_u32 e out v ≡ out ++ be_bytes 4 v
  unfolding ser_be_u32
  u32-network v = ser_be-network e 4 out v

  pub u16-network : (v : ℕ) → ser_be_u16 e out v ≡ out ++ be_bytes 2 v
  unfolding ser_be_u16
  u16-network v = ser_be-network e 2 out v

  pub i32-network : (v : ℤ) → ser_be_i32 e out v ≡ out ++ be_bytes 4 (to_bits (256 ^ 4) v)
  unfolding ser_be_i32
  i32-network v = ser_be-network e 4 out _

  pub i16-network : (v : ℤ) → ser_be_i16 e out v ≡ out ++ be_bytes 2 (to_bits (256 ^ 2) v)
  unfolding ser_be_i16
  i16-network v = ser_be-network e 2 out _

  pub u32_at_ok :
      (idx v : ℕ)
      → idx + 4 ≤ length out
      → ser_be_u32_at e out idx v ≡ some (take idx out ++ (be_bytes 4 v ++ drop (idx + 4) out))
  unfolding ser_be_u32_at
  u32_at_ok idx v h = ser_be_at_ok e 4 out idx v h

pub cstr-append : (out s : Bytes) → ser_cstr out s ≡ out ++ (s ++ 0 ∷ [])
unfolding ser_cstr
cstr-append out s = append_assoc out s (0 ∷ [])

-- Four bytes are the network order of what they read as.
pub be_bytes-from_be_bytes :
    (k : ℕ) (bs : Bytes) → length bs ≡ k → All IsByte bs → be_bytes k (from_be_bytes bs) ≡ bs
unfolding be_bytes from_be_bytes
be_bytes-from_be_bytes k bs h b =
    ap reverse
      (le_bytes-from_le_bytes k (reverse bs) (length-reverse bs ∙ h) (All-reverse IsByte bs b))
    ∙ reverse-reverse bs

from_le_bytes-lt : (k : ℕ) (bs : Bytes) → length bs ≡ k → All IsByte bs → from_le_bytes bs < 256 ^ k
unfolding from_le_bytes
from_le_bytes-lt k [] h b = ground arith
from_le_bytes-lt zero (x ∷ xs) h b = absurd (omega arith)
from_le_bytes-lt (suc k) (x ∷ xs) h (b, bs) = omega (arith, from_le_bytes-lt k xs (omega arith) bs)

-- `k` bytes read as a number of `8 * k` bits.
pub from_be_bytes-lt :
    (k : ℕ) (bs : Bytes) → length bs ≡ k → All IsByte bs → from_be_bytes bs < 256 ^ k
unfolding from_be_bytes
from_be_bytes-lt k bs h b =
    from_le_bytes-lt k (reverse bs) (length-reverse bs ∙ h) (All-reverse IsByte bs b)
