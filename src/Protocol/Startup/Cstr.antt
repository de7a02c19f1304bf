-- ===== src/Protocol/Startup/Cstr.antt =====
-- protocol.rs: `read_cstr` at a cursor inside its bytes: the string up to the next zero, or a refusal.
use kui_ba_db.Base.{
  suc, ◌+◌, ◌-◌, ◌≤◌, ◌<◌, ◌≡◌, refl, ap, arith, ◌⊎◌, inl, inr, [], ◌∷◌, ◌++◌, Bytes, All, length,
  length-append, length-drop, drop, drop-drop, take-append, none, some, true, false, Bool-cases, ok,
  err, ◌>>=◌, le→leb, ◌==◌, ==_iff,
}
use kui_ba_db.Base.Int.{pos}
use kui_ba_db.Base.Text.{codes, is_utf8, from_utf8}
use kui_ba_db.Utils.Err.{AnyError, Cause, errctx, kbanyhow, Fallible, errcode, with_context}
use kui_ba_db.Protocol.Errcodes.{errcode_protocol_violation}
use kui_ba_db.Protocol.Message.{Str}
use kui_ba_db.Protocol.Startup.{Cursor, position, find, checked_utf8, read_cstr_at, read_cstr}

-- An error that reports a protocol violation.
abbrev pub Refuses {ℓ} : {A : Type ℓ} → Fallible A → Type ℓ
Refuses r = (e : AnyError) × (r ≡ err e) × (errcode e ≡ errcode_protocol_violation)

abbrev pub NoNul : Bytes → Type 0
NoNul = All (λ b. 0 < b)

-- A string that fits a C string of the protocol.
abbrev pub IsText : Str → Type 0
IsText s = NoNul s × (is_utf8 s ≡ true)

pub Refuses-bind {ℓ κ} :
    {A : Type ℓ} {B : Type κ} (r : Fallible A) (f : A → Fallible B) → Refuses r → Refuses (r >>= f)
Refuses-bind r f (e, is_err, code) = (e, rw is_err refl, code)

position_of : (s rest : Bytes) → NoNul s → position 0 (s ++ 0 ∷ rest) ≡ some (length s)
unfolding position
position_of [] rest h = refl
position_of (b ∷ s) rest (hb, hs) = ground (arith, position_of s rest hs)

position_split :
    (bs : Bytes) → (position 0 bs ≡ none) ⊎ ((s rest : Bytes) × (bs ≡ s ++ 0 ∷ rest) × NoNul s)
unfolding position
position_split [] = inl refl
position_split (b ∷ bs) = elim (Bool-cases (b == 0)) [
  | inl z ↦ inr ([], bs, ap (λ x. x ∷ bs) ((==_iff b 0).0 z), tt)
  | inr nz ↦ elim (position_split bs) [
    | inl e ↦ inl (rw (nz, e) refl)
    | inr (s, rest, e, h) ↦ inr (b ∷ s, rest, ap (◌∷◌ b) e, (ground arith, h))
  ]
]

pub checked_utf8-ok : (s msg : Bytes) → is_utf8 s ≡ true → checked_utf8 s msg ≡ ok s
unfolding checked_utf8 with_context from_utf8
checked_utf8-ok s msg h = rw h refl

pub checked_utf8-Refuses : (s msg : Bytes) → is_utf8 s ≡ false → Refuses (checked_utf8 s msg)
unfolding checked_utf8 with_context from_utf8 errcode
checked_utf8-Refuses s msg h = (
  record { contexts = errctx errcode_protocol_violation msg ∷ []; cause = Cause.utf8 s },
  rw h refl,
  refl,
)

drop_past : (s rest : Bytes) → drop (length s + 1) (s ++ 0 ∷ rest) ≡ rest
drop_past [] rest = refl
drop_past (b ∷ s) rest =
    let n : suc (length s) + 1 ≡ suc (length s + 1) = omega arith in rw n (drop_past s rest)

module _ (c : Cursor) (inside : c.position ≤ length c.bytes) where
  -- Behind the string and its zero.
  abbrev pub past : Str → Cursor
  past s = record c { position = length s + c.position + 1 }

  module _ (s rest : Bytes) (here : drop c.position c.bytes ≡ s ++ 0 ∷ rest) where
    pub past-inside : (past s).position ≤ length c.bytes
    past-inside =
        omega (arith, ap length here, length-append s (0 ∷ rest), length-drop c.position c.bytes)

    pub past-rest : drop (past s).position c.bytes ≡ rest
    past-rest =
        let n : length s + c.position + 1 ≡ c.position + (length s + 1) = omega arith in
        rw (n, ← drop-drop c.position (length s + 1) c.bytes, here) (drop_past s rest)

    found : NoNul s → find c.bytes c.position 0 ≡ some (pos (length s + c.position))
    unfolding find
    found h = rw (le→leb _ _ inside, here, position_of s rest h) refl

    pub read_cstr_utf8 : NoNul s → is_utf8 s ≡ true → read_cstr c ≡ ok (s, past s)
    unfolding read_cstr read_cstr_at
    read_cstr_utf8 h u =
        let n : length s + c.position - c.position ≡ length s = omega arith in
        rw (found h)
          (rw (n, here, take-append (length s) s (0 ∷ rest) refl) (rw (checked_utf8-ok s _ u) refl))

    pub read_cstr_not_utf8 : NoNul s → is_utf8 s ≡ false → Refuses (read_cstr c)
    unfolding read_cstr read_cstr_at
    read_cstr_not_utf8 h u =
        let n : length s + c.position - c.position ≡ length s = omega arith in
        rw (found h) (
          rw (n, here, take-append (length s) s (0 ∷ rest) refl)
            (Refuses-bind (checked_utf8 s _) _ (checked_utf8-Refuses s _ u)))

  -- At a cursor inside the bytes `read_cstr` refuses, or it takes a text and its zero.
  pub read_cstr_cases :
      Refuses (read_cstr c)
      ⊎ ((s rest : Bytes) × (drop c.position c.bytes ≡ s ++ 0 ∷ rest)
          × IsText s
          × (read_cstr c ≡ ok (s, past s)))
  unfolding read_cstr read_cstr_at find errcode
  read_cstr_cases = elim (position_split (drop c.position c.bytes)) [
    | inl e ↦ inl (
      kbanyhow errcode_protocol_violation (codes "invalid string in message"),
      rw (le→leb _ _ inside, e) refl,
      refl,
    )
    | inr (s, rest, here, h) ↦ elim (Bool-cases (is_utf8 s)) [
      | inl u ↦ inr (s, rest, here, (h, u), read_cstr_utf8 s rest here h u)
      | inr u ↦ inl (read_cstr_not_utf8 s rest here h u)
    ]
  ]
