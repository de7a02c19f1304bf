-- ===== src/Build/Camel.antt =====
-- build.rs: `to_camel_case` on the names that gucdef.yaml has.
use kui_ba_db.Base.{
  ℕ, ◌+◌, ◌-◌, ◌<◌, ◌≡◌, refl, sym, ap, ◌∙◌, arith, inl, inr, List, [], ◌∷◌, ◌++◌, map, append-nil,
  All, Bytes, Bool, true, false, not, ◌&&◌, ◌||◌, some, leb, if◌then◌else◌,
}
use kui_ba_db.Build.{
  CharCase, first_char, last_char, char_has_case, camel_chars, camel_component, separator, joined,
  camel_rest, camel_join, to_camel_case,
}
use kui_ba_db.Build.Names.{
  IsLower, IsTail, IsWord, snake, and_false, split-snake, non_empty-words, trim_start-snake,
  trim_end-snake,
}

abbrev pub capital : Bytes → Bytes
capital [] = []
capital (c ∷ cs) = (c - 32) ∷ cs

abbrev pub capitals : List Bytes → Bytes
capitals [] = []
capitals (w ∷ ws) = capital w ++ capitals ws

abbrev pub ascii_lower : ℕ → Bool
ascii_lower c = leb b'a' c && leb c b'z'

abbrev pub ascii_upper : ℕ → Bool
ascii_upper c = leb b'A' c && leb c b'Z'

-- What Unicode says of an ASCII character.
pub record AsciiCase (u : CharCase) : Type 0 where
  pub lower : (c : ℕ) → c < 128 → u.is_lowercase c ≡ ascii_lower c
  pub upper : (c : ℕ) → c < 128 → u.is_uppercase c ≡ ascii_upper c
  pub to_upper : (c : ℕ) → c < 128 → u.to_uppercase c ≡ (if ascii_lower c then c - 32 else c) ∷ []
  pub to_lower : (c : ℕ) → c < 128 → u.to_lowercase c ≡ (if ascii_upper c then c + 32 else c) ∷ []

or_true : (b : Bool) → (b || true) ≡ true
or_true true = refl
or_true false = refl

tail-small : (c : ℕ) → IsTail c → c < 128
tail-small c (inl h) = omega arith
tail-small c (inr h) = omega arith

last_char-some : (c : ℕ) (cs : Bytes) → (l : ℕ) × last_char (c ∷ cs) ≡ some l
unfolding last_char
last_char-some c [] = (c, refl)
last_char-some c (d ∷ ds) = last_char-some d ds

-- A character of a component after its first one stays.
module _ (u : CharCase) (a : AsciiCase u) where
  tail-upper : (c : ℕ) → IsTail c → u.is_uppercase c ≡ false
  tail-upper c (inl h) = a.upper c (omega arith) ∙ (ground arith)
  tail-upper c (inr h) = a.upper c (omega arith) ∙ (ground arith)

  tail-to_lower : (c : ℕ) → IsTail c → u.to_lowercase c ≡ c ∷ []
  tail-to_lower c h =
      let no : ascii_upper c ≡ false = sym (a.upper c (tail-small c h)) ∙ tail-upper c h in
      a.to_lower c (tail-small c h) ∙ rw no refl

  camel_chars-tail : (p : Bool) (cs : Bytes) → All IsTail cs → camel_chars u false p cs ≡ cs
  unfolding camel_chars
  camel_chars-tail p [] h = refl
  camel_chars-tail p (c ∷ cs) (h, hs) =
      rw (tail-upper c h, and_false p, tail-to_lower c h, camel_chars-tail (u.is_lowercase c) cs hs)
        refl

  lower-to_upper : (c : ℕ) → IsLower c → u.to_uppercase c ≡ (c - 32) ∷ []
  lower-to_upper c h =
      let yes : ascii_lower c ≡ true = ground arith in a.to_upper c (omega arith) ∙ rw yes refl

  camel_component-word : (w : Bytes) → IsWord w → camel_component u w ≡ capital w
  unfolding camel_chars camel_component
  camel_component-word [] h = absurd h
  camel_component-word (c ∷ cs) (h, hs) =
      rw (or_true (u.is_uppercase c), lower-to_upper c h, camel_chars-tail (u.is_lowercase c) cs hs)
        refl

  map-camel_component :
      (ws : List Bytes) → All IsWord ws → map (camel_component u) ws ≡ map capital ws
  map-camel_component [] h = refl
  map-camel_component (w ∷ ws) (h, hs) =
      rw (camel_component-word w h, map-camel_component ws hs) refl

  -- An uppercase letter needs no underscore in front of it.
  separator-upper : (l c : ℕ) → IsLower c → separator u (some l) (some (c - 32)) ≡ some []
  unfolding separator char_has_case
  separator-upper l c h =
      let up : u.is_uppercase (c - 32) ≡ true = a.upper (c - 32) (omega arith) ∙ (ground arith) in
      rw
        (
          up,
          or_true (u.is_lowercase (c - 32)),
          and_false (not (u.is_lowercase l || u.is_uppercase l)),
        )
        refl

  camel_rest-words :
      (p : ℕ) (ps : Bytes) (ws : List Bytes)
      → All IsWord ws
      → camel_rest u (p ∷ ps) (map capital ws) ≡ some (capitals ws)
  unfolding camel_rest joined first_char
  camel_rest-words p ps [] h = refl
  camel_rest-words p ps ([] ∷ ws) (h, hs) = absurd h
  camel_rest-words p ps ((c ∷ cs) ∷ ws) (h, hs) =
      let (l, e) = last_char-some p ps in
      rw (e, separator-upper l c h.0, camel_rest-words (c - 32) cs ws hs) refl

  camel_join-words :
      (ws : List Bytes) → All IsWord ws → camel_join u (map capital ws) ≡ some (capitals ws)
  unfolding camel_join joined
  camel_join-words [] h = refl
  camel_join-words ([] ∷ ws) (h, hs) = absurd h
  camel_join-words ((c ∷ cs) ∷ ws) (h, hs) = rw (camel_rest-words (c - 32) cs ws hs) refl

  pub to_camel_case-snake :
      (w : Bytes) (ws : List Bytes)
      → All IsWord (w ∷ ws)
      → to_camel_case u (snake w ws) ≡ some (capitals (w ∷ ws))
  unfolding to_camel_case
  to_camel_case-snake w ws h =
      rw
        (
          trim_start-snake w ws h.0,
          trim_end-snake w ws h,
          split-snake w ws h,
          non_empty-words (w ∷ ws) h,
          map-camel_component (w ∷ ws) h,
        )
        (camel_join-words (w ∷ ws) h)

-- The name that an enum item stands for, with an underscore in front of it.
abbrev pub lower_snake : Bytes → Bytes
lower_snake [] = []
lower_snake (c ∷ cs) = (if ascii_upper c then b'_' ∷ (c + 32) ∷ [] else c ∷ []) ++ lower_snake cs

abbrev under : List Bytes → Bytes
under [] = []
under (w ∷ ws) = b'_' ∷ (w ++ under ws)

lower_snake-tail :
    (cs rest : Bytes) → All IsTail cs → lower_snake (cs ++ rest) ≡ cs ++ lower_snake rest
lower_snake-tail [] rest h = refl
lower_snake-tail (c ∷ cs) rest (h, hs) =
    let no : ascii_upper c ≡ false = elim h [ inl l ↦ ground arith | inr d ↦ ground arith ] in
    rw (no, lower_snake-tail cs rest hs) refl

lower_snake-capitals : (ws : List Bytes) → All IsWord ws → lower_snake (capitals ws) ≡ under ws
lower_snake-capitals [] h = refl
lower_snake-capitals ([] ∷ ws) (h, hs) = absurd h
lower_snake-capitals ((c ∷ cs) ∷ ws) (h, hs) =
    let up : ascii_upper (c - 32) ≡ true = ground arith in
    let back : c - 32 + 32 ≡ c = omega arith in
    rw (up, back, lower_snake-tail cs (capitals ws) h.1, lower_snake-capitals ws hs) refl

under-snake : (w : Bytes) (ws : List Bytes) → under (w ∷ ws) ≡ b'_' ∷ snake w ws
under-snake w [] = ap (λ t. b'_' ∷ t) (append-nil w)
under-snake w (v ∷ vs) = ap (λ t. b'_' ∷ (w ++ t)) (under-snake v vs)

pub lower_snake-snake :
    (w : Bytes) (ws : List Bytes)
    → All IsWord (w ∷ ws)
    → lower_snake (capitals (w ∷ ws)) ≡ b'_' ∷ snake w ws
lower_snake-snake w ws h = lower_snake-capitals (w ∷ ws) h ∙ under-snake w ws

-- For a name of lowercase words joined by underscores, where Unicode classes the ASCII
-- characters as ASCII does: to_camel_case returns, and the name can be read back from the enum
-- item that it makes (each uppercase letter is an underscore and the lowercase letter), so that
-- two such names never share an enum item.
pub lower_snake-to_camel_case :
    (u : CharCase)
    → AsciiCase u
    → (w : Bytes) (ws : List Bytes) → All IsWord (w ∷ ws)
    → (item : Bytes) × (to_camel_case u (snake w ws) ≡ some item)
      × (lower_snake item ≡ b'_' ∷ snake w ws)
lower_snake-to_camel_case u a w ws h =
    (capitals (w ∷ ws), to_camel_case-snake u a w ws h, lower_snake-snake w ws h)
