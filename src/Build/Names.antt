-- ===== src/Build/Names.antt =====
-- build.rs: how `to_camel_case` trims and splits the names that gucdef.yaml has.
use kui_ba_db.Base.{
  ℕ, ◌≤◌, ◌≡◌, refl, ap, ◌∙◌, arith, ◌⊎◌, inl, inr, List, [], ◌∷◌, ◌++◌, append_assoc, All, Bytes,
  Bool, true, false, ◌&&◌, ◌==◌,
}
use kui_ba_db.Build.{trim_start, is_empty, trim_end, push_front, split, non_empty}

abbrev pub IsLower : ℕ → Type 0
IsLower c = (b'a' ≤ c) × (c ≤ b'z')

-- A lowercase letter or a digit.
abbrev pub IsTail : ℕ → Type 0
IsTail c = IsLower c ⊎ ((b'0' ≤ c) × (c ≤ b'9'))

abbrev pub IsWord : Bytes → Type 0
IsWord [] = ⊥
IsWord (c ∷ cs) = IsLower c × All IsTail cs

abbrev pub snake : Bytes → List Bytes → Bytes
snake w [] = w
snake w (v ∷ vs) = w ++ b'_' ∷ snake v vs

abbrev Plain : Bytes → Type 0
Plain = All (λ c. (c == b'_') ≡ false)

tail-Plain : (cs : Bytes) → All IsTail cs → Plain cs
tail-Plain [] h = tt
tail-Plain (c ∷ cs) (inl h, hs) = (ground arith, tail-Plain cs hs)
tail-Plain (c ∷ cs) (inr h, hs) = (ground arith, tail-Plain cs hs)

word-Plain : (w : Bytes) → IsWord w → Plain w
word-Plain [] h = absurd h
word-Plain (c ∷ cs) (h, hs) = (ground arith, tail-Plain cs hs)

trim_end-Plain : (w : Bytes) → Plain w → trim_end w ≡ w
unfolding trim_end
trim_end-Plain [] h = refl
trim_end-Plain (c ∷ cs) (h, hs) = rw h (ap (λ t. c ∷ t) (trim_end-Plain cs hs))

append-not_empty : (xs ys : Bytes) → is_empty ys ≡ false → is_empty (xs ++ ys) ≡ false
unfolding is_empty
append-not_empty [] ys ne = ne
append-not_empty (x ∷ xs) ys ne = refl

pub and_false : (b : Bool) → (b && false) ≡ false
and_false true = refl
and_false false = refl

-- Nothing is trimmed in front of a text that is not empty.
trim_end-append :
    (xs ys : Bytes) → trim_end ys ≡ ys → is_empty ys ≡ false → trim_end (xs ++ ys) ≡ xs ++ ys
unfolding trim_end
trim_end-append [] ys h ne = h
trim_end-append (x ∷ xs) ys h ne =
    rw (trim_end-append xs ys h ne, append-not_empty xs ys ne, and_false (x == b'_')) refl

split-Plain : (w rest : Bytes) → Plain w → split (w ++ b'_' ∷ rest) ≡ w ∷ split rest
unfolding split push_front
split-Plain [] rest h = refl
split-Plain (c ∷ cs) rest (h, hs) = rw (h, split-Plain cs rest hs) refl

split-last : (w : Bytes) → Plain w → split w ≡ w ∷ []
unfolding split push_front
split-last [] h = refl
split-last (c ∷ cs) (h, hs) = rw (h, split-last cs hs) refl

pub split-snake : (w : Bytes) (ws : List Bytes) → All IsWord (w ∷ ws) → split (snake w ws) ≡ w ∷ ws
split-snake w [] (h, hs) = split-last w (word-Plain w h)
split-snake w (v ∷ vs) (h, hs) =
    split-Plain w (snake v vs) (word-Plain w h) ∙ ap (λ t. w ∷ t) (split-snake v vs hs)

pub non_empty-words : (ws : List Bytes) → All IsWord ws → non_empty ws ≡ ws
unfolding non_empty is_empty
non_empty-words [] h = refl
non_empty-words ([] ∷ ws) (h, hs) = absurd h
non_empty-words ((c ∷ cs) ∷ ws) (h, hs) = ap (λ t. (c ∷ cs) ∷ t) (non_empty-words ws hs)

pub trim_start-snake :
    (w : Bytes) (ws : List Bytes) → IsWord w → trim_start (snake w ws) ≡ snake w ws
unfolding trim_start
trim_start-snake [] ws h = absurd h
trim_start-snake (c ∷ cs) [] (h, hs) = let no : (c == b'_') ≡ false = ground arith in rw no refl
trim_start-snake (c ∷ cs) (v ∷ vs) (h, hs) =
    let no : (c == b'_') ≡ false = ground arith in rw no refl

snake-not_empty : (w : Bytes) (ws : List Bytes) → IsWord w → is_empty (snake w ws) ≡ false
unfolding is_empty
snake-not_empty [] ws h = absurd h
snake-not_empty (c ∷ cs) [] h = refl
snake-not_empty (c ∷ cs) (v ∷ vs) h = refl

pub trim_end-snake :
    (w : Bytes) (ws : List Bytes) → All IsWord (w ∷ ws) → trim_end (snake w ws) ≡ snake w ws
trim_end-snake w [] (h, hs) = trim_end-Plain w (word-Plain w h)
trim_end-snake w (v ∷ vs) (h, hs) =
    let e : (w ++ b'_' ∷ []) ++ snake v vs ≡ w ++ b'_' ∷ snake v vs =
      append_assoc w (b'_' ∷ []) (snake v vs) in
    rw (← e) (
      trim_end-append (w ++ b'_' ∷ []) (snake v vs) (trim_end-snake v vs hs)
        (snake-not_empty v vs hs.0))
