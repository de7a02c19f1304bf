-- ===== src/Urings/Tests.antt =====
-- Three rings in turn.
use kui_ba_db.Base.{
  ℕ, ◌<◌, ◌≡◌, refl, arith, [], ◌∷◌, length, get_elem?, replicate, some, ◌+◌, ◌++◌, false, true,
  Outcome, ok,
}
use kui_ba_db.Base.Int.{pos}
use kui_ba_db.Guc.{GucState, get_int}
use kui_ba_db.Urings.{UringPool, non_iopoll, pick, new_urings}
use kui_ba_db.Urings.Start.{Starts, new_urings_total}
use kui_ba_db.Urings.RoundRobin.{after_calls, non_iopoll-round_robin}

abbrev three : UringPool ℕ
three = record { iopolls = []; non_iopolls = 10 ∷ 20 ∷ 30 ∷ []; seq = 0; nseq = 7 }

second_is_next : (non_iopoll three).0 ≡ some 20
unfolding non_iopoll pick
second_is_next = refl

non_iopoll-round_robin_example :
    (j : ℕ) × (j < length three.non_iopolls)
    × ((non_iopoll (after_calls j three)).0 ≡ get_elem? three.non_iopolls 0)
non_iopoll-round_robin_example = non_iopoll-round_robin three 0 (omega arith) (omega arith)

-- Rings are numbered.
abbrev numbered_ring : ℕ → ℕ → ℕ → ℕ → Outcome (Unit {0}) ℕ × ℕ
numbered_ring depth idle flags w = (ok w, w + 1)

numbered_ring-Starts : Starts numbered_ring 1
numbered_ring-Starts depth idle flags w = (w, w + 1, refl)

abbrev int_state : GucState (Unit {0})
int_state = record {
  vals = record {
    bool_vals = [];
    str_vals = [];
    int_vals = replicate 18 (pos 0) ++ pos 2 ∷ pos 3 ∷ pos 256 ∷ pos 2048 ∷ pos 1 ∷ pos 1 ∷ [];
    real_vals = [];
  };
  base_search_path_valid = false;
}

new_urings_total_example :
    (pool : UringPool ℕ) × (w' : ℕ) × (new_urings numbered_ring 1 true int_state 0 ≡ (ok pool, w'))
    × (length pool.iopolls ≡ 2)
    × (length pool.non_iopolls ≡ 3)
    × ((j : ℕ) → (ring : ℕ) × ((non_iopoll (after_calls j pool)).0 ≡ some ring))
unfolding get_int
new_urings_total_example =
    new_urings_total numbered_ring 1 numbered_ring-Starts true int_state 0 2 3 (pos 256) (pos 1)
      (pos 2048) (pos 1) refl refl refl refl refl refl (omega arith) (omega arith) (omega arith)
