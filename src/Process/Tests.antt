-- ===== src/Process/Tests.antt =====
-- bin/kuiba/main.rs: the process with an empty configuration file.
use kui_ba_db.Base.{
  ℕ, ◌+◌, ◌≡◌, refl, arith, List, [], ◌∷◌, true, Option, none, some, Outcome, ok, err,
}
use kui_ba_db.Base.Int.{ℤ, pos}
use kui_ba_db.Base.Text.{codes}
use kui_ba_db.Common.{Float}
use kui_ba_db.Guc.{LogState, LevelFilter, get_int}
use kui_ba_db.Guc.Gucdef.{tables}
use kui_ba_db.Guc.Load.{load, load_docs}
use kui_ba_db.Guc.Load.Total.{booted}
use kui_ba_db.Utils.Err.{IoError}
use kui_ba_db.Protocol.Read.{IoResult}
use kui_ba_db.Urings.Start.{Starts}
use kui_ba_db.Process.{RuntimeConf, Served, main}
use kui_ba_db.Process.Boot.{Accepted, main-load}

abbrev whole_numbers : Float
whole_numbers = record {
  Real = ℤ;
  parse_f64 = λ s. none;
  of_i64 = λ n. n;
  show_f64 = λ n. codes "0";
}

abbrev silent_log : LogState
silent_log = record { filter = codes "off"; max_level = LevelFilter.off }

-- Rings are numbered.
abbrev number_ring : ℕ → ℕ → ℕ → ℕ → Outcome IoError ℕ × ℕ
number_ring depth idle flags w = (ok w, w + 1)

number_ring-Starts : Starts number_ring 1
number_ring-Starts depth idle flags w = (w, w + 1, refl)

-- The second accept fails.
abbrev accepts : List (IoResult ℕ)
accepts = ok 7 ∷ err (record { text = codes "too many open files" }) ∷ ok 9 ∷ []

empty_loads :
    load whole_numbers (tables whole_numbers (λ s. true)) (booted whole_numbers silent_log) (ok [])
    ≡ ok (booted whole_numbers silent_log)
unfolding load load_docs
empty_loads = refl

abbrev defaults : RuntimeConf
defaults = record {
  max_blocking_threads = 512;
  keep_alive = 16;
  stack_size = 2097152;
  worker_threads = none;
}

abbrev run : IoResult (Unit {0}) → Option (RuntimeConf × Served ℕ ℕ)
run chdir =
    main number_ring 1 whole_numbers (tables whole_numbers (λ s. true)) true (λ c. true) (λ p. true)
      accepts chdir (ok []) (booted whole_numbers silent_log) 0

main-load_example :
    (ring : ℕ) × (conns : List ℕ) × Accepted accepts conns
    × (run (ok tt) ≡ some (defaults, record { port = 1218; ring = ring; spawned = conns }))
    × (run (err (record { text = codes "no such directory" })) ≡ none)
unfolding get_int
main-load_example =
    main-load number_ring 1 number_ring-Starts whole_numbers (λ s. true) silent_log (ok [])
      (booted whole_numbers silent_log) true (λ c. true) (λ p. true) accepts 0 1 1 (pos 1218)
      (pos 512) (pos 16) (pos 2097152) (pos 0) (record { text = codes "no such directory" })
      empty_loads refl refl refl refl refl refl refl (omega arith) (omega arith) (omega arith)
