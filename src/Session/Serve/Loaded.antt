-- ===== src/Session/Serve/Loaded.antt =====
-- lib.rs and guc.rs: a session over the configuration that was loaded from kuiba.conf.
use kui_ba_db.Base.{
  ◌+◌, ◌^◌, ◌<◌, ◌≡◌, Bytes, List, [], ◌∷◌, ◌++◌, All, length, Bool, true, some, ok,
}
use kui_ba_db.Base.Assoc.{Assoc, lookup}
use kui_ba_db.Common.{Float}
use kui_ba_db.Guc.{Str, GucIdx, get_str}
use kui_ba_db.Utils.Ser.{Endian}
use kui_ba_db.Utils.Err.{IoError}
use kui_ba_db.Protocol.Message.{Message}
use kui_ba_db.Protocol.Startup.{startup_user_param, check_client_encoding}
use kui_ba_db.Protocol.Startup.Total.{IsParam, insert_all}
use kui_ba_db.Protocol.Startup.Opening.{startup_body, startup_of}
use kui_ba_db.Session.Serve.{postgres_main}
use kui_ba_db.Session.Serve.Output.{wire}
use kui_ba_db.Session.Serve.Script.{conn, script, answers, IsQuery}
use kui_ba_db.Session.Serve.Greeting.{Reports, greeting}
use kui_ba_db.Base.Text.{codes}
use kui_ba_db.Base.{inl, inr, Bool-cases}
use kui_ba_db.Common.{Yaml}
use kui_ba_db.Utils.Err.{Fallible}
use kui_ba_db.Guc.{LogState, World, should_report}
use kui_ba_db.Guc.Gucdef.{tables}
use kui_ba_db.Guc.Load.{load}
use kui_ba_db.Guc.Load.Invariant.{LoadInv}
use kui_ba_db.Guc.Load.Total.{booted}
use kui_ba_db.Guc.Load.Loaded.{load-LoadInv}
use kui_ba_db.Guc.Load.Shown.{IsIndex, generic-some, show-some}
use kui_ba_db.Protocol.Message.{parameter_status}
use kui_ba_db.Session.Serve.Greeting.{no_more, silent, reported}
use kui_ba_db.Session.Serve.Conversation.{opening, ssl_reply, postgres_main-script}

module _ (f : Float) (reload : Str → Bool) (log : LogState) where
  Reports-some :
      (w : World f.Real) (order : Assoc GucIdx)
      → LoadInv f log w
      → All (λ p. IsIndex p.1) order
      → (ms : List Message) × Reports f (tables f reload) w.gucstate order ms
  Reports-some w [] inv h = ([], no_more)
  Reports-some w ((name, idx) ∷ order) inv (h, hs) =
      let (ms, r) = Reports-some w order inv hs in
      let (gen, at, hook) = generic-some f reload idx h in
      let (v, shown) = show-some f reload log w idx gen inv h hook in
      elim (Bool-cases (should_report gen)) [
        | inl told ↦ (
          parameter_status (record { name = name; value = v }) ∷ ms,
          reported name v idx gen order ms at told shown r,
        )
        | inr quiet ↦ (ms, silent name idx gen order ms at quiet r)
      ]

  -- For a file kuiba.conf that loads, an order of names with the index of a variable each, and a
  -- client whose parameters are valid, fit a message, name a user and ask for no encoding but UTF8:
  -- there are parameter statuses as the loaded configuration displays the variables, and
  -- postgres_main on this configuration has the whole session with the client, with or without a
  -- request for SSL and for all queries that are UTF-8 and fit a message, without an error, with
  -- these statuses in its greeting and an answer for each query, where flushes succeed. The answer
  -- is the tag HELLOWORLD, whatever a query says.
  pub postgres_main-loaded :
      (ending : IoError) (e : Endian) (docs : Fallible (List Yaml)) (w : World f.Real)
      (order : Assoc GucIdx) (ps : List (Str × Str)) (user : Str)
      → load f (tables f reload) (booted f log) docs ≡ ok w
      → All (λ p. IsIndex p.1) order
      → All IsParam ps
      → length (startup_body ps) + 4 < 2 ^ 32
      → lookup startup_user_param (insert_all ps []) ≡ some user
      → check_client_encoding (startup_of ps user) (codes "UTF8") ≡ true
      → (utf8_text : Bytes → Bytes) (ssl : Bool) (qs : List Bytes) (rest written b : Bytes)
      → All IsQuery qs
      → (ms : List Message) × Reports f (tables f reload) w.gucstate order ms
        × (last : Bytes) × (postgres_main f
              (tables f reload)
              e
              utf8_text
              order
              w.gucstate
              (conn ending (opening ssl ps ++ script qs rest) written b)
            ≡ some (
              ok tt,
              conn ending rest
                  ((written ++ ssl_reply ssl)
                    ++ wire (greeting f (tables f reload) ms ++ answers qs))
                  last,
            ))
  unfolding get_str
  postgres_main-loaded ending e docs w order ps user el idx valid fits is_user checks utf8_text ssl
        qs rest written b v =
      let inv = load-LoadInv f reload log w docs el in
      let (ms, r) = Reports-some w order inv idx in
      let (last, eq) =
        postgres_main-script ending f (tables f reload) e order w.gucstate ps user (codes "UTF8") ms
          valid fits is_user inv.client checks r utf8_text ssl qs rest written b v in
      (ms, r, last, eq)
