-- ===== src/Utils/Err.antt =====
-- utils/err.rs: errors with a SQLSTATE code, over `anyhow::Error`. An `anyhow::Error` is a cause
-- under the contexts that were put on it, the outermost first; every context of the modelled code
-- is an `ErrCtx`.
use kui_ba_db.Base.{List, [], ◌∷◌, ◌++◌, Bytes, Outcome, ok, err, panic}
use kui_ba_db.Base.Text.{codes}
use kui_ba_db.Protocol.Errcodes.{errcode_internal_error}

pub record ErrCtx : Type 0 where
  pub code : Bytes
  pub msg : Bytes

-- An `io::Error`, by the text that it displays.
pub record IoError : Type 0 where
  pub text : Bytes

-- What lies under the contexts: `anyhow!("")`, another `anyhow!(…)`, an `io::Error`, or the
-- `Utf8Error` of some bytes.
pub data Cause : Type 0 where
  empty : Cause
  text : Bytes → Cause
  io : IoError → Cause
  utf8 : Bytes → Cause

pub record AnyError : Type 0 where
  pub contexts : List ErrCtx
  pub cause : Cause

abbrev pub Fallible {ℓ} : Type ℓ → Type ℓ
Fallible A = Outcome AnyError A

-- The macros `errctx!` and `kbanyhow!`.
abbrev pub errctx : Bytes → Bytes → ErrCtx
errctx code msg = record { code = code; msg = msg }

abbrev pub kbanyhow : Bytes → Bytes → AnyError
kbanyhow code msg = record { contexts = errctx code msg ∷ []; cause = Cause.empty }

-- `with_context` puts a context on an error, and leaves a success alone.
unfoldable pub with_context {ℓ} : {A : Type ℓ} → ErrCtx → Fallible A → Fallible A
with_context c (ok a) = ok a
with_context c (err e) = err (record e { contexts = c ∷ e.contexts })
with_context c panic = panic

code_of : List ErrCtx → Bytes
code_of [] = errcode_internal_error
code_of (c ∷ cs) = c.code

-- `downcast_ref` finds the outermost `ErrCtx`.
unfoldable pub errcode : AnyError → Bytes
unfolding code_of
errcode e = code_of e.contexts

-- `{:#}`: the contexts from the outermost in, and the cause, joined by ": ". The text of a
-- `Utf8Error` is the standard library's.
module _ (utf8_text : Bytes → Bytes) where
  cause_text : Cause → Bytes
  cause_text Cause.empty = []
  cause_text (Cause.text t) = t
  cause_text (Cause.io e) = e.text
  cause_text (Cause.utf8 s) = utf8_text s

  join_contexts : List ErrCtx → Bytes → Bytes
  join_contexts [] last = last
  join_contexts (c ∷ cs) last = c.msg ++ (codes ": " ++ join_contexts cs last)

  unfoldable pub display_error : AnyError → Bytes
  unfolding cause_text join_contexts
  display_error e = join_contexts e.contexts (cause_text e.cause)
