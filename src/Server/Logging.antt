-- ===== src/Server/Logging.antt =====
-- src/server.rs: `LogLevel`, `logging/setLevel`, and which records reach the client.
use sml_mcps.Prelude.{
  ℕ, ◌+◌, ◌≡◌, refl, ◌↔◌, Bool, true, ◌&&◌, Option, Option-cases, inl, inr, none, some, [], ◌∷◌,
  ◌++◌, arith, leb, if◌then◌else◌, ◌≤◌,
}
use sml_mcps.Prelude.Text.{Text, text, text_eq}
use sml_mcps.Rpc.Json.{Decoded}
use sml_mcps.Rpc.Json
use sml_mcps.Error.{McpError, Result, ok, err, invalid_params_of}

pub data LogLevel : Type 0 where
  debug info notice warning error critical alert emergency : LogLevel

-- The derived order: the place among the variants.
unfoldable pub severity : LogLevel → ℕ
severity debug = 0
severity info = 1
severity notice = 2
severity warning = 3
severity error = 4
severity critical = 5
severity alert = 6
severity emergency = 7

unfoldable pub as_str : LogLevel → Text
as_str debug = text "debug"
as_str info = text "info"
as_str notice = text "notice"
as_str warning = text "warning"
as_str error = text "error"
as_str critical = text "critical"
as_str alert = text "alert"
as_str emergency = text "emergency"

-- `to_ascii_lowercase`, byte by byte
unfoldable pub lower_byte : ℕ → ℕ
lower_byte c = if leb b'A' c && leb c b'Z' then c + 32 else c

unfoldable pub to_ascii_lowercase : Text → Text
to_ascii_lowercase [] = []
to_ascii_lowercase (c ∷ cs) = lower_byte c ∷ to_ascii_lowercase cs

unfoldable pub named : Text → Option LogLevel
named t =
    if text_eq t (text "debug")
    then some debug
    else if text_eq t (text "info")
    then some info
    else if text_eq t (text "notice")
    then some notice
    else if text_eq t (text "warning")
    then some warning
    else if text_eq t (text "error")
    then some error
    else if text_eq t (text "critical")
    then some critical
    else if text_eq t (text "alert")
    then some alert
    else if text_eq t (text "emergency")
    then some emergency
    else none

unfoldable pub from_wire : Text → Option LogLevel
from_wire name = named (to_ascii_lowercase name)

-- `ToolEnv::log_enabled`, and the test of `log_data`
unfoldable pub log_enabled : LogLevel → LogLevel → Bool
log_enabled threshold level = leb (severity threshold) (severity level)

unfoldable pub unknown_level : Text → Text
unknown_level level =
    text "Unknown log level `"
    ++ (level
        ++ text
            "`; expected one of: debug, info, notice, warning, error, critical, alert, emergency")

module _ {V : Type 0} where
  abbrev pub read_level : Decoded Text → Result V Text
  read_level (Json.Decoded.ok level) = ok level
  read_level (Json.Decoded.err e) = err (invalid_params_of (text "Invalid setLevel params: " ++ e))

  abbrev pub set_to : Text → Option LogLevel → LogLevel → Result V Unit × LogLevel
  set_to name none old = (err (invalid_params_of (unknown_level name)), old)
  set_to name (some l) old = (ok tt, l)

  abbrev pub set_named : Result V Text → LogLevel → Result V Unit × LogLevel
  set_named (err e) old = (err e, old)
  set_named (ok name) old = set_to name (from_wire name) old

module _ {V : Type 0} (decode : V → Decoded Text) where
  abbrev pub level_param : Option V → Result V Text
  level_param none = err (invalid_params_of (text "Missing params"))
  level_param (some p) = read_level (decode p)

  -- `handle_set_level`: the level is what the server keeps
  unfoldable pub handle_set_level : Option V → LogLevel → Result V Unit × LogLevel
  handle_set_level params old = set_named (level_param params) old

lower_byte_twice : (c : ℕ) → lower_byte (lower_byte c) ≡ lower_byte c
unfolding lower_byte
lower_byte_twice c = ground arith

lower_twice : (t : Text) → to_ascii_lowercase (to_ascii_lowercase t) ≡ to_ascii_lowercase t
unfolding to_ascii_lowercase
lower_twice [] = refl
lower_twice (c ∷ cs) = rw (lower_byte_twice c, lower_twice cs) refl

lower-as_str : (l : LogLevel) → to_ascii_lowercase (as_str l) ≡ as_str l
unfolding to_ascii_lowercase lower_byte as_str text
lower-as_str debug = refl
lower-as_str info = refl
lower-as_str notice = refl
lower-as_str warning = refl
lower-as_str error = refl
lower-as_str critical = refl
lower-as_str alert = refl
lower-as_str emergency = refl

named-as_str : (l : LogLevel) → named (as_str l) ≡ some l
unfolding named as_str text text_eq
named-as_str debug = refl
named-as_str info = refl
named-as_str notice = refl
named-as_str warning = refl
named-as_str error = refl
named-as_str critical = refl
named-as_str alert = refl
named-as_str emergency = refl

spelled : (l : LogLevel) (t : Text) → to_ascii_lowercase t ≡ as_str l → from_wire t ≡ some l
unfolding from_wire
spelled l t h = rw h (named-as_str l)

module _ {V : Type 0} where
  set_named_refused :
      (old : LogLevel) (name : Result V Text) (e : McpError V)
      → (set_named name old).0 ≡ err e
      → (set_named name old).1 ≡ old
  set_named_refused old (err x) e h = refl
  set_named_refused old (ok name) e h = elim (Option-cases (from_wire name)) [
    | inl missing ↦ rw missing refl
    | inr (l, there) ↦ absurd (ok_not_err (rw there at h))
  ]
    where
      ok_not_err : Result.ok tt ≡ err e → ⊥
      ok_not_err f = cc

module _ {V : Type 0} (decode : V → Decoded Text) where
  -- A client that sets a level by its name, in whatever mix of cases, gets that level, and from
  -- then on exactly the records of at least its severity; a request that is refused leaves the
  -- level as it was.
  pub handle_set_level_named :
      (l old : LogLevel) (name : Text) (p : V)
      → decode p ≡ Json.Decoded.ok name
      → to_ascii_lowercase name ≡ as_str l
      → (handle_set_level decode (some p) old ≡ (ok tt, l))
        × ((k : LogLevel)
            → (log_enabled (handle_set_level decode (some p) old).1 k ≡ true)
              ↔ (severity l ≤ severity k))
        × ((q : Option V) (e : McpError V)
            → (handle_set_level decode q old).0 ≡ err e
            → (handle_set_level decode q old).1 ≡ old)
  unfolding handle_set_level log_enabled
  handle_set_level_named l old name p d h =
      rw (d, spelled l name h)
        (refl, (λ k. ground arith), (λ q e. set_named_refused old (level_param decode q) e))
