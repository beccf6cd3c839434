-- ===== src/Line/Source.antt =====
-- The trait `DeadlineRead` of src/transport/line.rs with the clock, as an interface.
use sml_mcps.Prelude.{ℕ, ◌≡◌, Option, List, ◌++◌}
use sml_mcps.Prelude.Text.{Text}
use sml_mcps.Error.{IoKind}

-- What a read yields: some bytes, none at the end of the stream, or an error.
pub data Filled : Type 0 where
  bytes : List ℕ → Filled
  failed : IoKind → Text → Filled

pub record DeadlineRead (S : Type 0) : Type 0 where
  pub read : S → Filled × S
  pub set_deadline : Option ℕ → S → Option (IoKind × Text) × S
  -- `Instant::now()`
  pub now : S → ℕ × S

-- What is used of a source: it is a stream of bytes, of which a read takes the front and a
-- failing read nothing.
abbrev pub taken : Filled → List ℕ
taken (bytes bs) = bs
taken (failed kind e) = List.[]

pub record IsStream {S : Type 0} (src : DeadlineRead S) (stream : S → List ℕ) : Type 0 where
  pub read_takes : (s : S) → stream s ≡ taken (src.read s).0 ++ stream (src.read s).1
  pub deadline_takes : (d : Option ℕ) (s : S) → stream (src.set_deadline d s).1 ≡ stream s
  pub now_takes : (s : S) → stream (src.now s).1 ≡ stream s
