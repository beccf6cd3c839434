-- ===== src/Line/Tests.antt =====
-- Runs of src/transport/line.rs over scripted sources, as in its tests, and the theorems there.
use sml_mcps.Prelude.{
  ◌<◌, ◌≡◌, refl, true, false, ◌⊎◌, none, List, [], ◌∷◌, ◌++◌, arith, inl, inr, length, is_some,
}
use sml_mcps.Prelude.Text.{Text}
use sml_mcps.Rpc.Json.{Json, Shape}
use sml_mcps.Rpc.Json
use sml_mcps.Error.{would_block, interrupted}
use sml_mcps.Line.Source.{DeadlineRead, Filled, bytes, failed, taken, IsStream}
use sml_mcps.Line.{LineReader, Formats, Bytes, read_message, split_line}
use sml_mcps.Line.Framing.{IsOpen}
use sml_mcps.Line.Ends.{IsFinite, read_message_ends}
use sml_mcps.Line.Refines.Passes.{Returned, read_message-Returned}

-- A scripted source: what the reads yield in turn, then the end of the stream.
abbrev Script : Type 0
Script = List Filled

abbrev read_script : Script → Filled × Script
read_script [] = (bytes [], [])
read_script (e ∷ es) = (e, es)

abbrev scripted : DeadlineRead Script
scripted = record { read = read_script; set_deadline = λ d s. (none, s); now = λ s. (0, s) }

abbrev contents : Script → Bytes
contents [] = []
contents (e ∷ es) = taken e ++ contents es

script_takes : (s : Script) → contents s ≡ taken (read_script s).0 ++ contents (read_script s).1
script_takes [] = refl
script_takes (e ∷ es) = refl

scripted-IsStream : IsStream scripted contents
scripted-IsStream = record {
  read_takes = script_takes;
  deadline_takes = λ d s. refl;
  now_takes = λ s. refl;
}

script_counts :
    (s : Script) → ((read_script s).0 ≡ bytes []) ⊎ (length (read_script s).1 < length s)
script_counts [] = inl refl
script_counts (e ∷ es) = inr (omega arith)

scripted-IsFinite : IsFinite scripted length
scripted-IsFinite = record {
  read_counts = script_counts;
  deadline_counts = λ d s. omega arith;
  now_counts = λ s. omega arith;
}

-- JSON values stand for their text, and nothing decodes.
abbrev no_json : Json Text
no_json = record {
  shape = λ v. Shape.object;
  field = λ k v. none;
  singleton = λ k v. v;
  from_str = λ t. Json.Decoded.ok t;
  decode_id = λ v. none;
  decode_request = λ v. Json.Decoded.err v;
  decode_notification = λ v. Json.Decoded.err v;
  decode_response = λ v. Json.Decoded.err v;
}

abbrev formats : Formats
formats = record { debug_duration = λ t. []; utf8_error = λ bs. [] }

-- A message in three pieces, with a signal and an expired wait between them.
abbrev pieces : Script
pieces =
    bytes (b'a' ∷ b'b' ∷ [])
    ∷ failed interrupted []
    ∷ bytes (b'c' ∷ [])
    ∷ failed would_block []
    ∷ bytes (b'\n' ∷ b'x' ∷ [])
    ∷ []

abbrev reader : LineReader
reader = record { buffer = []; partial = []; max_bytes = 3; overflowed = false; armed = false }

reader-IsOpen : IsOpen reader.partial
unfolding split_line
reader-IsOpen = refl

read_message-Returned_example :
    Returned no_json formats scripted contents scripted-IsStream reader pieces
      (read_message no_json formats scripted 9 none reader pieces)
read_message-Returned_example =
    read_message-Returned no_json formats scripted contents scripted-IsStream 9 none reader pieces
      reader-IsOpen

read_message_ends_example :
    is_some (read_message no_json formats scripted 9 none reader pieces) ≡ true
read_message_ends_example =
    read_message_ends no_json formats scripted length scripted-IsFinite 9 none reader pieces
      (omega arith)
