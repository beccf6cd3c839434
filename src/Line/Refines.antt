-- ===== src/Line/Refines.antt =====
-- `read_message` of src/transport/line.rs against the framing of the whole stream: one chunk.
pub mod Passes
use sml_mcps.Prelude.{
  ℕ, zero, suc, ◌+◌, ◌≤◌, ◌<◌, ◌≡◌, refl, sym, ap, ◌∙◌, Bool, true, false, ◌⊎◌, Option, none, some,
  List, [], ◌∷◌, ◌++◌, append-nil, append_assoc, arith, ltb, leb, ◌==◌, if◌then◌else◌, length,
  length-append, inl, inr, Bool-cases, Option-cases,
}
use sml_mcps.Prelude.Text.{Text}
use sml_mcps.Rpc.{JsonRpcMessage}
use sml_mcps.Rpc.Json.{Json}
use sml_mcps.Error.{McpError, Result, ok, err, io, timeout, transport_closed, IoKind}
use sml_mcps.Line.Source.{DeadlineRead, Filled, bytes, failed, taken, IsStream}
use sml_mcps.Line.{
  Bytes, LineReader, Formats, split_line, absorb, decode_line, too_long, Pass, done, again, finish,
  after_absorb, is_timeout, is_interrupt, is_disconnect, take_bytes, take_failure, timed_out_error,
  take_filled, fill, fill_unless, arm, armed_by, expired, pass, read_loop, start, read_message,
}
use sml_mcps.Line.Framing.{
  Pending, pending, verdict, IsOpen, split_line-append, split_line_extend, append-split_line,
  verdict_overflow, verdict_skip,
}

module _ {V : Type 0} where
  -- The answers that say nothing about a message: a wait that expired, a failure of the source,
  -- the end of the stream.
  abbrev pub IsFailure : Result V (JsonRpcMessage V) → Type 0
  IsFailure (err (timeout m)) = Unit
  IsFailure (err (io kind m)) = Unit
  IsFailure (err transport_closed) = Unit
  IsFailure _ = ⊥

module _ {V : Type 0} (j : Json V) (f : Formats) where
  -- The first message of what was pending, and what is pending after it.
  abbrev pub Answers :
      LineReader → Bytes → Result V (JsonRpcMessage V) → LineReader → Bytes → Type 0
  Answers r later result r' later' =
      (verdict j f r.max_bytes (pending r later) ≡ some (result, (pending r' later').unread))
      × (r'.overflowed ≡ false)

  -- Nothing was answered, and the framing of what is pending is as it was.
  abbrev pub Keeps : LineReader → Bytes → LineReader → Bytes → Type 0
  Keeps r later r' later' =
      verdict j f r.max_bytes (pending r' later') ≡ verdict j f r.max_bytes (pending r later)

  abbrev pub Ended :
      LineReader → Bytes → Pass (Result V (JsonRpcMessage V)) → LineReader → Bytes → Type 0
  Ended r later again r' later' = Keeps r later r' later'
  Ended r later (done result) r' later' =
      Answers r later result r' later' ⊎ (IsFailure result × Keeps r later r' later')

  pub record Refined (r : LineReader) (later : Bytes) (p : Pass (Result V (JsonRpcMessage V)))
      (r' : LineReader) (later' : Bytes) : Type 0 where
    pub ended : Ended r later p r' later'
    pub open_front : IsOpen r'.partial
    pub same_limit : r'.max_bytes ≡ r.max_bytes

  module _ (r : LineReader) (available later : Bytes) where
    -- a chunk with no newline
    absorb_open :
        IsOpen r.partial
        → IsOpen available
        → Refined
            (record r { buffer = available })
            later
            (after_absorb j f (absorb r available)).0
            (after_absorb j f (absorb r available)).1
            later
    unfolding absorb split_line
    absorb_open o a = rw a (elim (Bool-cases r.overflowed) [
      | inl over ↦ rw over (record {
        ended = sym (verdict_skip j f r.max_bytes available later a);
        open_front = o;
        same_limit = refl;
      })
      | inr fresh ↦
          rw fresh (elim (Bool-cases (ltb r.max_bytes (length r.partial + length available))) [
            | inl big ↦ rw big (record {
              ended =
                  sym (
                    verdict_overflow j f r.max_bytes (r.partial ++ available) later joined
                      (ground (arith, length-append r.partial available)))
                  ∙ rw append_assoc;
              open_front = refl;
              same_limit = refl;
            })
            | inr fits ↦
                rw fits (record { ended = rw append_assoc; open_front = joined; same_limit = refl })
          ])
    ])
      where
        joined : IsOpen (r.partial ++ available)
        joined = rw (split_line-append r.partial available o) (rw a)

    framed :
        (line rest : Bytes)
        → IsOpen r.partial
        → split_line available ≡ some (line, rest)
        → split_line (r.partial ++ (available ++ later)) ≡ some (r.partial ++ line, rest ++ later)
    framed line rest o a =
        rw (split_line-append r.partial (available ++ later) o)
          (rw (split_line_extend available later line rest a))

    absorb_line :
        (line rest : Bytes)
        → IsOpen r.partial
        → split_line available ≡ some (line, rest)
        → Refined
            (record r { buffer = available })
            later
            (after_absorb j f (absorb r available)).0
            (after_absorb j f (absorb r available)).1
            later
    unfolding absorb split_line verdict
    absorb_line line rest o a = rw a (elim (Bool-cases r.overflowed) [
      | inl over ↦ rw over (record {
        ended = inl (rw (split_line_extend available later line rest a), refl);
        open_front = refl;
        same_limit = refl;
      })
      | inr fresh ↦ rw fresh (elim (Bool-cases (ltb r.max_bytes (length r.partial + length line))) [
        | inl big ↦ rw big (record {
          ended =
              inl (rw (framed line rest o a) (ground (arith, length-append r.partial line)), refl);
          open_front = refl;
          same_limit = refl;
        })
        | inr fits ↦ rw fits (record {
          ended =
              inl (rw (framed line rest o a) (ground (arith, length-append r.partial line)), refl);
          open_front = refl;
          same_limit = refl;
        })
      ])
    ])

  pub take_bytes-Refined :
      (r : LineReader) (bs later : Bytes)
      → IsOpen r.partial
      → Refined
          (record r { buffer = bs })
          later
          (take_bytes j f (record r { buffer = bs }) bs).0
          (take_bytes j f (record r { buffer = bs }) bs).1
          later
  unfolding take_bytes
  take_bytes-Refined r [] later o = record {
    ended = inr (tt, refl);
    open_front = o;
    same_limit = refl;
  }
  take_bytes-Refined r (c ∷ cs) later o = elim (Option-cases (split_line (c ∷ cs))) [
    | inl none_yet ↦ absorb_open (record r { buffer = c ∷ cs }) (c ∷ cs) later o none_yet
    | inr ((line, rest), found) ↦
        absorb_line (record r { buffer = c ∷ cs }) (c ∷ cs) later line rest o found
  ]
