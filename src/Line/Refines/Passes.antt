-- ===== src/Line/Refines/Passes.antt =====
-- `read_message` of src/transport/line.rs against the framing of the whole stream: the loop over
-- any source.
use sml_mcps.Prelude.{
  ℕ, zero, suc, ◌≡◌, refl, sym, ◌∙◌, ◌⊎◌, Option, none, some, [], ◌∷◌, ◌++◌, inl, inr, Bool-cases,
}
use sml_mcps.Prelude.Text.{Text}
use sml_mcps.Rpc.{JsonRpcMessage}
use sml_mcps.Rpc.Json.{Json}
use sml_mcps.Error.{McpError, Result, err, io, transport_closed, IoKind}
use sml_mcps.Line.Source.{DeadlineRead, Filled, bytes, failed, taken, IsStream}
use sml_mcps.Line.{
  Bytes, LineReader, Formats, Pass, done, again, is_timeout, is_interrupt, is_disconnect,
  take_failure, timed_out_error, take_filled, fill, fill_unless, arm, armed_by, expired, pass,
  read_loop, start, read_message,
}
use sml_mcps.Line.Framing.{pending, IsOpen}
use sml_mcps.Line.Refines.{IsFailure, Answers, Keeps, Ended, Refined, take_bytes-Refined}

module _ {V : Type 0} (j : Json V) (f : Formats) where
  -- A step that leaves the stream as it is.
  Refined-idle :
      (r : LineReader) (later : Bytes) (p : Pass (Result V (JsonRpcMessage V)))
      → IsOpen r.partial
      → Ended j f r later p r later
      → Refined j f r later p r later
  Refined-idle r later p o e = record { ended = e; open_front = o; same_limit = refl }

  timed_out_error-IsFailure : (limit : Option ℕ) → IsFailure (err (timed_out_error j f limit))
  unfolding timed_out_error
  timed_out_error-IsFailure none = tt
  timed_out_error-IsFailure (some t) = tt

  fail-Refined :
      (r : LineReader) (later : Bytes) (e : McpError V)
      → IsOpen r.partial
      → IsFailure (err e)
      → Refined j f r later (done (err e)) r later
  fail-Refined r later e o h = Refined-idle r later (done (err e)) o (inr (h, refl))

  take_failure-Refined :
      (limit : Option ℕ) (kind : IoKind) (e : Text) (r : LineReader) (later : Bytes)
      → IsOpen r.partial
      → Refined j f r later (take_failure j f limit kind e) r later
  unfolding take_failure
  take_failure-Refined limit kind e r later o = elim (Bool-cases (is_timeout kind)) [
    | inl slow ↦ rw slow (fail-Refined r later _ o (timed_out_error-IsFailure limit))
    | inr quick ↦ rw quick (elim (Bool-cases (is_interrupt kind)) [
      | inl signal ↦ rw signal (Refined-idle r later again o refl)
      | inr calm ↦ rw calm (elim (Bool-cases (is_disconnect kind)) [
        | inl gone ↦ rw gone (fail-Refined r later transport_closed o tt)
        | inr there ↦ rw there (fail-Refined r later (io kind e) o tt)
      ])
    ])
  ]

  module _ {S : Type 0} (src : DeadlineRead S) (stream : S → Bytes)
      (laws : IsStream src stream) where
    abbrev After : LineReader → S → Pass (Result V (JsonRpcMessage V)) × LineReader × S → Type 0
    After r s (p, r', s') = Refined j f r (stream s) p r' (stream s')

    Refined-from :
        (r q : LineReader) (later later' : Bytes) (p : Pass (Result V (JsonRpcMessage V)))
        (r' : LineReader) (last : Bytes)
        → pending r later ≡ pending q later'
        → r.max_bytes ≡ q.max_bytes
        → Refined j f q later' p r' last
        → Refined j f r later p r' last
    Refined-from r q later later' again r' last e m h = record {
      ended = rw (e, m) h.ended;
      open_front = h.open_front;
      same_limit = h.same_limit ∙ sym m;
    }
    Refined-from r q later later' (done x) r' last e m h = record {
      ended = rw (e, m) h.ended;
      open_front = h.open_front;
      same_limit = h.same_limit ∙ sym m;
    }

    take_filled-After :
        (limit : Option ℕ) (r : LineReader) (s : S) (got : Filled) (s' : S)
        → IsOpen r.partial
        → r.buffer ≡ []
        → stream s ≡ taken got ++ stream s'
        → After r s (take_filled j f src limit r (got, s'))
    take_filled-After limit r s (bytes bs) s' o b e =
        Refined-from r (record r { buffer = bs }) _ (stream s') _ _ _ (rw (b, e)) refl
          (take_bytes-Refined j f r bs (stream s') o)
    take_filled-After limit r s (failed kind m) s' o b e =
        rw e (take_failure-Refined limit kind m r (stream s') o)

    fill-After :
        (limit : Option ℕ) (bs : Bytes) (r : LineReader) (s : S)
        → IsOpen r.partial
        → r.buffer ≡ bs
        → After r s (fill j f src limit r bs s)
    fill-After limit [] r s o b =
        take_filled-After limit r s (src.read s).0 (src.read s).1 o b (laws.read_takes s)
    fill-After limit (c ∷ cs) r s o b =
        Refined-from r (record r { buffer = c ∷ cs }) (stream s) (stream s) _ _ _ (rw b) refl
          (rw b (take_bytes-Refined j f r (c ∷ cs) (stream s) o))

    -- what `arm` leaves alone, and the only error that it may give
    abbrev Armed : LineReader → S → Option (McpError V) × LineReader × S → Type 0
    Armed r s (none, r', s') =
        (pending r (stream s) ≡ pending r' (stream s'))
        × (r.max_bytes ≡ r'.max_bytes)
        × IsOpen r'.partial
    Armed r s (some e, r', s') =
        (pending r (stream s) ≡ pending r' (stream s'))
        × (r.max_bytes ≡ r'.max_bytes)
        × IsOpen r'.partial
        × IsFailure (err e)

    armed_by-Armed :
        (r : LineReader) (s : S) (o : Option (IoKind × Text)) (s' : S)
        → IsOpen r.partial
        → stream s' ≡ stream s
        → Armed r s (armed_by j f src r (o, s'))
    armed_by-Armed r s none s' h e = (rw e, refl, h)
    armed_by-Armed r s (some (kind, m)) s' h e = (rw e, refl, h, tt)

    arm-Armed :
        (deadline : Option ℕ) (r : LineReader) (s : S)
        → IsOpen r.partial
        → Armed r s (arm j f src deadline r s)
    unfolding arm
    arm-Armed (some d) r s h =
        armed_by-Armed r s (src.set_deadline (some d) s).0 (src.set_deadline (some d) s).1 h
          (laws.deadline_takes (some d) s)
    arm-Armed none r s h = elim (Bool-cases r.armed) [
      | inl on ↦ rw on (rw (laws.deadline_takes none s), refl, h)
      | inr off ↦ rw off (refl, refl, h)
    ]

    fill_unless-After :
        (limit : Option ℕ) (armed : Option (McpError V) × LineReader × S) (r : LineReader) (s : S)
        → Armed r s armed
        → After r s (fill_unless j f src limit armed)
    fill_unless-After limit (none, r', s') r s h =
        Refined-from r r' (stream s) (stream s') _ _ _ h.0 h.1
          (fill-After limit r'.buffer r' s' h.2 refl)
    fill_unless-After limit (some e, r', s') r s h =
        Refined-from r r' (stream s) (stream s') _ _ _ h.0 h.1
          (fail-Refined r' (stream s') e h.2 h.3)

    expired_takes : (deadline : Option ℕ) (s : S) → stream (expired j f src deadline s).1 ≡ stream s
    expired_takes none s = refl
    expired_takes (some d) s = laws.now_takes s

    -- One pass answers the first message of the stream, or fails, or goes on, as `Refined` says.
    pub pass-After :
        (limit deadline : Option ℕ) (r : LineReader) (s : S)
        → IsOpen r.partial
        → After r s (pass j f src limit deadline r s)
    unfolding pass
    pass-After limit deadline r s o =
        let s' = (expired j f src deadline s).1 in
        let same = expired_takes deadline s in
        elim (Bool-cases (expired j f src deadline s).0) [
          | inl late ↦ rw late (
              Refined-from r r (stream s) (stream s') _ _ _ (rw same) refl
                (fail-Refined r (stream s') _ o (timed_out_error-IsFailure limit)))
          | inr early ↦ rw early (
              Refined-from r r (stream s) (stream s') _ _ _ (rw same) refl (
                fill_unless-After limit (arm j f src deadline r s') r s'
                  (arm-Armed deadline r s' o)))
        ]

    -- What a call that returns has done.
    abbrev pub Returned :
        LineReader → S → Option (Result V (JsonRpcMessage V) × LineReader × S) → Type 0
    Returned r s none = Unit
    Returned r s (some (result, r', s')) =
        (Answers j f r (stream s) result r' (stream s')
          ⊎ (IsFailure result × Keeps j f r (stream s) r' (stream s')))
        × IsOpen r'.partial
        × (r'.max_bytes ≡ r.max_bytes)

    later_Returned :
        (r q : LineReader) (s t : S) (o : Option (Result V (JsonRpcMessage V) × LineReader × S))
        → Keeps j f r (stream s) q (stream t)
        → q.max_bytes ≡ r.max_bytes
        → Returned q t o
        → Returned r s o
    later_Returned r q s t none k m h = tt
    later_Returned r q s t (some (result, r', s')) k m (inl (a, fresh), o, m') =
        (inl (sym k ∙ (rw m at a), fresh), o, m' ∙ m)
    later_Returned r q s t (some (result, r', s')) k m (inr (x, k'), o, m') =
        (inr (x, (rw m at k') ∙ k), o, m' ∙ m)

    step_Returned :
        (p : Pass (Result V (JsonRpcMessage V))) (r r' : LineReader) (s s' : S)
        (rest : Option (Result V (JsonRpcMessage V) × LineReader × S))
        → Refined j f r (stream s) p r' (stream s')
        → Returned r' s' rest
        → Returned r s (elim p [ done result ↦ some (result, r', s') | again ↦ rest ])
    step_Returned (done x) r r' s s' rest h k = (h.ended, h.open_front, h.same_limit)
    step_Returned again r r' s s' rest h k = later_Returned r r' s s' rest h.ended h.same_limit k

    read_loop-Returned :
        (fuel : ℕ) (limit deadline : Option ℕ) (r : LineReader) (s : S)
        → IsOpen r.partial
        → Returned r s (read_loop j f src fuel limit deadline r s)
    unfolding read_loop
    read_loop-Returned zero limit deadline r s o = tt
    read_loop-Returned (suc fuel) limit deadline r s o =
        let (p, r', s') = pass j f src limit deadline r s in
        let h = pass-After limit deadline r s o in
        step_Returned p r r' s s' (read_loop j f src fuel limit deadline r' s') h
          (read_loop-Returned fuel limit deadline r' s' h.open_front)

    start_takes : (limit : Option ℕ) (s : S) → stream (start j f src limit s).1 ≡ stream s
    start_takes none s = refl
    start_takes (some t) s = laws.now_takes s

    -- A call of `read_message` on any source, cut into reads and failing reads in any way, either
    -- answers the first message of the stream, as the framing of the whole stream says, and
    -- leaves the stream behind its newline; or it reports a timeout, an error of the source or
    -- its end, and no byte of the message is lost.
    pub read_message-Returned :
        (fuel : ℕ) (limit : Option ℕ) (r : LineReader) (s : S)
        → IsOpen r.partial
        → Returned r s (read_message j f src fuel limit r s)
    unfolding read_message
    read_message-Returned fuel limit r s o =
        let (deadline, s') = start j f src limit s in
        let h = read_loop-Returned fuel limit deadline r s' o in
        later_Returned r r s s' _ (rw (start_takes limit s)) refl h
