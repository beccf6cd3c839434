-- ===== src/Http1/Serve/Sound.antt =====
-- src/transport/http1.rs: a connection is kept only where the reader stands at the next request.
use sml_mcps.Prelude.{
  ℕ, zero, suc, ◌<◌, ◌≤◌, ◌≡◌, refl, sym, ◌∙◌, ap, subst, Bool, true, false, not, ◌&&◌, ◌||◌,
  Option, none, some, List, [], ◌∷◌, ◌++◌, arith, if◌then◌else◌,
}
use sml_mcps.Prelude
use sml_mcps.Line.{Bytes}
use sml_mcps.Http1.{
  Framing, empty, length, chunked, Head, Method, Version, Outcome, ok, err, Limits,
}
use sml_mcps.Http1.Wire.{Reader}
use sml_mcps.Http1.Wire.Stream.{flat}
use sml_mcps.Http1.Response.{Response, render, closing}
use sml_mcps.Http1.ReadHead.{Status, Parsed, complete, read_head, is_http11, head_from}
use sml_mcps.Http1.ReadHead.Passes.{IsParser}
use sml_mcps.Http1.ReadHead.Sound.{read_head-HeadTaken}
use sml_mcps.Http1.Body.{Socket, Body, read, drain_if_cheap, write_all}
use sml_mcps.Http1.Body.Steps.{IsAt, StandsBehind, IsFramedBody, written_by-reader}
use sml_mcps.Http1.Body.Sound.{read-IsAt, drain_if_cheap-IsAt}
use sml_mcps.Http1.Serve.{
  Handler, respond, panics, read_body, is_empty_framing, body_of, reusable_by, write_response, kept,
  answer, run, serve_head, serve_read, serve_pass,
}

write_response-reader :
    (method : Method) (version : Version) (r : Response) (s : Socket)
    → (write_response method version r s).1.reader ≡ s.reader
unfolding write_response write_all
write_response-reader method version r s =
    written_by-reader (render method version r (not r.close)) s s.writes

kept-eq :
    (reusable : Bool) (sent : Bool × Socket) (s' : Socket)
    → kept reusable sent ≡ (true, s')
    → (reusable ≡ true) × (sent.1 ≡ s')
kept-eq true sent s' h = (refl, cc)
kept-eq false sent s' h = cc

not-true : (b : Bool) → not b ≡ true → b ≡ false
not-true true h = cc
not-true false h = refl

four :
    (a b c d : Bool)
    → (a && (b && (c && d))) ≡ true
    → (a ≡ true) × (b ≡ true) × (c ≡ true) × (d ≡ true)
four true true true true h = (refl, refl, refl, refl)
four true true true false h = cc
four true true false d h = cc
four true false c d h = cc
four false b c d h = cc

module _ (chunk_size : Bytes → Option ℕ) where
  body_of-IsAt :
      (head : Head) (s : Socket) → IsAt chunk_size head.framing (flat s.reader) (body_of head) s
  unfolding body_of
  body_of-IsAt head s = record {
    framed = refl;
    behind = fresh_behind head.framing;
    fresh = λ _ e. fresh_empty head.framing e;
    untouched = λ _. refl;
  }
    where
      fresh_behind :
          (f : Framing)
          → is_empty_framing f ≡ true
          → StandsBehind chunk_size f (flat s.reader) s.reader
      fresh_behind empty e = ([], refl, refl)
      fresh_behind (length n) e = cc
      fresh_behind chunked e = cc

      fresh_empty : (f : Framing) → is_empty_framing f ≡ true → f ≡ empty
      fresh_empty empty e = refl
      fresh_empty (length n) e = cc
      fresh_empty chunked e = cc

  run-IsAt :
      (promised : Framing) (start : Bytes) (handler : Handler) (body : Body) (s : Socket)
      → IsAt chunk_size promised start body s
      → IsAt chunk_size promised start
          (run chunk_size handler body s).1
          (run chunk_size handler body s).2
  unfolding run
  run-IsAt promised start (respond r) body s i = i
  run-IsAt promised start panics body s i = i
  run-IsAt promised start (read_body limit next) body s i =
      let (result, body', s') = read chunk_size limit body s in
      run-IsAt promised start (next result) body' s'
        (read-IsAt chunk_size promised start limit body s i)

  module _ (parse : Bytes → Status) (law : IsParser parse) (limits : Limits)
      (handle : Head → Handler) where
    -- What a pass that keeps the connection open has consumed.
    abbrev pub Served : Socket → Socket → Type 0
    Served s s' =
        (hd : Bytes) × (bs : Bytes) × (p : Parsed) × (head : Head) × (parse hd
          ≡ complete (Prelude.length hd) p)
        × (head_from p ≡ ok head)
        × IsFramedBody chunk_size head.framing bs
        × (flat s.reader ≡ hd ++ (bs ++ flat s'.reader))
        × (0 < Prelude.length hd)
        × (is_http11 head.version ≡ true)
        × (head.wants_close ≡ false)

    answer-kept :
        (head : Head) (start : Bytes) (response : Response) (body : Body) (s s' : Socket)
        → IsAt chunk_size head.framing start body s
        → answer head (response, body, s) ≡ (true, s')
        → (bs : Bytes) × IsFramedBody chunk_size head.framing bs
          × (start ≡ bs ++ flat s'.reader)
          × (is_http11 head.version ≡ true)
          × (head.wants_close ≡ false)
    unfolding answer
    answer-kept head start response body s s' i e =
        let reusable = reusable_by head response body in
        let sent =
          write_response head.method head.version (if reusable then response else closing response)
            s in
        let (yes_to_all, place) = kept-eq reusable sent s' e in
        let (version, wants, _, finished) =
          four (is_http11 head.version) (not head.wants_close) (not response.close) body.finished
            yes_to_all in
        let (bs, whole, cut) = i.behind finished in
        let kept_reader : s'.reader ≡ s.reader =
          ap (λ (u : Socket). u.reader) (sym place)
          ∙ write_response-reader head.method head.version
              (if reusable then response else closing response) s in
        (
          bs,
          subst (λ (f : Framing). IsFramedBody chunk_size f bs) i.framed whole,
          cut ∙ ap (λ (w : Reader). bs ++ flat w) (sym kept_reader),
          version,
          not-true head.wants_close wants,
        )

    serve_head-kept :
        (head : Head) (s s' : Socket)
        → serve_head chunk_size parse limits handle head s ≡ (true, s')
        → (bs : Bytes) × IsFramedBody chunk_size head.framing bs
          × (flat s.reader ≡ bs ++ flat s'.reader)
          × (is_http11 head.version ≡ true)
          × (head.wants_close ≡ false)
    unfolding serve_head
    serve_head-kept head s s' e =
        let (response, body, s1) = run chunk_size (handle head) (body_of head) s in
        let (body', s2) = drain_if_cheap limits.max_body_bytes body s1 in
        answer-kept head (flat s.reader) response body' s2 s'
          (drain_if_cheap-IsAt chunk_size head.framing (flat s.reader) limits.max_body_bytes body s1
            (run-IsAt head.framing (flat s.reader) (handle head) (body_of head) s
              (body_of-IsAt head s)))
          e

    serve_read-Served :
        (s s' : Socket) (r : Outcome Response (Option Head)) (w : Reader)
        → read_head parse limits s.reader ≡ (r, w)
        → serve_read chunk_size parse limits handle s (r, w) ≡ (true, s')
        → Served s s'
    serve_read-Served s s' (ok none) w h e = cc
    serve_read-Served s s' (err rejection) w h e = cc
    serve_read-Served s s' (ok (some head)) w h e =
        let (hd, p, found, judged, cut, past, _) =
          read_head-HeadTaken parse law limits s.reader w head h in
        let (bs, whole, behind, version, wants) =
          serve_head-kept head (record s { reader = w }) s' e in
        (
          hd,
          bs,
          p,
          head,
          found,
          judged,
          whole,
          cut ∙ ap (λ (u : Bytes). hd ++ u) behind,
          omega arith,
          version,
          wants,
        )

    -- A pass that keeps the connection open, whatever the peer, the clock and the handler do,
    -- with a parser that is as relied on: it consumed the head of one request, not empty, and
    -- behind it exactly the body that this head frames (no byte, as many as declared, or a whole
    -- chunked encoding), so that the reader stands where the next request starts; and the
    -- request is of HTTP/1.1 and did not ask for the connection to be closed.
    pub serve_pass-Served :
        (s s' : Socket) → serve_pass chunk_size parse limits handle s ≡ (true, s') → Served s s'
    unfolding serve_pass
    serve_pass-Served s s' e =
        let (r, w) = read_head parse limits s.reader in serve_read-Served s s' r w refl e
