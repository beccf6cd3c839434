-- ===== src/Http1/Serve/Ends.antt =====
-- src/transport/http1.rs: a connection ends: every pass that keeps it open consumes bytes.
use sml_mcps.Prelude.{
  ℕ, zero, suc, ◌<◌, ◌≡◌, ◌≢◌, refl, ap, Bool, true, false, Option, none, ◌++◌, arith, length,
  length-append,
}
use sml_mcps.Line.{Bytes}
use sml_mcps.Http1.{Head, Limits}
use sml_mcps.Http1.Wire.Stream.{flat}
use sml_mcps.Http1.ReadHead.{Status}
use sml_mcps.Http1.ReadHead.Passes.{IsParser}
use sml_mcps.Http1.Body.{Socket}
use sml_mcps.Http1.Serve.{Handler, serve_pass, go_on, serve_connection}
use sml_mcps.Http1.Serve.Sound.{Served, serve_pass-Served}

module _ (chunk_size : Bytes → Option ℕ) (parse : Bytes → Status) (law : IsParser parse)
    (limits : Limits) (handle : Head → Handler) where
  Served-shorter :
      (s s' : Socket)
      → Served chunk_size parse law limits handle s s'
      → length (flat s'.reader) < length (flat s.reader)
  Served-shorter s s' (hd, bs, p, head, found, judged, whole, cut, past, _, _) = omega (
    arith,
    ap length cut,
    length-append hd (bs ++ flat s'.reader),
    length-append bs (flat s'.reader),
  )

  go_on-ne-none :
      (fuel : ℕ) (s : Socket) (again : Socket → Option Socket) (r : Bool × Socket)
      → serve_pass chunk_size parse limits handle s ≡ r
      → length (flat s.reader) < suc fuel
      → ((s' : Socket) → length (flat s'.reader) < fuel → again s' ≢ none)
      → go_on chunk_size parse limits handle again r ≢ none
  go_on-ne-none fuel s again (true, s') h enough more =
      let shorter =
        Served-shorter s s' (serve_pass-Served chunk_size parse law limits handle s s' h) in
      more s' (omega arith)
  go_on-ne-none fuel s again (false, s') h enough more = λ e. cc

  -- With a parser that is as relied on, more fuel than bytes that the peer sends is enough,
  -- whatever the clock and the handler do: the loop of `serve_connection` ends.
  pub serve_connection_ends :
      (fuel : ℕ) (s : Socket)
      → length (flat s.reader) < fuel
      → serve_connection chunk_size parse limits handle fuel s ≢ none
  unfolding serve_connection
  serve_connection_ends zero s enough = absurd (omega arith)
  serve_connection_ends (suc fuel) s enough =
      go_on-ne-none fuel s (serve_connection chunk_size parse limits handle fuel)
        (serve_pass chunk_size parse limits handle s) refl enough
        (λ s' enough'. serve_connection_ends fuel s' enough')
