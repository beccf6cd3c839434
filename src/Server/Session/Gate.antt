-- ===== src/Server/Session/Gate.antt =====
-- The gate of src/server.rs before the handshake, and the version that it agrees on.
use sml_mcps.Prelude.{
  ◌≡◌, ◌≢◌, refl, sym, ◌∙◌, subst, Bool, true, false, ◌⊎◌, inl, inr, Bool-cases, Option-cases,
  Option, none, some, List, [], ◌∷◌, arith, All,
}
use sml_mcps.Prelude.Text.{Text, text, text_eq, text_eq_iff}
use sml_mcps.Rpc.{JsonRpcRequest}
use sml_mcps.Rpc.Json.{Decoded}
use sml_mcps.Rpc.Json
use sml_mcps.Error.{McpError, ok, err}
use sml_mcps.Server.Session.{
  Session, InitializeParams, Method, initialize, ping, Step, refused, agreed_on, bad_handshake,
  runs, other_route, route, already_initialized, too_early, check_initialized, handle_initialize,
  to_handler, shake, params_of, dispatch_request, serve, find_version, negotiate,
}

-- Whether a step may be taken, by whether the handshake has been made: it is made once, and what
-- comes before it is `ping` and attempts at it.
abbrev pub Allows : {V : Type 0} → Bool → Step V → Type 0
Allows made (refused e) = Unit
Allows made (agreed_on v) = made ≡ false
Allows made (bad_handshake e) = made ≡ false
Allows made (runs m) = (made ≡ true) ⊎ (m ≡ ping)

abbrev pub made_after : {V : Type 0} → Bool → Step V → Bool
made_after made (agreed_on v) = true
made_after made _ = made

abbrev pub IsGated : {V : Type 0} → Bool → List (Step V) → Type 0
IsGated made [] = Unit
IsGated made (step ∷ steps) = Allows made step × IsGated (made_after made step) steps

route-ping : (m : Text) → text_eq m (text "ping") ≡ true → route m ≡ some ping
unfolding route other_route text text_eq
route-ping m h = rw ((text_eq_iff m (text "ping")).0 h) refl

other_route-not_initialize : (m : Text) → other_route m ≡ some initialize → ⊥
unfolding other_route
other_route-not_initialize m h = ground arith

route-initialize :
    (m : Text) → text_eq m (text "initialize") ≡ false → route m ≡ some initialize → ⊥
unfolding route
route-initialize m h e = other_route-not_initialize m (rw h at e)

route_handshake : (m : Text) → text_eq m (text "initialize") ≡ true → route m ≡ some initialize
unfolding route
route_handshake m h = rw h refl

-- The four ways through the gate of a server that requires the handshake.
data Opens {V : Type 0} (m : Text) (s : Session V) : Type 0 where
  pings : text_eq m (text "ping") ≡ true → check_initialized m s ≡ ok tt → Opens m s
  shakes :
      s.initialized ≡ false
      → text_eq m (text "initialize") ≡ true
      → check_initialized m s ≡ ok tt
      → Opens m s
  shook :
      s.initialized ≡ true
      → text_eq m (text "initialize") ≡ false
      → check_initialized m s ≡ ok tt
      → Opens m s
  early : (e : McpError V) → check_initialized m s ≡ err e → Opens m s

opens : {V : Type 0} (m : Text) (s : Session V) → s.require_initialization ≡ true → Opens m s
unfolding check_initialized
opens m s q = elim (Bool-cases (text_eq m (text "ping"))) [
  | inl is_ping ↦ pings is_ping (ground arith)
  | inr not_ping ↦ elim (Bool-cases (text_eq m (text "initialize"))) [
    | inl is_initialize ↦ elim (Bool-cases s.initialized) [
      | inl again ↦ early already_initialized (ground arith)
      | inr first ↦ shakes first is_initialize (ground arith)
    ]
    | inr other ↦ elim (Bool-cases s.initialized) [
      | inl made ↦ shook made other (ground arith)
      | inr not_made ↦ early (too_early m) (ground arith)
    ]
  ]
]

module _ {V : Type 0} (decode : V → Decoded (InitializeParams V))
    (default : InitializeParams V) where
  -- What one step does to the gate.
  pub record Gates (s : Session V) (step : Step V) (s' : Session V) : Type 0 where
    pub allowed : Allows s.initialized step
    pub made : s'.initialized ≡ made_after s.initialized step
    pub required : s'.require_initialization ≡ s.require_initialization

  shake-Gates :
      (d : Decoded (InitializeParams V)) (s : Session V)
      → s.initialized ≡ false
      → Gates s (shake decode default d s).0 (shake decode default d s).1
  shake-Gates (Json.Decoded.ok p) s h = record { allowed = h; made = refl; required = refl }
  shake-Gates (Json.Decoded.err e) s h = record { allowed = h; made = refl; required = refl }

  handle_initialize-Gates :
      (r : JsonRpcRequest V) (s : Session V)
      → s.initialized ≡ false
      → Gates s (handle_initialize decode default r s).0 (handle_initialize decode default r s).1
  unfolding handle_initialize
  handle_initialize-Gates r s h = shake-Gates (params_of decode default r.params) s h

  -- Once the handshake is made, whatever handler a request reaches other than `initialize`.
  to_handler-Gates :
      (m : Option Method) (r : JsonRpcRequest V) (s : Session V)
      → s.initialized ≡ true
      → (m ≡ some initialize → ⊥)
      → Gates s (to_handler decode default m r s).0 (to_handler decode default m r s).1
  to_handler-Gates none r s h other = record { allowed = tt; made = refl; required = refl }
  to_handler-Gates (some initialize) r s h other = absurd (other refl)
  to_handler-Gates (some _) r s h other = record { allowed = inl h; made = refl; required = refl }

  dispatch_request-Gates :
      (r : JsonRpcRequest V) (s : Session V)
      → s.require_initialization ≡ true
      → Gates s (dispatch_request decode default r s).0 (dispatch_request decode default r s).1
  unfolding dispatch_request
  dispatch_request-Gates r s q = elim (opens r.method s q) [
    | pings is_ping check ↦
        rw (check, route-ping r.method is_ping)
          (record { allowed = inr refl; made = refl; required = refl })
    | shakes first is_initialize check ↦
        rw (check, route_handshake r.method is_initialize) (handle_initialize-Gates r s first)
    | shook made other check ↦
        rw check (to_handler-Gates (route r.method) r s made (route-initialize r.method other))
    | early e check ↦ rw check (record { allowed = tt; made = refl; required = refl })
  ]

  -- On a server that requires the handshake, over any sequence of requests: the handshake is made
  -- at most once, and never again after that, and until it is made no handler runs but `ping`.
  pub serve-IsGated :
      (rs : List (JsonRpcRequest V)) (s : Session V)
      → s.require_initialization ≡ true
      → IsGated s.initialized (serve decode default rs s)
  unfolding serve
  serve-IsGated [] s q = tt
  serve-IsGated (r ∷ rs) s q =
      let gate = dispatch_request-Gates r s q in
      let s' = (dispatch_request decode default r s).1 in
      (
        gate.allowed,
        subst (λ made. IsGated made (serve decode default rs s')) gate.made
            (serve-IsGated rs s' (gate.required ∙ q)),
      )

find_version_found :
    (P : Text → Type 0) (asked w : Text) (vs : List Text)
    → All P vs
    → find_version asked vs ≡ some w
    → (w ≡ asked) × P w
unfolding find_version
find_version_found P asked w [] h e = absurd cc
find_version_found P asked w (v ∷ vs) h e = elim (Bool-cases (text_eq v asked)) [
  | inr other ↦ find_version_found P asked w vs h.1 (rw other at e)
  | inl same ↦
      let is : v ≡ w = some_injective (rw same at e) in
      (sym is ∙ (text_eq_iff v asked).0 same, rw (← is) h.0)
]
  where
    some_injective : some v ≡ some w → v ≡ w
    some_injective f = cc

-- The version agreed on is the one that the client asks for, where the server supports it, and
-- otherwise the first that the server supports: in each case one that it supports, if it supports
-- any.
pub negotiate_supported :
    (P : Text → Type 0) (asked v : Text) (vs : List Text)
    → All P (v ∷ vs)
    → P (negotiate asked (v ∷ vs))
      × (find_version asked (v ∷ vs) ≡ none → negotiate asked (v ∷ vs) ≡ v)
      × (find_version asked (v ∷ vs) ≢ none → negotiate asked (v ∷ vs) ≡ asked)
unfolding negotiate
negotiate_supported P asked v vs h = elim (Option-cases (find_version asked (v ∷ vs))) [
  | inl missing ↦ rw missing (h.0, (λ e. refl), (λ e. absurd (e refl)))
  | inr (w, found) ↦
      let kept = find_version_found P asked w (v ∷ vs) h found in
      rw found (kept.1, (λ e. absurd cc), (λ e. kept.0))
]
