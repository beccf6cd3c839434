-- ===== src/Broker.antt =====
-- src/broker.rs: the routing state behind server-initiated requests.
-- Each method takes the broker and returns it changed. The mutexes are not modelled: each method
-- holds the lock it needs for the whole of each step, and `hold` never fails.
pub mod Mpsc
pub mod Ids
pub mod Queues
pub mod Invariant
pub mod Delivery
pub mod Replay
pub mod Run
pub mod Issued
mod Tests
use sml_mcps.Prelude.{
  ℕ, zero, suc, ◌+◌, ◌%◌, Bool, true, false, not, Option, none, some, List, [], ◌∷◌, ◌++◌, ltb, leb,
  if◌then◌else◌, length, filter, is_some,
}
use sml_mcps.Prelude.Text.{Text, text, strip_prefix}
use sml_mcps.Prelude.Decimal.{show, parse_uint, u64_mod}
use sml_mcps.Prelude.Assoc.{Assoc, lookup, insert, remove}
use sml_mcps.Rpc.{
  RequestId, id_has_eq, number, string, null, id_eq, JsonRpcError, JsonRpcResponse, JsonRpcMessage,
}
use sml_mcps.Error.{McpError, Result, ok, err, internal, invalid_message}
use sml_mcps.Broker.Mpsc.{Channels, no_channels, open_channel, drop_sender, send}

abbrev pub max_abandoned : ℕ
max_abandoned = 64

abbrev pub max_parked : ℕ
max_parked = 16

abbrev pub max_deferred : ℕ
max_deferred = 256

pub record Broker (V : Type 0) : Type 0 where
  pub next_id : ℕ
  pub parked : List (JsonRpcResponse V)
  pub deferred : List (JsonRpcMessage V)
  pub abandoned : List RequestId
  -- each sender is named by its channel
  pub waiters : Assoc RequestId ℕ
  pub channels : Channels (JsonRpcResponse V)

abbrev pub id_prefix : Text
id_prefix = text "sml-"

-- `parked.iter().position(|r| &r.id == id)` and `parked.remove(at)` in one pass
module _ {V : Type 0} where
  unfoldable pub find_parked : RequestId → List (JsonRpcResponse V) → Option (JsonRpcResponse V)
  find_parked id [] = none
  find_parked id (r ∷ rs) = if id_eq r.id id then some r else find_parked id rs

  unfoldable pub remove_parked : RequestId → List (JsonRpcResponse V) → List (JsonRpcResponse V)
  remove_parked id [] = []
  remove_parked id (r ∷ rs) =
      let rest = remove_parked id rs in if id_eq r.id id then rs else r ∷ rest

  -- `parked[at] = response` at the first response of that id
  unfoldable pub replace_parked :
      JsonRpcResponse V → List (JsonRpcResponse V) → List (JsonRpcResponse V)
  replace_parked new [] = []
  replace_parked new (r ∷ rs) =
      let rest = replace_parked new rs in if id_eq r.id new.id then new ∷ rs else r ∷ rest

-- `while queue.len() > bound { queue.pop_front() }`
unfoldable pub evict : {A : Type 0} → ℕ → List A → List A
evict bound [] = []
evict bound (x ∷ xs) =
    let rest = evict bound xs in if ltb bound (length (x ∷ xs)) then rest else x ∷ xs

unfoldable pub contains_id : RequestId → List RequestId → Bool
contains_id id [] = false
contains_id id (k ∷ ks) = if id_eq k id then true else contains_id id ks

unfoldable pub remove_id : RequestId → List RequestId → List RequestId
remove_id id [] = []
remove_id id (k ∷ ks) = let rest = remove_id id ks in if id_eq k id then ks else k ∷ rest

-- the number behind the prefix, if there is one
abbrev pub parse_suffix : Option Text → Option ℕ
parse_suffix none = none
parse_suffix (some t) = parse_uint u64_mod t

unfoldable pub sequence_number : RequestId → Option ℕ
sequence_number (string t) = parse_suffix (strip_prefix id_prefix t)
sequence_number (number n) = none
sequence_number null = none

abbrev pub below : Option ℕ → ℕ → Bool
below none bound = false
below (some n) bound = ltb n bound

module _ {V : Type 0} where
  -- `RequestBroker::new`
  abbrev pub new : Broker V
  new = record {
    next_id = 0;
    parked = [];
    deferred = [];
    abandoned = [];
    waiters = [];
    channels = no_channels;
  }

  -- `fetch_add` wraps.
  unfoldable pub next_request_id : Broker V → RequestId × Broker V
  next_request_id b =
      (string (id_prefix ++ show b.next_id), record b { next_id = (b.next_id + 1) % u64_mod })

  unfoldable pub take_parked : RequestId → Broker V → Option (JsonRpcResponse V) × Broker V
  unfolding find_parked remove_parked
  take_parked id b = (find_parked id b.parked, record b { parked = remove_parked id b.parked })

  unfoldable pub was_issued_here : Broker V → RequestId → Bool
  was_issued_here b id = below (sequence_number id) b.next_id

  -- The receiver is the channel.
  unfoldable pub register_waiter : RequestId → Broker V → ℕ × Broker V
  register_waiter id b =
      let (receiver, channels) = open_channel b.channels in
      (
        receiver,
        record b {
          waiters = insert id receiver b.waiters;
          channels = drop_sender (lookup id b.waiters) channels;
        },
      )

  unfoldable pub forget_abandoned : RequestId → Broker V → Bool × Broker V
  forget_abandoned id b =
      if contains_id id b.abandoned
      then (true, record b { abandoned = remove_id id b.abandoned })
      else (false, b)

  unfoldable pub park : JsonRpcResponse V → Broker V → Broker V
  unfolding forget_abandoned
  park r b =
      if not (was_issued_here b r.id)
      then b
      else let (forgotten, b') = forget_abandoned r.id b in
        if forgotten
        then b'
        else if is_some (find_parked r.id b'.parked)
        then record b' { parked = replace_parked r b'.parked }
        else record b' { parked = evict max_parked (b'.parked ++ r ∷ []) }

  -- the `match waiter`
  abbrev pub hand_over : JsonRpcResponse V → Option ℕ → Broker V → Broker V
  hand_over r none b = park r b
  hand_over r (some c) b = record b { channels = drop_sender (some c) (send c r b.channels) }

  unfoldable pub deliver : JsonRpcResponse V → Broker V → Broker V
  deliver r b = hand_over r (lookup r.id b.waiters) (record b { waiters = remove r.id b.waiters })

  unfoldable pub abandon : RequestId → Broker V → Broker V
  abandon id b = record b {
    parked = filter (λ r. not (id_eq r.id id)) b.parked;
    waiters = remove id b.waiters;
    channels = drop_sender (lookup id b.waiters) b.channels;
    abandoned = evict max_abandoned (b.abandoned ++ id ∷ []);
  }

  unfoldable pub cancel : RequestId → Broker V → Bool × Broker V
  cancel id b = if not (was_issued_here b id) then (false, b) else (true, abandon id b)

  -- `Err` hands the message back: the first component is what was refused.
  unfoldable pub defer : JsonRpcMessage V → Broker V → Option (JsonRpcMessage V) × Broker V
  defer m b =
      if leb max_deferred (length b.deferred)
      then (some m, b)
      else (none, record b { deferred = b.deferred ++ m ∷ [] })

  abbrev pub pop_front : List (JsonRpcMessage V) → Broker V → Option (JsonRpcMessage V) × Broker V
  pop_front [] b = (none, b)
  pop_front (m ∷ ms) b = (some m, record b { deferred = ms })

  unfoldable pub next_deferred : Broker V → Option (JsonRpcMessage V) × Broker V
  next_deferred b = pop_front b.deferred b

  -- `RequestBroker::into_result`; `show_code` prints an `i32`.
  unfoldable pub into_result : (JsonRpcError V → Text) → JsonRpcResponse V → Result V V
  into_result show_code r = elim r.error [
    | some e ↦
        err (internal (text "client returned error " ++ (show_code e ++ (text ": " ++ e.message))))
    | none ↦ elim r.result [
      | some v ↦ ok v
      | none ↦ err (invalid_message (text "response has neither result nor error"))
    ]
  ]
