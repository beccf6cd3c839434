-- ===== src/Broker/Run.antt =====
-- The broker under any sequence of calls: the invariant of src/broker.rs over its life.
use sml_mcps.Prelude.{List, [], ◌∷◌, arith}
use sml_mcps.Rpc.{RequestId, JsonRpcResponse, JsonRpcMessage}
use sml_mcps.Broker.{
  Broker, new, next_request_id, take_parked, register_waiter, park, deliver, abandon, cancel, defer,
  next_deferred,
}
use sml_mcps.Broker.Invariant.{
  IsValid, IsValid-new, take_parked-IsValid, park-IsValid, deliver-IsValid, abandon-IsValid,
  cancel-IsValid, defer-IsValid, next_deferred-IsValid,
}

-- The calls that change a broker.
pub data Call (V : Type 0) : Type 0 where
  allocate_id : Call V
  take_response register abandon_id cancel_id : RequestId → Call V
  park_response deliver_response : JsonRpcResponse V → Call V
  defer_message : JsonRpcMessage V → Call V
  pop_deferred : Call V

module _ {V : Type 0} where
  unfoldable pub perform : Call V → Broker V → Broker V
  perform allocate_id b = (next_request_id b).1
  perform (take_response id) b = (take_parked id b).1
  perform (register id) b = (register_waiter id b).1
  perform (abandon_id id) b = abandon id b
  perform (cancel_id id) b = (cancel id b).1
  perform (park_response r) b = park r b
  perform (deliver_response r) b = deliver r b
  perform (defer_message m) b = (defer m b).1
  perform pop_deferred b = (next_deferred b).1

  unfoldable pub run : List (Call V) → Broker V → Broker V
  run [] b = b
  run (c ∷ cs) b = run cs (perform c b)

  perform-IsValid : (c : Call V) (b : Broker V) → IsValid b → IsValid (perform c b)
  unfolding perform register_waiter
  perform-IsValid allocate_id b v = unfold next_request_id in ground arith
  perform-IsValid (take_response id) b v = take_parked-IsValid id b v
  perform-IsValid (register id) b v = ground arith
  perform-IsValid (abandon_id id) b v = abandon-IsValid id b v
  perform-IsValid (cancel_id id) b v = cancel-IsValid id b v
  perform-IsValid (park_response r) b v = park-IsValid r b v
  perform-IsValid (deliver_response r) b v = deliver-IsValid r b v
  perform-IsValid (defer_message m) b v = defer-IsValid m b v
  perform-IsValid pop_deferred b v = next_deferred-IsValid b v

  run_keeps : (cs : List (Call V)) (b : Broker V) → IsValid b → IsValid (run cs b)
  unfolding run
  run_keeps [] b v = v
  run_keeps (c ∷ cs) b v = run_keeps cs (perform c b) (perform-IsValid c b v)

  -- Whatever is called in whatever order on a new broker, the three queues keep their bounds, no
  -- two parked responses share an id, and none of them has an id that stands in the queue of
  -- abandoned ids at that time.
  pub run-IsValid : (cs : List (Call V)) → IsValid (run cs new)
  run-IsValid cs = run_keeps cs new IsValid-new
