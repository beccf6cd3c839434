-- ===== src/Broker/Ids.antt =====
-- The ids of server-initiated requests: `next_request_id` and `was_issued_here` of src/broker.rs.
use sml_mcps.Prelude.{ℕ, ◌<◌, ◌≡◌, ◌≢◌, true, some, [], ◌∷◌, ◌++◌, arith, ltb}
use sml_mcps.Prelude.Text.{Text, strip_prefix-append}
use sml_mcps.Prelude.Decimal.{
  show, parse_uint-show, show-injective, show-ne-plus, u64_mod, parse_uint_plus,
}
use sml_mcps.Rpc.{string}
use sml_mcps.Broker.{Broker, id_prefix, sequence_number, next_request_id, was_issued_here}

append-injective_right : (p s t : Text) → p ++ s ≡ p ++ t → s ≡ t
append-injective_right [] s t h = h
append-injective_right (c ∷ p) s t h = append-injective_right p s t cc

string-injective : {s t : Text} → string s ≡ string t → s ≡ t
string-injective h = cc

pub sequence_number-issued :
    (n : ℕ) → n < u64_mod → sequence_number (string (id_prefix ++ show n)) ≡ some n
unfolding sequence_number
sequence_number-issued n h =
    rw (strip_prefix-append id_prefix (show n)) (parse_uint-show u64_mod n h)

sequence_number_signed :
    (n : ℕ) → n < u64_mod → sequence_number (string (id_prefix ++ (b'+' ∷ show n))) ≡ some n
unfolding sequence_number
sequence_number_signed n h =
    rw (strip_prefix-append id_prefix (b'+' ∷ show n)) (parse_uint_plus u64_mod n h)

module _ {V : Type 0} where
  -- Two brokers that have handed out different numbers of ids hand out different ids next.
  pub next_request_id_distinct :
      (b c : Broker V) → b.next_id ≢ c.next_id → (next_request_id b).0 ≢ (next_request_id c).0
  unfolding next_request_id
  next_request_id_distinct b c h e =
      h (show-injective _ _ (append-injective_right id_prefix _ _ (string-injective e)))

  -- While the counter has not wrapped, an id is unknown before it is handed out, and known
  -- from then on however many more are handed out.
  pub was_issued_here-next_request_id :
      (b c : Broker V)
      → b.next_id < u64_mod
      → (was_issued_here c (next_request_id b).0 ≡ ltb b.next_id c.next_id)
  unfolding next_request_id was_issued_here
  was_issued_here-next_request_id b c h = rw (sequence_number-issued b.next_id h)

  -- An id that no call of `next_request_id` yields also passes the test: the number with a sign.
  pub was_issued_here_signed :
      (b c : Broker V) (n : ℕ)
      → n < u64_mod
      → n < b.next_id
      → (was_issued_here b (string (id_prefix ++ (b'+' ∷ show n))) ≡ true)
        × (string (id_prefix ++ (b'+' ∷ show n)) ≢ (next_request_id c).0)
  unfolding was_issued_here next_request_id
  was_issued_here_signed b c n lim h = (
    ground (arith, sequence_number_signed n lim),
    λ e. show-ne-plus n c.next_id (append-injective_right id_prefix _ _ (string-injective e)),
  )
