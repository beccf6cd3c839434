-- ===== src/Http/Sessions/Visits.antt =====
-- src/transport/http.rs: a session from one request to the next of the same client.
use sml_mcps.Prelude.{
  ℕ, zero, suc, ◌-◌, ◌≤◌, ◌<◌, ◌≡◌, refl, ◌∙◌, ap, Bool, true, false, Option, none, some, arith,
  ltb, length, Bool-cases, inl, inr,
}
use sml_mcps.Prelude.Text.{Text, text_eq_iff, text_has_eq}
use sml_mcps.Prelude.Assoc.{Assoc, lookup, insert, lookup-insert, length-remove-le}
use sml_mcps.Prelude.Keys.{IsDistinct, IsDistinct-insert, lookup-filter}
use sml_mcps.Http.Sessions.Leaves.{HoldsOnce}
use sml_mcps.Http.Sessions.{
  Session, SessionEntry, Sessions, sweep, key, found, checkout, evict_loop, evict_oldest,
  worth_keeping, check_in, max_sessions, session_idle_timeout,
}

evict_loop_within :
    (fuel : ℕ) (m : Assoc Text SessionEntry) → length m ≤ max_sessions → evict_loop fuel m ≡ m
unfolding evict_loop
evict_loop_within zero m h = refl
evict_loop_within (suc fuel) m h =
    let under : ltb max_sessions (length m) ≡ false = ground (arith, h) in rw under refl

found_entry :
    (id : Text) (now : ℕ) (owner : Option Text) (s : Sessions) (o : Option SessionEntry)
    (entry : SessionEntry)
    → o ≡ some entry
    → (found id now owner s o).0 ≡ some (id, entry.cell)
found_entry id now owner s none entry e = cc
found_entry id now owner s (some other) entry e = let same : other ≡ entry = cc in rw same refl

lookup-sweep :
    (now : ℕ) (k : Text) (m : Assoc Text SessionEntry) (entry : SessionEntry)
    → IsDistinct m
    → lookup k m ≡ some entry
    → now - entry.last_used < session_idle_timeout
    → lookup k (sweep now m) ≡ some entry
unfolding sweep
lookup-sweep now k m entry u e fresh =
    let young : ltb (now - entry.last_used) session_idle_timeout ≡ true = ground (arith, fresh) in
    lookup-filter _ k m u ∙ rw (e, young) refl

evict_oldest_within : (m : Assoc Text SessionEntry) → length m ≤ max_sessions → evict_oldest m ≡ m
unfolding evict_oldest
evict_oldest_within m h = evict_loop_within (length m) m h

length-insert-le :
    (k : Text) (v : SessionEntry) (m : Assoc Text SessionEntry)
    → length (insert k v m) ≤ suc (length m)
unfolding insert
length-insert-le k v m = omega (arith, length-remove-le k m)

-- The table after `check_in` of a session that is worth keeping, where nothing is evicted.
live-check_in :
    (is_empty : ℕ → Option Bool) (now : ℕ) (owner : Option Text) (id : Text) (cell : ℕ)
    (s : Sessions)
    → worth_keeping is_empty (s.cells cell) ≡ true
    → length s.live < max_sessions
    → (check_in is_empty now owner id cell s).1.live
      ≡ insert (key owner id) (record { cell = cell; last_used = now }) s.live
unfolding check_in
live-check_in is_empty now owner id cell s worth room =
    let entry : SessionEntry = record { cell = cell; last_used = now } in
    let small = length-insert-le (key owner id) entry s.live in
    rw worth (evict_oldest_within (insert (key owner id) entry s.live) (omega (arith, small, room)))

lookup-inserted :
    (k : Text) (v : SessionEntry) (m : Assoc Text SessionEntry) → lookup k (insert k v m) ≡ some v
lookup-inserted k v m = lookup-insert k k v m ∙ rw ((text_eq_iff k k).1 refl) refl

cells-found :
    (id : Text) (now : ℕ) (owner : Option Text) (s : Sessions) (o : Option SessionEntry)
    → (found id now owner s o).1.cells ≡ s.cells
cells-found id now owner s none = refl
cells-found id now owner s (some entry) = refl

cells-check_in :
    (is_empty : ℕ → Option Bool) (now : ℕ) (owner : Option Text) (id : Text) (cell : ℕ)
    (s : Sessions)
    → (check_in is_empty now owner id cell s).1.cells ≡ s.cells
unfolding check_in
cells-check_in is_empty now owner id cell s =
    elim (Bool-cases (worth_keeping is_empty (s.cells cell))) [
      | inl keep ↦ rw keep refl
      | inr drop ↦ rw drop refl
    ]

-- `checkout` of a session that was checked in finds it, by the same owner and id, and what it
-- finds in the session's place is the state that was checked in: where the session is worth
-- keeping, the table had room, and the wait was below the idle timeout.
pub checkout-check_in :
    (is_empty : ℕ → Option Bool) (now later : ℕ) (fresh : Text) (owner : Option Text) (id : Text)
    (cell : ℕ) (s : Sessions)
    → worth_keeping is_empty (s.cells cell) ≡ true
    → length s.live < max_sessions
    → HoldsOnce s
    → later - now < session_idle_timeout
    → ((checkout later fresh owner (some id) (check_in is_empty now owner id cell s).1).0
        ≡ some (id, cell))
      × ((checkout later fresh owner (some id) (check_in is_empty now owner id cell s).1).1.cells
            cell
          ≡ s.cells cell)
unfolding checkout
checkout-check_in is_empty now later fresh owner id cell s worth room u wait =
    let entry : SessionEntry = record { cell = cell; last_used = now } in
    let table : Assoc Text SessionEntry = insert (key owner id) entry s.live in
    let back : Sessions = (check_in is_empty now owner id cell s).1 in
    let swept : Sessions = record back { live = sweep later back.live } in
    (
      found_entry id later owner swept (lookup (key owner id) swept.live) entry (
          ap (λ (m : Assoc Text SessionEntry). lookup (key owner id) (sweep later m))
            (live-check_in is_empty now owner id cell s worth room)
          ∙ lookup-sweep later (key owner id) table entry
              (IsDistinct-insert (key owner id) entry s.live u)
              (lookup-inserted (key owner id) entry s.live) wait),
      ap (λ (cells : ℕ → Session). cells cell)
          (cells-found id later owner swept (lookup (key owner id) swept.live)
            ∙ cells-check_in is_empty now owner id cell s),
    )
