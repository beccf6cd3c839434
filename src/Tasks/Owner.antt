-- ===== src/Tasks/Owner.antt =====
-- Requestors are kept apart by src/tasks.rs: what one is told depends on its own records only.
use sml_mcps.Prelude.{
  ℕ, ◌≡◌, refl, sym, ◌∙◌, Bool, true, false, inl, inr, Bool-cases, Option-cases, not, Option, none,
  some, List, [], ◌∷◌, arith, filter, ap,
}
use sml_mcps.Prelude.Text.{Text, text_has_eq}
use sml_mcps.Prelude.Assoc.{lookup, insert, remove}
use sml_mcps.Prelude.Keys.{IsDistinct, IsDistinct-filter, lookup-filter, kept}
use sml_mcps.Tasks.{
  TaskRecord, Requestor, expired, terminal, belongs_to, requestor_eq, requestor_eq_iff,
}
use sml_mcps.Tasks.Records.{Records, sweep}
use sml_mcps.Tasks.Store.{
  TaskStore, get, list, cancel, cancel_found, cancelled_record, try_result, find, if_owned,
}

module _ {A : Type 0} where
  filter_comm : (p q : A → Bool) (xs : List A) → filter p (filter q xs) ≡ filter q (filter p xs)
  filter_comm p q [] = refl
  filter_comm p q (x ∷ xs) = ground (arith, filter_comm p q xs)

module _ {V : Type 0} where
  filter-remove :
      (p : Text × TaskRecord V → Bool) (k : Text) (m : Records V)
      → filter p (remove k m) ≡ remove k (filter p m)
  unfolding remove
  filter-remove p k [] = refl
  filter-remove p k ((j, r) ∷ m) = ground (arith, filter-remove p k m)

  remove_absent : (k : Text) (m : Records V) → lookup k m ≡ none → remove k m ≡ m
  unfolding remove lookup
  remove_absent k [] h = refl
  remove_absent k ((j, r) ∷ m) h = ground (arith, remove_absent k m)

  -- The part of the map that belongs to a requestor.
  abbrev pub visible : Requestor → Records V → Records V
  visible who m = filter (λ p. belongs_to who p.1) m

  find-visible :
      (id : Text) (who : Requestor) (m : Records V)
      → IsDistinct m
      → find id who m ≡ lookup id (visible who m)
  unfolding find
  find-visible id who m u = own (lookup id m) ∙ sym (lookup-filter (λ p. belongs_to who p.1) id m u)
    where
      own : (o : Option (TaskRecord V)) → if_owned who o ≡ kept (λ p. belongs_to who p.1) id o
      own none = refl
      own (some r) = refl

  visible-sweep :
      (now : ℕ) (who : Requestor) (m : Records V)
      → visible who (sweep now m) ≡ sweep now (visible who m)
  unfolding sweep
  visible-sweep now who m = filter_comm (λ p. belongs_to who p.1) (λ p. not (expired now p.1)) m

  visible-insert :
      (k : Text) (who : Requestor) (r : TaskRecord V) (m : Records V)
      → belongs_to who r ≡ true
      → visible who (insert k r m) ≡ insert k r (visible who m)
  unfolding insert
  visible-insert k who r m own = rw own (ap (◌∷◌ (k, r)) (filter-remove _ k m))

  visible-insert_foreign :
      (k : Text) (who : Requestor) (r : TaskRecord V) (m : Records V)
      → belongs_to who r ≡ false
      → lookup k (visible who m) ≡ none
      → visible who (insert k r m) ≡ visible who m
  unfolding insert
  visible-insert_foreign k who r m foreign l =
      rw foreign (filter-remove _ k m ∙ remove_absent k (visible who m) l)

  belongs_to-cancelled :
      (now : ℕ) (who : Requestor) (r : TaskRecord V)
      → belongs_to who (cancelled_record now r) ≡ belongs_to who r
  unfolding belongs_to
  belongs_to-cancelled now who r = refl

  cancel_found-visible :
      (now : ℕ) (id : Text) (who : Requestor) (m : Records V)
      → visible who (cancel_found now id (find id who m) m).1
        ≡ (cancel_found now id (find id who m) (visible who m)).1
  unfolding find
  cancel_found-visible now id who m = elim (Option-cases (lookup id m)) [
    | inl gone ↦ rw gone refl
    | inr (r, there) ↦ rw there (elim (Bool-cases (belongs_to who r)) [
      | inr foreign ↦ rw foreign refl
      | inl own ↦ rw own (elim (Bool-cases (terminal r)) [
        | inl over ↦ rw over refl
        | inr runs ↦ rw runs (
            visible-insert id who (cancelled_record now r) m (belongs_to-cancelled now who r ∙ own))
      ])
    ])
  ]

  cancel_found-same :
      (now : ℕ) (id : Text) (o : Option (TaskRecord V)) (m m' : Records V)
      → (cancel_found now id o m).0 ≡ (cancel_found now id o m').0
  cancel_found-same now id none m m' = refl
  cancel_found-same now id (some r) m m' = elim (Bool-cases (terminal r)) [
    | inl over ↦ rw over refl
    | inr runs ↦ rw runs refl
  ]

  -- What a requestor is told, and what its own records become.
  pub record IsPrivate (now : ℕ) (id : Text) (who : Requestor) (s t : TaskStore V) : Type 0 where
    pub told_get : (get now id who s).0 ≡ (get now id who t).0
    pub told_list : (list now who s).0 ≡ (list now who t).0
    pub told_result : (try_result now id who s).0 ≡ (try_result now id who t).0
    pub told_cancel : (cancel now id who s).0 ≡ (cancel now id who t).0
    pub left_by_cancel :
        visible who (cancel now id who s).1.records ≡ visible who (cancel now id who t).1.records

  swept_same :
      (now : ℕ) (who : Requestor) (m m' : Records V)
      → visible who m ≡ visible who m'
      → visible who (sweep now m) ≡ visible who (sweep now m')
  swept_same now who m m' same = rw (visible-sweep now who m, visible-sweep now who m', same) refl

  sweep-IsDistinct : (now : ℕ) (m : Records V) → IsDistinct m → IsDistinct (sweep now m)
  unfolding sweep
  sweep-IsDistinct now m u = IsDistinct-filter (λ p. not (expired now p.1)) m u

  find_same :
      (now : ℕ) (id : Text) (who : Requestor) (m m' : Records V)
      → IsDistinct m
      → IsDistinct m'
      → visible who m ≡ visible who m'
      → find id who (sweep now m) ≡ find id who (sweep now m')
  find_same now id who m m' u u' same =
      find-visible id who (sweep now m) (sweep-IsDistinct now m u)
      ∙ ap (λ x. lookup id x) (swept_same now who m m' same)
      ∙ sym (find-visible id who (sweep now m') (sweep-IsDistinct now m' u'))

  -- Two stores, with distinct ids, in which a requestor has the same records give it the same
  -- answers to `get`, `list`, `try_result` and `cancel`, and its records are the same after a
  -- `cancel` again: the tasks of others show in no answer.
  pub answers-IsPrivate :
      (now : ℕ) (id : Text) (who : Requestor) (s t : TaskStore V)
      → IsDistinct s.records
      → IsDistinct t.records
      → visible who s.records ≡ visible who t.records
      → IsPrivate now id who s t
  unfolding get list try_result cancel
  answers-IsPrivate now id who s t u u' same =
      let swept = swept_same now who s.records t.records same in
      let found = find_same now id who s.records t.records u u' same in
      let m = sweep now s.records in
      let m' = sweep now t.records in
      record {
        told_get = rw found refl;
        told_list = rw swept refl;
        told_result = rw found refl;
        told_cancel = rw found (cancel_found-same now id (find id who m') m m');
        left_by_cancel =
            cancel_found-visible now id who m
            ∙ rw (found, swept) refl
            ∙ sym (cancel_found-visible now id who m');
      }

  requestor_absent :
      (id : Text) (a b : Requestor) (r : TaskRecord V) (m : Records V)
      → IsDistinct m
      → requestor_eq a b ≡ false
      → find id a m ≡ some r
      → (belongs_to b r ≡ false) × (lookup id (visible b m) ≡ none)
  unfolding find belongs_to
  requestor_absent id a b r m u other h = elim (Option-cases (lookup id m)) [
    | inl gone ↦ absurd (none_not_some (rw gone at h))
    | inr (x, there) ↦ elim (Bool-cases (belongs_to a x)) [
      | inr foreign ↦ absurd (none_not_some (rw (there, foreign) at h))
      | inl own ↦
          let e : x ≡ r = some_injective (rw (there, own) at h) in
          let apart : requestor_eq x.owner b ≡ false = rw (requestor_eq_iff x.owner a own) other in
          (rw (← e) apart, lookup-filter (λ p. belongs_to b p.1) id m u ∙ rw (there, apart) refl)
    ]
  ]
    where
      none_not_some : none ≡ some r → ⊥
      none_not_some e = cc

      some_injective : {x y : TaskRecord V} → some x ≡ some y → x ≡ y
      some_injective e = cc

  -- What another requestor cancels leaves a requestor's records as a sweep leaves them, so
  -- nobody cancels a task of somebody else, in a store with distinct ids.
  pub cancel-visible :
      (now : ℕ) (id : Text) (a b : Requestor) (s : TaskStore V)
      → IsDistinct s.records
      → requestor_eq a b ≡ false
      → visible b (cancel now id a s).1.records ≡ sweep now (visible b s.records)
  unfolding cancel
  cancel-visible now id a b s u other =
      let m = sweep now s.records in
      elim (Option-cases (find id a m)) [
        | inl gone ↦ rw gone (visible-sweep now b s.records)
        | inr (r, there) ↦ rw there (elim (Bool-cases (terminal r)) [
          | inl over ↦ rw over (visible-sweep now b s.records)
          | inr runs ↦
              let absent =
                requestor_absent id a b r m (sweep-IsDistinct now s.records u) other there in
              rw runs (
                visible-insert_foreign id b (cancelled_record now r) m
                  (belongs_to-cancelled now b r ∙ absent.0) absent.1
                ∙ visible-sweep now b s.records)
        ])
      ]
