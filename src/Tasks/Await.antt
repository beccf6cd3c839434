-- ===== src/Tasks/Await.antt =====
-- `TaskStore::await_result` of src/tasks.rs, with what other threads do while it sleeps.
use sml_mcps.Prelude.{
  ℕ, ◌≡◌, refl, sym, ◌∙◌, ap, Bool, true, false, ◌⊎◌, inl, inr, Bool-cases, Option-cases, Option,
  none, some, List, [], ◌∷◌, ◌++◌, if◌then◌else◌, is_some, subst,
}
use sml_mcps.Prelude.Text.{Text, text, text_has_eq}
use sml_mcps.Prelude.Assoc.{lookup}
use sml_mcps.Error.{McpError, Result, ok, err, timeout}
use sml_mcps.Tasks.{TaskConfig, TaskOutcome, TaskRecord, Requestor, terminal, not_found, belongs_to}
use sml_mcps.Tasks.Records.{Records, sweep}
use sml_mcps.Tasks.Store.{TaskStore, find, no_result}
use sml_mcps.Tasks.Calls.{Call, perform, IsLegal}
use sml_mcps.Tasks.Valid.{IsValid, IsSound-at, has_outcome}
use sml_mcps.Tasks.Valid.Perform.{perform-IsValid, perform-config, sweep-IsValid}

-- A round of the wait: what others did before it, the time, and whether patience has run out.
pub record Round (V : Type 0) : Type 0 where
  pub others : List (Call V)
  pub now : ℕ
  pub overdue : Bool

module _ {V : Type 0} where
  unfoldable pub perform_all : List (Call V) → TaskStore V → TaskStore V
  perform_all [] s = s
  perform_all (c ∷ cs) s = perform_all cs (perform c s)

  -- the store that a round looks at
  abbrev pub swept : Round V → TaskStore V → TaskStore V
  swept w s = let s' = perform_all w.others s in record s' { records = sweep w.now s'.records }

  unfoldable pub still_running : Text → McpError V
  still_running id = timeout (
      text "task "
      ++ (id ++ text " is still running; poll `tasks/get` and call `tasks/result` again"))

  abbrev pub flat : Text → Option (TaskOutcome V) → Result V (TaskOutcome V)
  flat id none = err (no_result id)
  flat id (some o) = ok o

  -- how a round ends the wait, if it does
  abbrev pub settle : Text → Bool → Option (TaskRecord V) → Option (Result V (TaskOutcome V))
  settle id overdue none = some (err (not_found id))
  settle id overdue (some r) =
      if terminal r
      then some (flat id r.outcome)
      else if overdue
      then some (err (still_running id))
      else none

  abbrev pub or_onward :
      Option (Result V (TaskOutcome V))
      → TaskStore V
      → Option (Result V (TaskOutcome V)) × TaskStore V
      → Option (Result V (TaskOutcome V)) × TaskStore V
  or_onward none s onward = onward
  or_onward (some result) s onward = (some result, s)

  -- `await_result`; without a result it is still waiting
  unfoldable pub await_result :
      Text
      → Requestor
      → List (Round V)
      → TaskStore V
      → Option (Result V (TaskOutcome V)) × TaskStore V
  await_result id who [] s = (none, s)
  await_result id who (w ∷ ws) s =
      let s' = swept w s in
      or_onward (settle id w.overdue (find id who s'.records)) s' (await_result id who ws s')

  abbrev pub AllLegal : List (Call V) → TaskStore V → Type 0
  AllLegal [] s = Unit
  AllLegal (c ∷ cs) s = IsLegal c s × AllLegal cs (perform c s)

  abbrev pub IsLegalWait : List (Round V) → TaskStore V → Type 0
  IsLegalWait [] s = Unit
  IsLegalWait (w ∷ ws) s = AllLegal w.others s × IsLegalWait ws (swept w s)

  perform_all-IsValid :
      (cs : List (Call V)) (s : TaskStore V)
      → IsValid s.config s.records
      → AllLegal cs s
      → IsValid (perform_all cs s).config (perform_all cs s).records
  unfolding perform_all
  perform_all-IsValid [] s v h = v
  perform_all-IsValid (c ∷ cs) s v h =
      perform_all-IsValid cs (perform c s)
        (subst (λ k. IsValid k (perform c s).records) (sym (perform-config c s))
          (perform-IsValid c s v h.0))
        h.1

  -- How a round may end the wait, by the store that it looks at.
  abbrev pub Settled : Text → Requestor → Bool → Result V (TaskOutcome V) → TaskStore V → Type 0
  Settled id who overdue result s =
      ((find id who s.records ≡ none) × (result ≡ err (not_found id)))
      ⊎ ((r : TaskRecord V) × (find id who s.records ≡ some r)
          × (((terminal r ≡ false) × (overdue ≡ true) × (result ≡ err (still_running id)))
              ⊎ ((o : TaskOutcome V) × (terminal r ≡ true)
                  × (r.outcome ≡ some o)
                  × (result ≡ ok o))))

  found_sound :
      (id : Text) (who : Requestor) (c : TaskConfig) (m : Records V) (r : TaskRecord V)
      → IsValid c m
      → find id who m ≡ some r
      → terminal r ≡ has_outcome r.outcome
  unfolding find
  found_sound id who c m r v e = elim (Option-cases (lookup id m)) [
    | inl gone ↦ absurd (none_not_some (rw gone at e))
    | inr (x, there) ↦ elim (Bool-cases (belongs_to who x)) [
      | inr foreign ↦ absurd (none_not_some (rw (there, foreign) at e))
      | inl own ↦
          let same : x ≡ r = some_injective (rw (there, own) at e) in
          subst (λ y. terminal y ≡ has_outcome y.outcome) same (IsSound-at id m x v.sound there).1
    ]
  ]
    where
      none_not_some : none ≡ some r → ⊥
      none_not_some f = cc

      some_injective : {x y : TaskRecord V} → some x ≡ some y → x ≡ y
      some_injective f = cc

  injective : {a b : Result V (TaskOutcome V)} → some a ≡ some b → a ≡ b
  injective e = cc

  settled_found :
      (id : Text) (overdue : Bool) (r : TaskRecord V) (result : Result V (TaskOutcome V))
      → terminal r ≡ has_outcome r.outcome
      → settle id overdue (some r) ≡ some result
      → ((terminal r ≡ false) × (overdue ≡ true) × (result ≡ err (still_running id)))
        ⊎ ((o : TaskOutcome V) × (terminal r ≡ true) × (r.outcome ≡ some o) × (result ≡ ok o))
  settled_found id overdue r result h e = elim (Bool-cases (terminal r)) [
    | inr runs ↦ elim (Bool-cases overdue) [
      | inl late ↦ inl (runs, late, sym (injective (rw (runs, late) at e)))
      | inr early ↦ absurd (none_not_some (rw (runs, early) at e))
    ]
    | inl over ↦ elim (Option-cases r.outcome) [
      | inl missing ↦ absurd (true_not_false (sym over ∙ h ∙ ap has_outcome missing))
      | inr (o, there) ↦ inr (o, over, there, sym (injective (rw (over, there) at e)))
    ]
  ]
    where
      none_not_some : none ≡ some result → ⊥
      none_not_some f = cc

      true_not_false : true ≡ false → ⊥
      true_not_false f = cc

  settle-Settled :
      (id : Text) (who : Requestor) (overdue : Bool) (s : TaskStore V)
      (result : Result V (TaskOutcome V))
      → IsValid s.config s.records
      → settle id overdue (find id who s.records) ≡ some result
      → Settled id who overdue result s
  settle-Settled id who overdue s result v e = elim (Option-cases (find id who s.records)) [
    | inl gone ↦ inl (gone, sym (injective (rw gone at e)))
    | inr (r, there) ↦ inr (
      r,
      there,
      settled_found id overdue r result (found_sound id who s.config s.records r v there)
          (rw there at e),
    )
  ]

  -- The round `w` ends the wait, in the store that the rounds before it left.
  abbrev pub EndsIn :
      Text
      → Requestor
      → List (Round V)
      → Result V (TaskOutcome V)
      → TaskStore V
      → TaskStore V
      → Type 0
  EndsIn id who ws result s left =
      (before : List (Round V)) × (w : Round V) × (after : List (Round V)) × (ws
        ≡ before ++ w ∷ after)
      × ((await_result id who before s).0 ≡ none)
      × (left ≡ swept w (await_result id who before s).1)
      × Settled id who w.overdue result left

  -- A wait for the outcome of a task, whatever others do to the store meanwhile, ends in a round of
  -- which one of three things holds: the requestor has no such task; the task still runs and the
  -- patience has run out; or the task is finished, and the result is the outcome in its record. The
  -- rounds before it ended nothing. The calls of the others are legal, and the store keeps its
  -- invariant, from which a finished task has an outcome.
  pub await_result-EndsIn :
      (id : Text) (who : Requestor) (ws : List (Round V)) (s : TaskStore V)
      (result : Result V (TaskOutcome V))
      → IsValid s.config s.records
      → IsLegalWait ws s
      → (await_result id who ws s).0 ≡ some result
      → EndsIn id who ws result s (await_result id who ws s).1
  unfolding await_result
  await_result-EndsIn id who [] s result v h e = absurd cc
  await_result-EndsIn id who (w ∷ ws) s result v h e =
      let s' = swept w s in
      let v' : IsValid s'.config s'.records =
        sweep-IsValid _ w.now _ (perform_all-IsValid w.others s v h.0) in
      elim (Option-cases (settle id w.overdue (find id who s'.records))) [
        | inl goes_on ↦
            let (before, last, after, cut, none_yet, left, how) =
              await_result-EndsIn id who ws s' result v' h.1 (rw goes_on at e) in
            rw goes_on (
              w ∷ before,
              last,
              after,
              ap (λ (us : List (Round V)). w ∷ us) cut,
              rw goes_on none_yet,
              rw goes_on left,
              how,
            )
        | inr (outcome, ends) ↦ rw ends (
          [],
          w,
          ws,
          refl,
          refl,
          refl,
          settle-Settled id who w.overdue s' result v' (ends ∙ (rw ends at e)),
        )
      ]

  abbrev pub HasEnd : List (Round V) → Type 0
  HasEnd [] = ⊥
  HasEnd (w ∷ ws) = (w.overdue ≡ true) ⊎ HasEnd ws

  settle_overdue : (id : Text) (o : Option (TaskRecord V)) → is_some (settle id true o) ≡ true
  settle_overdue id none = refl
  settle_overdue id (some r) = elim (Bool-cases (terminal r)) [
    | inl over ↦ rw over refl
    | inr runs ↦ rw runs refl
  ]

  -- A wait with patience ends, at the latest in the round in which patience has run out.
  pub await_result_ends :
      (id : Text) (who : Requestor) (ws : List (Round V)) (s : TaskStore V)
      → HasEnd ws
      → is_some (await_result id who ws s).0 ≡ true
  unfolding await_result
  await_result_ends id who [] s h = absurd h
  await_result_ends id who (w ∷ ws) s h =
      let o = find id who (swept w s).records in
      elim (Option-cases (settle id w.overdue o)) [
        | inr (result, ends) ↦ rw ends refl
        | inl goes_on ↦ rw goes_on (await_result_ends id who ws (swept w s) (later h goes_on))
      ]
    where
      clash : {o : Option (Result V (TaskOutcome V))} → is_some o ≡ true → o ≡ none → ⊥
      clash t n = cc

      later :
          (w.overdue ≡ true) ⊎ HasEnd ws
          → settle id w.overdue (find id who (swept w s).records) ≡ none
          → HasEnd ws
      later (inr rest) e = rest
      later (inl late) e =
          absurd (clash (settle_overdue id (find id who (swept w s).records)) (rw late at e))
