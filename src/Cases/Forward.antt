-- ===== src/Cases/Forward.antt =====
-- Any calls of a single writer: every case stays readable, and only moves forward
-- (minority_prophet/case_store.py).
use minority_prophet_gate.Base.{
  ℕ, ◌≡◌, inl, inr, true, some, List, [], ◌∷◌, ◌++◌, lookup, Outcome, ok, raised, Outcome-cases,
}
use minority_prophet_gate.Audit.Event.{RoutingError}
use minority_prophet_gate.Cases.Store.{
  CaseState, CaseValue, CaseRow, EnvelopeRow, CaseStore, CaseKeys, new_store, may_become, rows_of,
  case_of, open_case, append, envelopes_of, transition,
}
use minority_prophet_gate.Cases.Consistent.{
  contents, IsConsistent, new_store-IsConsistent, open_case-IsConsistent, transition-IsConsistent,
}
use minority_prophet_gate.Cases.Readable.{append-IsConsistent, envelopes_of-contents}

-- A call with the clock's reading.
pub data Call (E : Type 0) : Type 0 where
  opening : (id action policy now : ℕ) → Call E
  submission : (id : ℕ) → E → (now : ℕ) → Call E
  transit : (id : ℕ) → CaseState → (now : ℕ) → Call E

-- A state reached from another by moves that the store allows.
pub data Reaches (s : CaseState) : CaseState → Type 0 where
  stay : Reaches s s
  move : {t u : CaseState} → Reaches s t → may_become t u ≡ true → Reaches s u

pub Reaches-trans : {s t u : CaseState} → Reaches s t → Reaches t u → Reaches s u
Reaches-trans r stay = r
Reaches-trans r (move q h) = move (Reaches-trans r q) h

-- A later row of a case: it is bound to the same action and policy, and its state was reached.
pub record Succeeds (old new : CaseRow) : Type 0 where
  pub action : new.value.action_digest ≡ old.value.action_digest
  pub policy : new.value.policy_digest ≡ old.value.policy_digest
  pub opened_at : new.value.opened_at ≡ old.value.opened_at
  pub state : Reaches old.value.state new.value.state

module _ {E : Type 0} (key : CaseKeys E) where
  abbrev pub outcome : Call E → CaseStore E → Outcome RoutingError (CaseStore E)
  outcome (opening id action policy now) s = open_case key id action policy now s
  outcome (submission id envelope now) s = append key id envelope now s
  outcome (transit id state now) s = transition key id state now s

  -- The store after a call; one that raises leaves it as it was.
  abbrev pub kept : Outcome RoutingError (CaseStore E) → CaseStore E → CaseStore E
  kept (ok t) s = t
  kept (raised e) s = s

  unfoldable pub run : List (Call E) → CaseStore E → CaseStore E
  unfolding open_case append transition
  run [] s = s
  run (c ∷ cs) s = run cs (kept (outcome c s) s)

  outcome-IsConsistent :
      (c : Call E) (s t : CaseStore E)
      → outcome c s ≡ ok t
      → IsConsistent key s
      → IsConsistent key t
  outcome-IsConsistent (opening id action policy now) s t =
      open_case-IsConsistent key id action policy now s t
  outcome-IsConsistent (submission id envelope now) s t =
      append-IsConsistent key id now envelope s t
  outcome-IsConsistent (transit id state now) s t = transition-IsConsistent key id now state s t

  run-IsConsistent :
      (cs : List (Call E)) (s : CaseStore E) → IsConsistent key s → IsConsistent key (run cs s)
  unfolding run
  run-IsConsistent [] s h = h
  run-IsConsistent (c ∷ cs) s h =
      run-IsConsistent cs (kept (outcome c s) s) (elim (Outcome-cases (outcome c s)) [
        | inr (e, eq) ↦ rw eq h
        | inl (t, eq) ↦ rw eq (outcome-IsConsistent c s t eq h)
      ])

  -- After any calls on a new store, whatever they return or raise, a case that can be read gives all
  -- the envelopes that were stored for it, in their order.
  pub run-envelopes :
      (cs : List (Call E)) (id : ℕ) (v : CaseValue)
      → case_of key id (run cs new_store) ≡ ok v
      → envelopes_of key id (run cs new_store)
        ≡ ok (contents (rows_of id (run cs new_store).envelopes))
  run-envelopes cs id v h =
      envelopes_of-contents key id (run cs new_store) v
        (run-IsConsistent cs new_store (new_store-IsConsistent key)) h

  -- The case is still there, with a later row and the same envelopes and maybe more.
  pub record Continues (id : ℕ) (s t : CaseStore E) (old : CaseRow) : Type 0 where
    pub new : CaseRow
    pub there : lookup id t.cases ≡ some new
    pub succeeds : Succeeds old new
    pub more : List (EnvelopeRow E)
    pub kept_rows : rows_of id t.envelopes ≡ rows_of id s.envelopes ++ more
