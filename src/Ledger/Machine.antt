-- ===== src/Ledger/Machine.antt =====
-- The states of a dispatch form a machine, and the events of a ledger are its runs
-- (minority_prophet/evidence_ledger.py).
use minority_prophet_gate.Base.{
  ℕ, ◌≡◌, refl, sym, ap, subst, inl, inr, Bool, true, false, Option, none, some, List, [], ◌∷◌,
  ◌==◌, same, arith, Dict, lookup, insert, lookup-insert, Bool-cases, ok, Outcome-cases,
}
use minority_prophet_gate.Audit.Event.{EvidenceAuditEvent, Entry}
use minority_prophet_gate.Ledger.Tables.{
  DispatchState, planned, authorized, started, denied, returned, failed, StateRow, Ledger, Keys,
  state_of, allowed,
}
use minority_prophet_gate.Ledger.Verify.{events}
use minority_prophet_gate.Ledger.Append.{
  current_state, upserted, move, event_of, next_sequence, append, append_all,
}
use minority_prophet_gate.Ledger.Keeps.{Numbered, append-verifies}

-- A step of the machine, from no state at first.
pub data Step : Option DispatchState → DispatchState → Type 0 where
  plan : Step none planned
  authorize : Step (some planned) authorized
  deny : Step (some planned) denied
  start : Step (some authorized) started
  complete : Step (some started) returned
  fail : Step (some started) failed

allowed-Step : (s : Option DispatchState) (t : DispatchState) → allowed s t ≡ true → Step s t
allowed-Step none planned h = plan
allowed-Step (some planned) authorized h = authorize
allowed-Step (some planned) denied h = deny
allowed-Step (some authorized) started h = start
allowed-Step (some started) returned h = complete
allowed-Step (some started) failed h = fail
allowed-Step _ _ h = absurd (cc)

abbrev pub latest : List DispatchState → Option DispatchState
latest [] = none
latest (s ∷ ss) = some s

-- States, the newest first, each reached by a step from the older ones.
abbrev pub IsRun : List DispatchState → Type 0
IsRun [] = Unit
IsRun (s ∷ ss) = Step (latest ss) s × IsRun ss

abbrev pub add_state : Bool → Option DispatchState → List DispatchState → List DispatchState
add_state false s ss = ss
add_state true none ss = ss
add_state true (some s) ss = s ∷ ss

-- The table holds the newest state of a run.
pub record Tracks (k : ℕ) (states : Dict StateRow) (ss : List DispatchState) : Type 0 where
  pub run : IsRun ss
  pub state : current_state (lookup k states) ≡ latest ss

module _ {D : Type 0} (k : ℕ) where
  -- The states that the events of a dispatch stand for, the newest first.
  unfoldable pub history : List (EvidenceAuditEvent D) → List DispatchState
  history [] = []
  history (e ∷ es) =
      add_state (same e.payload.dispatch_id (some k)) (state_of e.payload.event_type) (history es)

  upserted-state :
      (prior : Option StateRow) (entry : Entry D) (s : DispatchState) (n : ℕ)
      → (upserted prior entry s n).state ≡ s
  upserted-state none entry s n = refl
  upserted-state (some r) entry s n = refl

  move-Tracks :
      (id : Option ℕ) (state : Option DispatchState) (entry : Entry D) (n : ℕ)
      (rows new : Dict StateRow) (ss : List DispatchState)
      → Tracks k rows ss
      → move id state entry n rows ≡ ok new
      → Tracks k new (add_state (same id (some k)) state ss)
  unfolding move
  move-Tracks none state entry n rows new ss t =
      λ h. let q : rows ≡ new = ground arith in subst (λ v. Tracks k v ss) q t
  move-Tracks (some j) none entry n rows new ss t = λ h.
      let q : rows ≡ new = ground arith in
      elim (Bool-cases (j == k)) [
        | inl own ↦ rw own (subst (λ v. Tracks k v ss) q t)
        | inr other ↦ rw other (subst (λ v. Tracks k v ss) q t)
      ]
  move-Tracks (some j) (some s) entry n rows new ss t =
      let r = upserted (lookup j rows) entry s n in
      elim (Bool-cases (allowed (current_state (lookup j rows)) s)) [
        | inr barred ↦ rw (barred, move) (λ h. absurd (cc))
        | inl free ↦
            rw (free, move)
              (λ h.
                let q : insert j r rows ≡ new = ground arith in
                elim (Bool-cases (j == k)) [
                  | inl own ↦
                      let e : j ≡ k = ground arith in
                      let at : current_state (lookup j rows) ≡ latest ss =
                        subst (λ x. current_state (lookup x rows) ≡ latest ss) (sym e) t.state in
                      let step : Step (latest ss) s =
                        subst (λ x. Step x s) at
                          (allowed-Step (current_state (lookup j rows)) s free) in
                      rw own (
                        subst (λ v. Tracks k v (s ∷ ss)) q
                          (record {
                            run = (step, t.run);
                            state =
                                let hit : (k == j) ≡ true = ground arith in
                                rw (lookup-insert j k r rows, hit)
                                  (ap some (upserted-state (lookup j rows) entry s n));
                          }))
                  | inr other ↦ rw other (
                      subst (λ v. Tracks k v ss) q
                        (record {
                          run = t.run;
                          state =
                              let miss : (k == j) ≡ false = ground arith in
                              rw (lookup-insert j k r rows, miss) t.state;
                        }))
                ])
      ]

  append-move :
      (key : Keys D) (clock : ℕ → ℕ) (entry : Entry D) (l m : Ledger D)
      → append key clock entry l ≡ ok m
      → move entry.dispatch_id (state_of entry.event_type) entry (next_sequence l.rows) l.states
        ≡ ok m.states
  unfolding append
  append-move key clock entry l m =
      elim (Outcome-cases (
        move entry.dispatch_id (state_of entry.event_type) entry (next_sequence l.rows) l.states)) [
          | inr (x, eq) ↦ λ h. ground arith
          | inl (new, eq) ↦ λ h. ground arith
        ]

  pub append_all-Tracks :
      (key : Keys D) (clock : ℕ → ℕ) (entries : List (Entry D)) (l m : Ledger D)
      (es fs : List (EvidenceAuditEvent D))
      → Numbered l.rows
      → events key l ≡ ok es
      → Tracks k l.states (history es)
      → events key m ≡ ok fs
      → append_all key clock entries l ≡ ok m
      → Tracks k m.states (history fs)
  unfolding append_all history
  append_all-Tracks key clock [] l m es fs numbered good t good_m = λ h.
      let q : l ≡ m = ground arith in
      let now : events key m ≡ ok es = subst (λ v. events key v ≡ ok es) q good in
      let e : es ≡ fs = ground (arith, now) in
      subst (λ v. Tracks k v.states (history fs)) q (subst (λ v. Tracks k l.states (history v)) e t)
  append_all-Tracks key clock (e ∷ rest) l m es fs numbered good t good_m =
      elim (Outcome-cases (append key clock e l)) [
        | inr (x, eq) ↦ rw (eq, append_all) (λ h. absurd (cc))
        | inl (n, eq) ↦
            rw (eq, append_all)
              (λ h.
                let (kept, (olds, before, after)) = append-verifies key clock e l n numbered eq in
                let q : olds ≡ es = ground (arith, before) in
                let now =
                  subst (λ v. events key n ≡ ok (event_of key clock e l.rows ∷ v)) q after in
                append_all-Tracks key clock rest n m (event_of key clock e l.rows ∷ es) fs kept now
                  (move-Tracks e.dispatch_id (state_of e.event_type) e (next_sequence l.rows)
                    l.states n.states (history es) t (append-move key clock e l n eq))
                  good_m h)
      ]
