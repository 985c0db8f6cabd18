-- ===== src/Cases/Bound.antt =====
-- A case that was opened keeps its action, its policy and its envelopes, and its state only moves
-- forward, whatever is called (minority_prophet/case_store.py).
use minority_prophet_gate.Base.{
  ℕ, ◌+◌, ◌≡◌, refl, sym, ◌∙◌, ap, subst, inl, inr, true, none, some, List, [], ◌∷◌, ◌++◌, ◌==◌,
  arith, lookup, insert, lookup-insert, ok, Outcome-cases, Option-cases, Bool-cases,
}
use mathlib.Core.List.{append-nil, append_assoc}
use minority_prophet_gate.Cases.Store.{
  CaseState, CaseValue, CaseRow, EnvelopeRow, CaseStore, CaseKeys, may_become, rows_of, case_of,
  case_row, opened, open_case, envelope_row, append, transition,
}
use minority_prophet_gate.Cases.Consistent.{rows_of-append, case_of-parts}
use minority_prophet_gate.Cases.Readable.{append-parts}
use minority_prophet_gate.Cases.Forward.{
  Call, opening, submission, transit, outcome, run, stay, move, Reaches-trans, Succeeds, Continues,
}

module _ {E : Type 0} (key : CaseKeys E) where
  Continues-refl :
      (id : ℕ) (s : CaseStore E) (old : CaseRow)
      → lookup id s.cases ≡ some old
      → Continues key id s s old
  Continues-refl id s old at = record {
    new = old;
    there = at;
    succeeds = record { action = refl; policy = refl; opened_at = refl; state = stay };
    more = [];
    kept_rows = sym (append-nil (rows_of id s.envelopes));
  }

  Continues-trans :
      (id : ℕ) (s t u : CaseStore E) (old : CaseRow) (a : Continues key id s t old)
      (b : Continues key id t u a.new)
      → Continues key id s u old
  Continues-trans id s t u old a b = record {
    new = b.new;
    there = b.there;
    succeeds = record {
      action = b.succeeds.action ∙ a.succeeds.action;
      policy = b.succeeds.policy ∙ a.succeeds.policy;
      opened_at = b.succeeds.opened_at ∙ a.succeeds.opened_at;
      state = Reaches-trans a.succeeds.state b.succeeds.state;
    };
    more = a.more ++ b.more;
    kept_rows =
        b.kept_rows
        ∙ ap (λ rs. rs ++ b.more) a.kept_rows
        ∙ append_assoc (rows_of id s.envelopes) a.more b.more;
  }

  -- A case is put in place of the row that was read, and other cases stay.
  insert-Continues :
      (j id : ℕ) (s : CaseStore E) (es : List (EnvelopeRow E)) (v u : CaseValue) (old : CaseRow)
      (more : List (EnvelopeRow E))
      → lookup id s.cases ≡ some (case_row key v)
      → Succeeds (case_row key v) (case_row key u)
      → rows_of j es ≡ rows_of j s.envelopes ++ more
      → lookup j s.cases ≡ some old
      → Continues key j s
          (record { cases = insert id (case_row key u) s.cases; envelopes = es })
          old
  insert-Continues j id s es v u old more read next rows at = elim (Bool-cases (j == id)) [
    | inl hit ↦
        let own : id ≡ j = ground arith in
        let both : some (case_row key v) ≡ some old =
          sym read ∙ subst (λ i. lookup i s.cases ≡ some old) (sym own) at in
        let q : case_row key v ≡ old = ground arith in
        record {
          new = case_row key u;
          there = rw (lookup-insert id j (case_row key u) s.cases, hit) refl;
          succeeds =
              subst (λ o. Succeeds o (case_row key u)) q
                (record {
                  action = next.action;
                  policy = next.policy;
                  opened_at = next.opened_at;
                  state = next.state;
                });
          more = more;
          kept_rows = rows;
        }
    | inr miss ↦ record {
      new = old;
      there = rw (lookup-insert id j (case_row key u) s.cases, miss) at;
      succeeds = record { action = refl; policy = refl; opened_at = refl; state = stay };
      more = more;
      kept_rows = rows;
    }
  ]

  submission-Continues :
      (j id now : ℕ) (envelope : E) (s t : CaseStore E) (old : CaseRow)
      → append key id envelope now s ≡ ok t
      → lookup j s.cases ≡ some old
      → Continues key j s t old
  submission-Continues j id now envelope s t old h at =
      let (v, claim, read, cases) = append-parts key id now envelope s t h in
      elim cases [
        | inl same_store ↦
            subst (λ x. Continues key j s x old) (sym same_store) (Continues-refl j s old at)
        | inr new ↦
            let rows = s.envelopes ++ envelope_row key id claim envelope now ∷ [] in
            let u : CaseValue = record v {
              envelope_count = v.envelope_count + 1;
              updated_at = now;
            } in
            subst (λ x. Continues key j s x old) (sym new)
              (insert-Continues j id s rows v u old
                (rows_of j (envelope_row key id claim envelope now ∷ []))
                (case_of-parts key id s v read)
                (record { action = refl; policy = refl; opened_at = refl; state = stay })
                (rows_of-append j s.envelopes (envelope_row key id claim envelope now ∷ [])) at)
      ]

  transit-Continues :
      (j id now : ℕ) (state : CaseState) (s t : CaseStore E) (old : CaseRow)
      → transition key id state now s ≡ ok t
      → lookup j s.cases ≡ some old
      → Continues key j s t old
  unfolding transition
  transit-Continues j id now state s t old = elim (Outcome-cases (case_of key id s)) [
    | inr (e, bad) ↦ rw (bad, transition) (λ h at. ground arith)
    | inl (v, read) ↦
        rw (read, transition)
          (λ h at.
            let u : CaseValue = record v { state = state; updated_at = now } in
            let q : record s { cases = insert id (case_row key u) s.cases } ≡ t = ground arith in
            let allowed : may_become v.state state ≡ true = ground arith in
            subst (λ x. Continues key j s x old) q
              (insert-Continues j id s s.envelopes v u old [] (case_of-parts key id s v read)
                (record {
                  action = refl;
                  policy = refl;
                  opened_at = refl;
                  state = move stay allowed;
                })
                (sym (append-nil (rows_of j s.envelopes))) at))
  ]

  opening-Continues :
      (j id action policy now : ℕ) (s t : CaseStore E) (old : CaseRow)
      → open_case key id action policy now s ≡ ok t
      → lookup j s.cases ≡ some old
      → Continues key j s t old
  unfolding open_case
  opening-Continues j id action policy now s t old = elim (Option-cases (lookup id s.cases)) [
    | inr (row, there) ↦ elim (Outcome-cases (case_of key id s)) [
      | inr (e, bad) ↦ rw (there, bad, open_case) (λ h at. ground arith)
      | inl (v, read) ↦
          rw (there, read, open_case)
            (λ h at.
              let q : s ≡ t = ground arith in
              subst (λ x. Continues key j s x old) q (Continues-refl j s old at))
    ]
    | inl new ↦
        rw (new, open_case)
          (λ h at.
            let row = case_row key (opened key id action policy now) in
            let q : record s { cases = insert id row s.cases } ≡ t = ground arith in
            elim (Bool-cases (j == id)) [
              | inl hit ↦
                  let own : id ≡ j = ground arith in
                  let both : none ≡ some old =
                    sym new ∙ subst (λ i. lookup i s.cases ≡ some old) (sym own) at in
                  absurd (cc)
              | inr miss ↦
                  subst (λ x. Continues key j s x old) q
                    (record {
                      new = old;
                      there = rw (lookup-insert id j row s.cases, miss) at;
                      succeeds = record {
                        action = refl;
                        policy = refl;
                        opened_at = refl;
                        state = stay;
                      };
                      more = [];
                      kept_rows = sym (append-nil (rows_of j s.envelopes));
                    })
            ])
  ]

  outcome-Continues :
      (c : Call E) (j : ℕ) (s t : CaseStore E) (old : CaseRow)
      → outcome key c s ≡ ok t
      → lookup j s.cases ≡ some old
      → Continues key j s t old
  outcome-Continues (opening id action policy now) j s t old =
      opening-Continues j id action policy now s t old
  outcome-Continues (submission id envelope now) j s t old =
      submission-Continues j id now envelope s t old
  outcome-Continues (transit id state now) j s t old = transit-Continues j id now state s t old

  -- Whatever is called, and whether it returns or raises, a case that a store holds is held afterwards,
  -- bound to the same action and policy, in a state that the allowed transitions reach from the one it
  -- was in, with the envelopes it had and after them those submitted since.
  pub run-Continues :
      (cs : List (Call E)) (j : ℕ) (s : CaseStore E) (old : CaseRow)
      → lookup j s.cases ≡ some old
      → Continues key j s (run key cs s) old
  unfolding run
  run-Continues [] j s old at = Continues-refl j s old at
  run-Continues (c ∷ cs) j s old at = elim (Outcome-cases (outcome key c s)) [
    | inr (e, eq) ↦ rw eq (run-Continues cs j s old at)
    | inl (t, eq) ↦
        let here = outcome-Continues c j s t old eq at in
        rw eq
          (Continues-trans j s t (run key cs t) old here (run-Continues cs j t here.new here.there))
  ]
