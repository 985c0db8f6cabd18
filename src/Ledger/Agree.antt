-- ===== src/Ledger/Agree.antt =====
-- Dispatch states agree exactly when they read alike at every id, and what a move does to both sides
-- (minority_prophet/evidence_ledger.py).
use minority_prophet_gate.Base.{
  ℕ, ◌≡◌, refl, sym, ◌∙◌, ap, subst, inl, inr, true, false, Option, none, some, List, [], ◌∷◌, ◌++◌,
  ◌==◌, if◌then◌else◌, elem, arith, Dict, lookup, insert, keys, lookup-insert, Bool-cases, ok,
}
use minority_prophet_gate.Audit.Event.{Entry}
use minority_prophet_gate.Ledger.Tables.{
  DispatchState, planned, authorized, started, denied, returned, failed, state_code, StateRow,
  allowed,
}
use minority_prophet_gate.Ledger.Verify.{
  StateMap, same_state, agree_on, same_states, actual_states, set_state,
}
use minority_prophet_gate.Ledger.Append.{current_state, upserted, move}

decoded : ℕ → DispatchState
decoded n =
    if n == 0
    then planned
    else if n == 1
    then authorized
    else if n == 2
    then started
    else if n == 3
    then denied
    else if n == 4
    then returned
    else failed

decoded-state_code : (s : DispatchState) → decoded (state_code s) ≡ s
unfolding decoded
decoded-state_code planned = refl
decoded-state_code authorized = refl
decoded-state_code started = refl
decoded-state_code denied = refl
decoded-state_code returned = refl
decoded-state_code failed = refl

pub state_code_injective : (s t : DispatchState) → state_code s ≡ state_code t → s ≡ t
state_code_injective s t e = sym (decoded-state_code s) ∙ ap decoded e ∙ decoded-state_code t

same_state→eq : (a b : Option (DispatchState × ℕ)) → same_state a b ≡ true → a ≡ b
same_state→eq none none h = refl
same_state→eq none (some b) h = absurd (cc)
same_state→eq (some a) none h = absurd (cc)
same_state→eq (some (s, m)) (some (t, n)) h =
    let states : s ≡ t = state_code_injective s t (ground arith) in
    let sequences : m ≡ n = ground arith in λ i. some (states i, sequences i)

same_state_refl : (a : Option (DispatchState × ℕ)) → same_state a a ≡ true
same_state_refl none = refl
same_state_refl (some a) = ground arith

-- Two maps read alike.
abbrev pub Alike : StateMap → StateMap → Type 0
Alike a b = (k : ℕ) → lookup k a ≡ lookup k b

Alike-agree_on : (ks : List ℕ) (a b : StateMap) → Alike a b → agree_on ks a b ≡ true
unfolding agree_on
Alike-agree_on [] a b h = refl
Alike-agree_on (k ∷ ks) a b h = rw (h k, same_state_refl (lookup k b)) (Alike-agree_on ks a b h)

agree_on→eq :
    (k : ℕ) (ks : List ℕ) (a b : StateMap)
    → agree_on ks a b ≡ true
    → elem k ks ≡ true
    → lookup k a ≡ lookup k b
unfolding agree_on
agree_on→eq k [] a b h = λ m. absurd (cc)
agree_on→eq k (j ∷ ks) a b h = elim (Bool-cases (k == j)) [
  | inl hit ↦ rw hit (λ m.
      let e : j ≡ k = ground arith in
      subst (λ x. lookup x a ≡ lookup x b) e
        (same_state→eq (lookup j a) (lookup j b) (ground arith)))
  | inr miss ↦ rw miss (λ m. agree_on→eq k ks a b (ground arith) m)
]

absent : (k : ℕ) (a : StateMap) → elem k (keys a) ≡ false → lookup k a ≡ none
absent k [] h = refl
absent k (e ∷ a) h = ground (arith, absent k a)

elem-append : (k : ℕ) (xs ys : List ℕ) → elem k (xs ++ ys) ≡ (if elem k xs then true else elem k ys)
elem-append k [] ys = refl
elem-append k (x ∷ xs) ys = ground (arith, elem-append k xs ys)

pub Alike-same_states : (a b : StateMap) → Alike a b → same_states a b ≡ true
unfolding same_states
Alike-same_states a b h = Alike-agree_on (keys a ++ keys b) a b h

pub same_states-Alike : (a b : StateMap) → same_states a b ≡ true → Alike a b
unfolding same_states
same_states-Alike a b h k = elim (Bool-cases (elem k (keys a ++ keys b))) [
  | inl here ↦ agree_on→eq k (keys a ++ keys b) a b h here
  | inr gone ↦
      let split = elem-append k (keys a) (keys b) in
      absent k a (ground (arith, split)) ∙ sym (absent k b (ground (arith, split)))
]

actual-insert :
    (k : ℕ) (r : StateRow) (rows : Dict StateRow)
    → actual_states (insert k r rows) ≡ insert k (r.state, r.updated_sequence) (actual_states rows)
actual-insert k r [] = refl
actual-insert k r (e ∷ rows) = elim (Bool-cases (k == e.0)) [
  | inl hit ↦ rw hit refl
  | inr miss ↦ rw (miss, actual-insert k r rows) refl
]

pub set_state-Alike :
    (id : Option ℕ) (state : Option DispatchState) (n : ℕ) (a b : StateMap)
    → Alike a b
    → Alike (set_state id state n a) (set_state id state n b)
set_state-Alike none state n a b h k = h k
set_state-Alike (some j) none n a b h k = h k
set_state-Alike (some j) (some s) n a b h k =
    rw (lookup-insert j k (s, n) a, lookup-insert j k (s, n) b, h k) refl

module _ {D : Type 0} where
  upserted-parts :
      (prior : Option StateRow) (entry : Entry D) (s : DispatchState) (n : ℕ)
      → ((upserted prior entry s n).state ≡ s) × ((upserted prior entry s n).updated_sequence ≡ n)
  upserted-parts none entry s n = (refl, refl)
  upserted-parts (some r) entry s n = (refl, refl)

  -- A move changes the table as an event changes the expected states.
  pub move-actual :
      (id : Option ℕ) (state : Option DispatchState) (entry : Entry D) (n : ℕ)
      (rows new : Dict StateRow)
      → move id state entry n rows ≡ ok new
      → actual_states new ≡ set_state id state n (actual_states rows)
  unfolding move
  move-actual none state entry n rows new =
      λ h. let e : rows ≡ new = ground arith in ap actual_states (sym e)
  move-actual (some k) none entry n rows new =
      λ h. let e : rows ≡ new = ground arith in ap actual_states (sym e)
  move-actual (some k) (some s) entry n rows new =
      let r = upserted (lookup k rows) entry s n in
      elim (Bool-cases (allowed (current_state (lookup k rows)) s)) [
        | inr barred ↦ rw (barred, move) (λ h. absurd (cc))
        | inl free ↦
            rw (free, move)
              (λ h.
                let e : insert k r rows ≡ new = ground arith in
                let (states, sequences) = upserted-parts (lookup k rows) entry s n in
                ap actual_states (sym e)
                ∙ actual-insert k r rows
                ∙ (λ i. insert k (states i, sequences i) (actual_states rows)))
      ]
