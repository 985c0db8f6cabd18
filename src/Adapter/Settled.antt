-- ===== src/Adapter/Settled.antt =====
-- The sweeps over the records end at a fixed point, where what is kept is consistent
-- (minority_prophet/adapter_acp.py, the `while changed` loop of envelopes_to_claims).
use minority_prophet_gate.Base.{
  ℕ, zero, suc, ◌+◌, ◌≡◌, ◌≤◌, ◌<◌, ◌⊎◌, refl, sym, subst, inl, inr, true, false, some, List, [],
  ◌∷◌, arith, All, elem, length, lookup, has_key, Option-cases, Bool-cases,
}
use minority_prophet_gate.Base.Pigeonhole.{Distinct, AreKeys, length-Distinct}
use minority_prophet_gate.Adapter.Freshness.{Exclusion}
use minority_prophet_gate.Adapter.Lineage.{
  Record, Records, Judgement, keep, reject, judge_derived, judge, Sweep, after, sweep, settle,
  unswept, judged,
}

Judgement-cases : (j : Judgement) → (j ≡ keep) ⊎ ((why : List Exclusion) × (j ≡ reject why))
Judgement-cases keep = inl refl
Judgement-cases (reject why) = inr (why, refl)

-- Every record is filed under a key of the records.
abbrev Filed : Records → Records → Type 0
Filed records rest = All (λ e. has_key e.0 records ≡ true) rest

Filed-more :
    (e : ℕ × Record) (records rest : Records) → Filed records rest → Filed (e ∷ records) rest
Filed-more e records [] h = tt
Filed-more e records (f ∷ rest) (here, h) = (ground arith, Filed-more e records rest h)

Filed-own : (records : Records) → Filed records records
Filed-own [] = tt
Filed-own (e ∷ records) = (ground arith, Filed-more e records records (Filed-own records))

-- A record that is rejected already is not rejected again.
judge-new :
    (records : Records) (rejected : List ℕ) (cid : ℕ) (r : Record) (why : List Exclusion)
    → judge records rejected cid r ≡ reject why
    → elem cid rejected ≡ false
unfolding judge
judge-new records rejected cid r why h = ground arith

module _ (records : Records) where
  abbrev IsSweep : Sweep → Type 0
  IsSweep s = Distinct s.rejected × AreKeys s.rejected records

  -- What a pass adds: it only rejects more, and it says whether it did.
  abbrev Advances : Sweep → Sweep → Type 0
  Advances s t =
      IsSweep t
      × (length s.rejected ≤ length t.rejected)
      × (t.changed ≡ true → (s.changed ≡ true) ⊎ (length s.rejected < length t.rejected))

  sweep-Advances :
      (rest : Records) (s : Sweep)
      → Filed records rest
      → IsSweep s
      → Advances s (sweep records rest s)
  unfolding sweep
  sweep-Advances [] s filed is = (is, omega arith, λ h. inl h)
  sweep-Advances ((cid, r) ∷ rest) s (here, filed) (distinct, known) =
      elim (Judgement-cases (judge records s.rejected cid r)) [
        | inl kept ↦ rw (kept, sweep) (sweep-Advances rest s filed (distinct, known))
        | inr (why, out) ↦
            let new = judge-new records s.rejected cid r why out in
            let (is, grows, _) =
              sweep-Advances rest (after (reject why) cid s) filed
                ((new, distinct), (here, known)) in
            rw (out, sweep) (is, omega arith, λ h. inr (omega arith))
      ]

  -- A pass that changed nothing rejected nothing and kept every record that it came to.
  sweep-unchanged :
      (rest : Records) (s : Sweep)
      → (sweep records rest s).changed ≡ false
      → (s.changed ≡ false)
        × ((sweep records rest s).rejected ≡ s.rejected)
        × All (λ e. judge records s.rejected e.0 e.1 ≡ keep) rest
  unfolding sweep
  sweep-unchanged [] s = λ h. (h, refl, tt)
  sweep-unchanged ((cid, r) ∷ rest) s = elim (Judgement-cases (judge records s.rejected cid r)) [
    | inl kept ↦
        rw (kept, sweep)
          (λ h.
            let (still, same_rejected, all) = sweep-unchanged rest s h in
            (still, same_rejected, (refl, all)))
    | inr (why, out) ↦
        rw (out, sweep)
          (λ h. let (still, _, _) = sweep-unchanged rest (after (reject why) cid s) h in absurd cc)
  ]

  -- A state of the loop that another pass would not change.
  abbrev pub IsSettled : Sweep → Type 0
  IsSettled s = (s.changed ≡ false) × All (λ e. judge records s.rejected e.0 e.1 ≡ keep) records

  settle-IsSettled :
      (fuel : ℕ) (s : Sweep)
      → IsSweep s
      → length records < fuel + length s.rejected
      → IsSettled (settle fuel records s)
  unfolding settle
  settle-IsSettled zero s (distinct, known) enough =
      let few = length-Distinct s.rejected records distinct known in absurd (omega arith)
  settle-IsSettled (suc fuel) s is enough =
      let start = record s { changed = false } in
      let next = sweep records records start in
      let (is', grows, change) = sweep-Advances records start (Filed-own records) is in
      elim (Bool-cases next.changed) [
        | inl changed ↦
            let more : length s.rejected < length next.rejected = elim (change changed) [
              | inl never ↦ absurd cc
              | inr m ↦ m
            ] in
            let q : settle (suc fuel) records s ≡ settle fuel records next = ground arith in
            subst IsSettled (sym q) (settle-IsSettled fuel next is' (omega arith))
        | inr still ↦
            let (_, same_rejected, all) = sweep-unchanged records start still in
            let q : settle (suc fuel) records s ≡ next = ground arith in
            let all' =
              subst (λ l. All (λ e. judge records l e.0 e.1 ≡ keep) records) (sym same_rejected)
                all in
            subst IsSettled (sym q) (still, all')
      ]

  judged-IsSettled : IsSettled (judged records)
  unfolding judged
  judged-IsSettled = settle-IsSettled (suc (length records)) unswept (tt, tt) (omega arith)

  -- A kept record that names a parent: the parent is a record that is kept, and it asserts the same.
  abbrev pub IsConsistent : List ℕ → ℕ × Record → Type 0
  IsConsistent rejected (cid, r) =
      (p : ℕ)
      → elem cid rejected ≡ false
      → r.parent ≡ some p
      → (q : Record) × (lookup p records ≡ some q)
        × (elem p rejected ≡ false)
        × (q.assertion ≡ r.assertion)

  keep-IsConsistent :
      (rejected : List ℕ) (e : ℕ × Record)
      → judge records rejected e.0 e.1 ≡ keep
      → IsConsistent rejected e
  unfolding judge judge_derived
  keep-IsConsistent rejected e kept p new below = elim (Option-cases (lookup p records)) [
    | inl missing ↦ absurd (ground arith)
    | inr (q, found) ↦ (q, found, ground arith, ground arith)
  ]

  All-IsConsistent :
      (rejected : List ℕ) (rest : Records)
      → All (λ e. judge records rejected e.0 e.1 ≡ keep) rest
      → All (IsConsistent rejected) rest
  All-IsConsistent rejected [] h = tt
  All-IsConsistent rejected (e ∷ rest) (kept, h) =
      (keep-IsConsistent rejected e kept, All-IsConsistent rejected rest h)

  -- Whatever the records, the sweeps end in a state that another sweep would not change, and each
  -- record that they keep and that names a parent has a parent that is kept too and asserts the same.
  pub judged-IsConsistent :
      ((judged records).changed ≡ false) × All (IsConsistent (judged records).rejected) records
  judged-IsConsistent =
      let (still, kept) = judged-IsSettled in
      (still, All-IsConsistent (judged records).rejected records kept)
