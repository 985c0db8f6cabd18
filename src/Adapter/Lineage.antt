-- ===== src/Adapter/Lineage.antt =====
-- adapter_acp.py, envelopes_to_claims: the records of the verified envelopes, and the loop that
-- rejects derived claims until no more are rejected.
use minority_prophet_gate.Base.{
  ℕ, zero, suc, Bool, true, false, not, Option, none, some, List, [], ◌∷◌, ◌++◌, ◌==◌, same,
  if◌then◌else◌, Dict, lookup, insert, elem, length,
}
use minority_prophet_gate.Base.Json.{Json}
use minority_prophet_gate.Adapter.Envelope.{
  Envelope, Attest, Verifier, Verification, root, derived, invalid,
}
use minority_prophet_gate.Adapter.Depth.{Depth, stated_depth}
use minority_prophet_gate.Adapter.Freshness.{
  Exclusion, side_contradiction, lineage_cycle, subject_mismatch,
}

pub record Record : Type 0 where
  pub env : Envelope
  pub assertion : ℕ
  pub attest : Attest
  pub parent : Option ℕ
  pub subject : Option ℕ
  pub depth : Option Depth

abbrev pub Records : Type 0
Records = Dict Record

pub record Reading : Type 0 where
  pub records : Records
  pub quarantined : List Envelope

abbrev pub record_of : Envelope → ℕ → Verification → Record
record_of env bit status = record {
  env = env;
  assertion = bit;
  attest = env.attest;
  parent = elim status [ derived ↦ env.attest.derived_from | _ ↦ none ];
  subject = env.attest.subject;
  depth = stated_depth env.attest;
}

-- One envelope: quarantined if its assertion or id is unusable or its verification fails.
unfoldable pub read_one : (Json → Option ℕ) → Verifier → Envelope → Reading → Reading
read_one bit_of verifier env r =
    let dropped = record r { quarantined = r.quarantined ++ env ∷ [] } in
    elim env.assertion [
      | none ↦ dropped
      | some a ↦ elim (bit_of a) [
        | none ↦ dropped
        | some bit ↦ elim env.claim_id [
          | none ↦ dropped
          | some cid ↦ elim (verifier env) [
            | invalid ↦ dropped
            | root ↦ record r { records = insert cid (record_of env bit root) r.records }
            | derived ↦ record r { records = insert cid (record_of env bit derived) r.records }
          ]
        ]
      ]
    ]

unfoldable pub read_all : (Json → Option ℕ) → Verifier → List Envelope → Reading → Reading
unfolding read_one
read_all bit_of verifier [] r = r
read_all bit_of verifier (env ∷ envs) r =
    read_all bit_of verifier envs (read_one bit_of verifier env r)

-- The walk from a parent to its ancestor root.
pub data Walk : Type 0 where
  cyclic tired : Walk
  reached : Record → Walk

unfoldable pub walk : ℕ → Records → List ℕ → Record → Walk
walk zero records lineage ancestor = tired
walk (suc fuel) records lineage ancestor = elim ancestor.parent [
  | none ↦ reached ancestor
  | some p ↦ elim (lookup p records) [
    | none ↦ reached ancestor
    | some q ↦ elim (elem p lineage) [ true ↦ cyclic | false ↦ walk fuel records (p ∷ lineage) q ]
  ]
]

pub data Judgement : Type 0 where
  keep : Judgement
  reject : List Exclusion → Judgement

-- The subject of a derived claim must be the subject of its ancestor, if that has one.
abbrev pub judge_subject : Record → Walk → Judgement
judge_subject r cyclic = reject (lineage_cycle ∷ [])
judge_subject r tired = reject (lineage_cycle ∷ [])
judge_subject r (reached ancestor) = elim ancestor.subject [
  | none ↦ keep
  | some s ↦ if same r.subject (some s) then keep else reject (subject_mismatch ∷ [])
]

-- The body of the inner loop for a record that names a parent. A walk meets each record once.
unfoldable pub judge_derived : Records → List ℕ → ℕ → Record → ℕ → Judgement
unfolding walk
judge_derived records rejected cid r p = elim (lookup p records) [
  | none ↦ reject []
  | some parent ↦
      if elem p rejected
      then reject []
      else if not (parent.assertion == r.assertion)
      then reject (side_contradiction ∷ [])
      else judge_subject r (walk (suc (suc (length records))) records (cid ∷ []) parent)
]

unfoldable pub judge : Records → List ℕ → ℕ → Record → Judgement
unfolding judge_derived
judge records rejected cid r =
    if elem cid rejected
    then keep
    else elim r.parent [ none ↦ keep | some p ↦ judge_derived records rejected cid r p ]

pub record Sweep : Type 0 where
  pub rejected : List ℕ
  pub exclusions : List Exclusion
  pub changed : Bool

abbrev pub after : Judgement → ℕ → Sweep → Sweep
after keep cid s = s
after (reject why) cid s = record {
  rejected = cid ∷ s.rejected;
  exclusions = s.exclusions ++ why;
  changed = true;
}

-- One pass over the records; a rejection counts at once.
unfoldable pub sweep : Records → Records → Sweep → Sweep
unfolding judge
sweep records [] s = s
sweep records ((cid, r) ∷ rest) s =
    sweep records rest (after (judge records s.rejected cid r) cid s)

-- `while changed`
unfoldable pub settle : ℕ → Records → Sweep → Sweep
unfolding sweep
settle zero records s = s
settle (suc fuel) records s =
    let s' = sweep records records (record s { changed = false }) in
    elim s'.changed [ true ↦ settle fuel records s' | false ↦ s' ]

abbrev pub unswept : Sweep
unswept = record { rejected = []; exclusions = []; changed = true }

-- Every pass but the last rejects a record, so one more pass than there are records is enough.
unfoldable pub judged : Records → Sweep
unfolding settle
judged records = settle (suc (length records)) records unswept
