-- ===== src/Ledger/Runs.antt =====
-- The events of each dispatch in a ledger are a run of its machine, and a run is short
-- (minority_prophet/evidence_ledger.py).
use minority_prophet_gate.Base.{
  ℕ, suc, ◌≡◌, ◌≤◌, refl, sym, ◌∙◌, ap, subst, Option, none, some, List, [], ◌∷◌, length, arith, ok,
}
use minority_prophet_gate.Audit.Event.{EvidenceAuditEvent, Entry}
use minority_prophet_gate.Ledger.Tables.{
  DispatchState, planned, authorized, started, denied, returned, failed, Ledger, Keys, new_ledger,
}
use minority_prophet_gate.Ledger.Verify.{verify_rows, events}
use minority_prophet_gate.Ledger.Append.{append_all}
use minority_prophet_gate.Ledger.Machine.{
  Step, plan, authorize, deny, start, complete, fail, latest, IsRun, history, append_all-Tracks,
}

-- How many states a run has that ends in this one.
abbrev rank : DispatchState → ℕ
rank planned = 1
rank authorized = 2
rank denied = 2
rank started = 3
rank returned = 4
rank failed = 4

abbrev rank_of : Option DispatchState → ℕ
rank_of none = 0
rank_of (some s) = rank s

Step-rank : {s : Option DispatchState} {t : DispatchState} → Step s t → rank t ≡ suc (rank_of s)
Step-rank plan = refl
Step-rank authorize = refl
Step-rank deny = refl
Step-rank start = refl
Step-rank complete = refl
Step-rank fail = refl

IsRun-length : (ss : List DispatchState) → IsRun ss → length ss ≡ rank_of (latest ss)
IsRun-length [] h = refl
IsRun-length (s ∷ ss) (step, run) = ap suc (IsRun-length ss run) ∙ sym (Step-rank step)

rank_small : (s : Option DispatchState) → rank_of s ≤ 4
rank_small none = omega arith
rank_small (some planned) = omega arith
rank_small (some authorized) = omega arith
rank_small (some started) = omega arith
rank_small (some denied) = omega arith
rank_small (some returned) = omega arith
rank_small (some failed) = omega arith

module _ {D : Type 0} (key : Keys D) (clock : ℕ → ℕ) where
  -- Whatever entries a new ledger takes, the events of each dispatch are a run of the machine: planned
  -- first, authorized or denied after it, started only after being authorized, returned or failed only
  -- after being started, each at most once and nothing after an end.
  pub append_all-IsRun :
      (entries : List (Entry D)) (m : Ledger D) (fs : List (EvidenceAuditEvent D)) (k : ℕ)
      → append_all key clock entries new_ledger ≡ ok m
      → events key m ≡ ok fs
      → IsRun (history k fs) × (length (history k fs) ≤ 4)
  unfolding events verify_rows history
  append_all-IsRun entries m fs k taken good =
      let tracks =
        append_all-Tracks k key clock entries new_ledger m [] fs tt refl
          (record { run = tt; state = refl }) good taken in
      (
        tracks.run,
        subst (λ n. n ≤ 4) (sym (IsRun-length (history k fs) tracks.run))
            (rank_small (latest (history k fs))),
      )
