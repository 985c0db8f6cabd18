-- ===== src/Adapter/Filed.antt =====
-- The records that the adapter reads are filed under their own keys (minority_prophet/adapter_acp.py).
use minority_prophet_gate.Base.{
  ℕ, ◌≡◌, refl, inl, inr, Option, some, List, [], ◌∷◌, keys, Option-cases,
}
use minority_prophet_gate.Base.Keys.{insert-Distinct}
use minority_prophet_gate.Base.Pigeonhole.{Distinct}
use minority_prophet_gate.Base.Json.{Json}
use minority_prophet_gate.Adapter.Envelope.{
  Envelope, Verifier, Verification, root, derived, invalid,
}
use minority_prophet_gate.Adapter.Lineage.{Reading, record_of, read_one, read_all}

abbrev HasKeys : Reading → Type 0
HasKeys r = Distinct (keys r.records)

read_one-HasKeys :
    (bit_of : Json → Option ℕ) (verifier : Verifier) (env : Envelope) (r : Reading)
    → HasKeys r
    → HasKeys (read_one bit_of verifier env r)
unfolding read_one
read_one-HasKeys bit_of verifier env r d = elim (Option-cases env.assertion) [
  | inl missing ↦ rw (missing, read_one) d
  | inr (a, stated) ↦ elim (Option-cases (bit_of a)) [
    | inl unmapped ↦ rw (stated, unmapped, read_one) d
    | inr (bit, mapped) ↦ elim (Option-cases env.claim_id) [
      | inl unnamed ↦ rw (stated, mapped, unnamed, read_one) d
      | inr (cid, named) ↦ filed (verifier env) a bit cid stated mapped named refl
    ]
  ]
]
  where
    filed :
        (v : Verification) (a : Json) (bit cid : ℕ)
        → env.assertion ≡ some a
        → bit_of a ≡ some bit
        → env.claim_id ≡ some cid
        → verifier env ≡ v
        → HasKeys (read_one bit_of verifier env r)
    filed invalid a bit cid stated mapped named verified =
        rw (stated, mapped, named, verified, read_one) d
    filed root a bit cid stated mapped named verified =
        rw (stated, mapped, named, verified, read_one)
          (insert-Distinct cid (record_of env bit root) r.records d)
    filed derived a bit cid stated mapped named verified =
        rw (stated, mapped, named, verified, read_one)
          (insert-Distinct cid (record_of env bit derived) r.records d)

pub read_all-HasKeys :
    (bit_of : Json → Option ℕ) (verifier : Verifier) (envs : List Envelope) (r : Reading)
    → HasKeys r
    → HasKeys (read_all bit_of verifier envs r)
unfolding read_all
read_all-HasKeys bit_of verifier [] r d = d
read_all-HasKeys bit_of verifier (env ∷ envs) r d =
    read_all-HasKeys bit_of verifier envs (read_one bit_of verifier env r)
      (read_one-HasKeys bit_of verifier env r d)
