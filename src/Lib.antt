-- ===== src/Lib.antt =====
-- The evidence Gate (minority_prophet/): a library that decides whether an agent's action may take
-- effect, from attested evidence, from an owner's mandate or from an authority receipt, and that
-- then executes the action at most once or prevents it.
--
-- The parts, and how they call each other. Envelopes come in through the adapter, which turns them
-- into claims; the aggregation counts the independent roots behind each asserted value; the Gate
-- makes an assessment or a decision of the verdict. The selective ladder asks a deterministic
-- policy first, then the evidence, and where the evidence does not settle it, issues a challenge of
-- the evidence requests. The control plane runs the ladder, collects evidence over a router for
-- each challenge, and hands the final decision to the runtime boundary, or to the autonomy
-- controller where there is a mandate. The router splits a challenge into one dispatch per route,
-- asks the collector of the route under a permit of the host, checks and stores the result, and
-- records every step in an audit log, which is kept in memory, in a file, or in the tables of the
-- evidence ledger. Memory evidence, signed receipts and cases are further sources: an assessment
-- that the ladder reads, a verifier that the Gate takes, and a store of envelopes by case. The
-- authority-continuity Gate is a second way to a decision, from a receipt and a store of nonces;
-- its proceeds are what execution receipts testify to.
--
-- Files and code (a method `C.m` is the function of the same name, `_x` is `x`):
--   GateTypes            minority_prophet/gate.py, GateDecision
--   Aggregator/Graph     minority_prophet/aggregator.py, Claim and EvidenceGraph
--   Aggregator/Tally     the same file, side_roots and aggregate up to the attack analysis
--   Aggregator/Attack    the same file, _convert, _conversion_attack and the whole of aggregate
--   Adapter/*            minority_prophet/adapter_acp.py: Envelope (_to_bit, verifiers), Depth
--                        (normalise_depth_weights, stated_depth), Freshness (_age_seconds,
--                        _freshness_policy, _root_weight), Lineage and Intake (envelopes_to_claims)
--   Gate/Assess, Decide  minority_prophet/gate.py: assess, assess_bounds and decide
--   Runtime/*            minority_prophet/runtime_adapter.py
--   Integrations/*       minority_prophet/runtime_integrations.py
--   Autonomy/*           minority_prophet/autonomy.py
--   Continuity/*         minority_prophet/authority_continuity.py; Execution is
--                        minority_prophet/execution_receipt.py
--   Request/*            minority_prophet/evidence_request.py
--   Selective/*          minority_prophet/selective_hybrid.py
--   ControlPlane/*       minority_prophet/control_plane.py; it takes the router and the bridge as an
--                        interface, which Routed fills with those of the code
--   Audit/Event, Log     minority_prophet/evidence_audit.py; Interface is the log as the router takes
--                        it, with the instance for the log in memory
--   Router/*             minority_prophet/evidence_router.py: Types, Checks (the methods _verify_x),
--                        Plan, Site (what the router is configured with), Dispatch, Collect
--   Ledger/*             minority_prophet/evidence_ledger.py: Tables, Verify
--                        (_verify_integrity_in_transaction), Append, Artifacts (and human reviews)
--   Cases/Store          minority_prophet/case_store.py; append is a read of the case and then submit
--   Receipts/Verifier    minority_prophet/receipt_verifier.py
--   MemoryEvidence/*     minority_prophet/memory_evidence.py: Lineage (the search for cycles), Assess
-- The other files of these directories hold what is proved of them. Base holds the shared types and
-- lemmas, Witnesses the runs on concrete inputs.
--
-- State is passed and returned: the ledger of the runtime controller, the receipts at a target, the
-- nonces, the outcomes of the control plane, the tables of a database. A transaction that rolls
-- back gives no new state. The audit events, and the rows of the ledger, stand newest first. A call
-- that may raise gives an Outcome; the state after an exception is the state that the code leaves.
-- Python objects that are called from outside and that change (a runtime, a tool, a transport, a
-- router, a collector) are functions over a state of their own. The verifier that the adapter is
-- given answers from the envelope alone.
--
-- Numbers and texts. A weight, a margin and a flip budget are floats in the code; here they count
-- millionths of one root, so 1.0 is 1000000, and products are rounded down. Opaque texts, such as
-- ids and digests, are numbers, with 0 for the empty text; texts that the code looks into are
-- strings. A hash is a function, and where a theorem needs it to tell two values apart, it says so.
-- The half-life law of the adapter is a function too. Negative numbers and floats that are no
-- number do not occur, but where the plan subtracts caps, which is on integers. The order of texts,
-- by which the plan sorts its routes, is a parameter. The clock of a log is a function of the
-- number of the event, since each append reads it once. What an event says beside its kind is of a
-- type D, which for the router is a data type with one case for each event. A value of a wrong
-- Python type does not occur, where a constructor or a schema of the code is what refuses it.
--
-- Bounds and fuel. A way up to a root meets each claim once, so the fuel is one more than the
-- claims. Each sweep of the adapter but the last rejects a record, so the fuel is one more than the
-- records. The loop of the control plane turns once for each round of its policy and once more. The
-- search for cycles in the lineage of a memory goes down through known claims only, so the fuel is
-- one more than their number.
--
-- Not modelled: the collectors over subprocesses and HTTP (the router takes a collector as a
-- function), state reconciliation, the release warden, the command line, the examples and the
-- worker. The adapter is not joined to the verifier of receipt_verifier.py, which remembers what it
-- answered: that one is modelled by itself, with its memory. Connections, locks of files, key
-- parsing and the JSON text of events are left out. Threads are not modelled: each method call is
-- one step, but for the append of the case store, which is two. Diagnostics that no part reads back
-- are left out.
pub mod Base
pub mod GateTypes
pub mod Aggregator
pub mod Adapter
pub mod Gate
pub mod Request
pub mod Selective
pub mod ControlPlane
pub mod Audit
pub mod Router
pub mod Ledger
pub mod Cases
pub mod Receipts
pub mod MemoryEvidence
pub mod Runtime
pub mod Integrations
pub mod Autonomy
pub mod Continuity
pub mod Witnesses
