-- ===== src/Adapter/Depth.antt =====
-- adapter_acp.py: the ladder of witness depths, `normalise_depth_weights` and `stated_depth`.
-- A weight is a number of millionths, so `one` is 1.0.
use minority_prophet_gate.Base.{
  ℕ, Option, none, some, leb, if◌then◌else◌, Outcome, ok, raised, ◌>>=◌, min,
}
use Prim.Native.String.{String}
use minority_prophet_gate.Base.Text.{codes, same_codes}
use minority_prophet_gate.GateTypes.{one}
use minority_prophet_gate.Adapter.Envelope.{Attest}

pub data Depth : Type 0 where
  reality method replication raw analysis text_only : Depth

-- ValueError by its message.
pub data AdapterError : Type 0 where
  unbound_weight_range depth_weight_range half_life_not_positive : AdapterError

-- The mapping that a caller gives; a missing key is `none`.
pub record GivenWeights : Type 0 where
  pub reality : Option ℕ
  pub method : Option ℕ
  pub replication : Option ℕ
  pub raw : Option ℕ
  pub analysis : Option ℕ
  pub text_only : Option ℕ
  pub unstated : Option ℕ

pub record DepthWeights : Type 0 where
  pub reality : ℕ
  pub method : ℕ
  pub replication : ℕ
  pub raw : ℕ
  pub analysis : ℕ
  pub text_only : ℕ
  pub unstated : ℕ

abbrev pub given : Option ℕ → ℕ
given none = one
given (some w) = w

-- No weight is below 0, by its type.
abbrev pub in_unit : ℕ → Outcome AdapterError ℕ
in_unit w = if leb w one then ok w else raised depth_weight_range

unfoldable pub normalise_depth_weights : Option GivenWeights → Outcome AdapterError DepthWeights
normalise_depth_weights none = ok (record {
  reality = one;
  method = one;
  replication = one;
  raw = one;
  analysis = one;
  text_only = one;
  unstated = one;
})
normalise_depth_weights (some w) = do
  a ← in_unit (given w.reality)
  b ← in_unit (given w.method)
  c ← in_unit (given w.replication)
  d ← in_unit (given w.raw)
  e ← in_unit (given w.analysis)
  f ← in_unit (given w.text_only)
  let lowest = min a (min b (min c (min d (min e f))))
  u ← elim w.unstated [ some u ↦ in_unit u | none ↦ ok lowest ]
  ok (record {
    reality = a;
    method = b;
    replication = c;
    raw = d;
    analysis = e;
    text_only = f;
    unstated = u;
  })

-- `depth_weights[key]`, where no depth is the key "unstated"
abbrev pub factor_of : DepthWeights → Option Depth → ℕ
factor_of w none = w.unstated
factor_of w (some Depth.reality) = w.reality
factor_of w (some Depth.method) = w.method
factor_of w (some Depth.replication) = w.replication
factor_of w (some Depth.raw) = w.raw
factor_of w (some Depth.analysis) = w.analysis
factor_of w (some Depth.text_only) = w.text_only

unfoldable pub depth_named : String → Option Depth
depth_named s =
    let t = codes s in
    if same_codes t (codes "reality")
    then some Depth.reality
    else if same_codes t (codes "method")
    then some Depth.method
    else if same_codes t (codes "replication")
    then some Depth.replication
    else if same_codes t (codes "raw")
    then some Depth.raw
    else if same_codes t (codes "analysis")
    then some Depth.analysis
    else if same_codes t (codes "text")
    then some Depth.text_only
    else none

-- An unknown word reads as unstated.
unfoldable pub stated_depth : Attest → Option Depth
unfolding depth_named
stated_depth at = elim at.witness_depth [ none ↦ none | some s ↦ depth_named s ]
