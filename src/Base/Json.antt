-- ===== src/Base/Json.antt =====
-- JSON values, as `json.loads` returns them: an object is its fields, in order.
use Prim.Native.Nat.{ℕ}
use Prim.Native.String.{String}
use mathlib.Core.Bool.{Bool}
use mathlib.Core.Option.{Option, none, some}
use text.Mathlib.Text.{◌==◌ as str_eq}
use minority_prophet_gate.Base.Tests.{if◌then◌else◌}

mutual
  pub data Json : Type 0 where
    null : Json
    bool : Bool → Json
    num : ℕ → Json
    str : String → Json
    arr : Items → Json
    obj : Fields → Json

  pub data Items : Type 0 where
    nil : Items
    cons : Json → Items → Items

  pub data Fields : Type 0 where
    end : Fields
    field : String → Json → Fields → Fields

-- `fields.get(key)`
unfoldable pub get_field : String → Fields → Option Json
get_field k end = none
get_field k (field j v r) = if str_eq j k then some v else get_field k r
