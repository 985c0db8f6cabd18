-- ===== src/Autonomy/Level.antt =====
-- autonomy.py: AutonomyLevel, an IntEnum, and `AutonomyLevel.parse`.
use minority_prophet_gate.Base.{ℕ, Bool, if◌then◌else◌, ltb, ◌==◌, Outcome, ok, raised, List}
use Prim.Native.String.{String}
use minority_prophet_gate.Base.Text.{codes, strip, upper, same_codes}

pub data AutonomyLevel : Type 0 where
  observe recommend prepare act emergency_act : AutonomyLevel

abbrev pub rank : AutonomyLevel → ℕ
rank observe = 0
rank recommend = 1
rank prepare = 2
rank act = 3
rank emergency_act = 4

-- `min(a, b)`
abbrev pub min_level : AutonomyLevel → AutonomyLevel → AutonomyLevel
min_level a b = if ltb (rank b) (rank a) then b else a

abbrev pub same_level : AutonomyLevel → AutonomyLevel → Bool
same_level a b = rank a == rank b

-- A level, or a text that names one.
pub data LevelArgument : Type 0 where
  level : AutonomyLevel → LevelArgument
  named : String → LevelArgument

pub data LevelError : Type 0 where
  unknown_level : LevelError

unfoldable pub level_named : List ℕ → Outcome LevelError AutonomyLevel
level_named t =
    if same_codes t (codes "OBSERVE")
    then ok observe
    else if same_codes t (codes "RECOMMEND")
    then ok recommend
    else if same_codes t (codes "PREPARE")
    then ok prepare
    else if same_codes t (codes "ACT")
    then ok act
    else if same_codes t (codes "EMERGENCY_ACT")
    then ok emergency_act
    else raised unknown_level

unfoldable pub parse : LevelArgument → Outcome LevelError AutonomyLevel
unfolding level_named strip upper
parse (level l) = ok l
parse (named s) = level_named (upper (strip (codes s)))
