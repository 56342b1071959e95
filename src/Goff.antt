-- ===== src/Goff.antt =====
-- internal/goff/model.go: a flag and its parts. `Number` is the type of a float64, `Value` that of
-- a value of any type; `internal` and what is kept of the file's own text are not in the record.
pub mod Compile
use goff_studio.Base.{Bool, Option, List, Text, text_eq, nat_eq}

-- A condition and its children, which may be nil.
mutual
  pub data Condition : Type 0 where
    condition :
        (op : Text) (negated : Bool) (children : Conditions) (attribute operator value : Text)
        → Condition

  pub data Conditions : Type 0 where
    none_left : Conditions
    child : Condition → Conditions → Conditions
    nil_child : Conditions → Conditions

module _ (Value : Type 0) where
  pub record Variation : Type 0 where
    pub name : Text
    pub value : Value

module _ (Number : Type 0) where
  -- A map of Go is the list of its entries, in the order in which a loop meets them.
  pub record Outcome : Type 0 where
    pub variation : Text
    pub percentage : List (Text × Number)

  pub record RolloutStep : Type 0 where
    pub variation : Text
    pub percentage : Number
    pub date : Text

  pub record ProgressiveRollout : Type 0 where
    pub initial : RolloutStep
    pub end : RolloutStep

pub record Experimentation : Type 0 where
  pub start : Text
  pub end : Text

module _ (Number : Type 0) where
  pub record Rule : Type 0 where
    pub name : Text
    pub query : Text
    pub condition : Option Condition
    pub advanced : Bool
    pub disabled : Bool
    pub outcome : Outcome Number
    pub progressive : Option (ProgressiveRollout Number)

module _ (Number Value : Type 0) where
  pub record Flag : Type 0 where
    pub key : Text
    pub file : Text
    pub environment : Text
    pub value_type : Text
    pub enabled : Bool
    pub variations : List (Variation Value)
    pub rules : List (Rule Number)
    pub default : Outcome Number
    pub experimentation : Option Experimentation
    pub bucketing_key : Text
    pub metadata : List (Text × Value)
    pub team : Text
    pub preserved : List Text
