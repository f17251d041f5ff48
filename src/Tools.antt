-- ===== src/Tools.antt =====
-- chainweaver/tools.py: a tool and its synchronous run. What a tool's callable does is not in the
-- repository: it is a function of the tool calls that the run has made so far, so a tool may answer
-- the same inputs differently at different calls. Schemas are pydantic models: a schema is the
-- function that validates a payload and dumps it again.
use chain_weaver.Common.{
  ℕ, String, Bool, true, false, Option, none, some, List, ◌∷◌, ltb, if◌then◌else◌,
}
use chain_weaver.Value.{Context}
use chain_weaver.Contracts.Levels.{ToolSafetyContract}

-- One invocation of a tool's callable (`dry` for its `dry_run_fn`), newest first in a history.
pub record Call : Type 0 where
  pub tool : String
  pub inputs : Context
  pub dry : Bool

abbrev pub History : Type 0
History = List Call

-- What a callable, a validator or a run may raise.
pub data Exc : Type 0 where
  validation_error : String → Exc
  tool_timeout : String → Exc
  tool_output_size : String → Exc
  tool_definition : String → Exc
  other : (class message : String) → Exc

pub data Outcome {ℓ} (A : Type ℓ) : Type ℓ where
  returned : A → Outcome A
  raised : Exc → Outcome A

abbrev pub Schema : Type 0
Schema = Context → Outcome Context

-- What a callable answers, and how long it takes.
pub record Answer : Type 0 where
  pub duration : ℕ
  pub outcome : Outcome Context

abbrev pub Callable : Type 0
Callable = History → Context → Answer

pub record Tool : Type 0 where
  pub name : String
  pub input_schema : Schema
  pub output_schema : Schema
  pub fn : Callable
  pub dry_run_fn : Option Callable
  pub timeout_seconds : Option ℕ
  pub max_output_size : Option ℕ
  -- the length of the output's JSON text
  pub json_size : Context → ℕ
  pub schema_hash : String
  pub cacheable : Bool
  pub safety : ToolSafetyContract

-- `_validate_output`
validate_output : Tool → Context → Outcome Context
validate_output tool raw = elim tool.max_output_size [
  | none ↦ tool.output_schema raw
  | some cap ↦
      if ltb cap (tool.json_size raw)
      then raised (tool_output_size tool.name)
      else tool.output_schema raw
]

-- `_call_fn` of a tool that is not async.
call_fn : Tool → History → Context → Outcome Context
call_fn tool h validated =
    let answer = tool.fn h validated in
    elim tool.timeout_seconds [
      | none ↦ answer.outcome
      | some limit ↦
          if ltb limit answer.duration then raised (tool_timeout tool.name) else answer.outcome
    ]

checked_output : Tool → Outcome Context → Outcome Context
checked_output tool (returned raw) = validate_output tool raw
checked_output tool (raised e) = raised e

run_validated : Tool → Context → Outcome Context → History → Outcome Context × History
run_validated tool raw (raised e) h = (raised e, h)
run_validated tool raw (returned validated) h = (
  checked_output tool (call_fn tool h validated),
  record { tool = tool.name; inputs = validated; dry = false } ∷ h,
)

-- `Tool.run`: the callable is reached only with inputs that the schema accepts.
unfoldable pub run : Tool → Context → History → Outcome Context × History
unfolding run_validated checked_output call_fn validate_output
run tool raw h = run_validated tool raw (tool.input_schema raw) h

dry_validated : Tool → Callable → Outcome Context → History → Outcome Context × History
dry_validated tool fn (raised e) h = (raised e, h)
dry_validated tool fn (returned validated) h = (
  checked_output tool (fn h validated).outcome,
  record { tool = tool.name; inputs = validated; dry = true } ∷ h,
)

-- `Tool.run_dry`
unfoldable pub run_dry : Tool → Context → History → Outcome Context × History
unfolding dry_validated checked_output validate_output
run_dry tool raw h = elim tool.dry_run_fn [
  | none ↦ (raised (tool_definition tool.name), h)
  | some fn ↦ dry_validated tool fn (tool.input_schema raw) h
]
