-- ===== src/Executor/Types.antt =====
-- The data of chainweaver/executor.py and of the modules whose records it carries: steps and flows,
-- step records, errors, snapshots, the executor's settings, and the state that a run changes.
use chain_weaver.Common.{ℕ, String, Bool, Option, none, some, List}
use chain_weaver.Dict.{Dict}
use chain_weaver.Value.{Value, ℤ, Context}
use chain_weaver.Tools.{
  History, Exc, validation_error, tool_timeout, tool_output_size, tool_definition, other, Outcome,
  returned, raised, Schema, Tool,
}
use chain_weaver.Contracts.Levels.{SideEffectLevel, ToolSafetyContract}

-- The exceptions of chainweaver/exceptions.py that the executor makes, with what their text is
-- made from. `unwrapped` is an exception that is passed through, a tool's or one that nothing catches.
pub data Error : Type 0 where
  tool_not_found : String → Error
  input_mapping_error : String → ℕ → String → Error
  schema_validation_error : String → ℤ → String → Error
  flow_execution_error : String → ℕ → String → Error
  safety_ceiling_error : String → SideEffectLevel → SideEffectLevel → Error
  approval_denied : String → ℕ → String → Error
  guardrail_violation : String → ℕ → Exc → Error
  decision_callback_error : String → ℕ → String → Error
  decision_timeout : String → ℕ → Error
  decision_budget_exceeded : String → ℕ → Error
  context_key_collision : String → ℕ → List String → Error
  output_mapping_error : String → ℕ → String → Error
  predicate_syntax_error : String → String → Error
  unwrapped : Exc → Error
  -- the RuntimeError for a successful step without outputs
  no_outputs : ℕ → Error
  dag_definition_error : (flow_name : String) → Error
  checkpointer_not_configured : Error
  checkpoint_not_found : String → Error
  checkpoint_version : String → String → Error
  checkpoint_drift : String → String → Error
  flow_not_found : String → Error

-- A function that may raise one of them.
pub data Result {ℓ} (A : Type ℓ) : Type ℓ where
  ok : A → Result A
  raise : Error → Result A

-- `try: ... except ValidationError`: `none` stands for a validation error, and any other exception
-- goes on.
abbrev pub caught_validation {ℓ} : {A : Type ℓ} → Outcome A → Result (Option A)
caught_validation (returned a) = ok (some a)
caught_validation (raised (validation_error message)) = ok none
caught_validation (raised (tool_timeout name)) = raise (unwrapped (tool_timeout name))
caught_validation (raised (tool_output_size name)) = raise (unwrapped (tool_output_size name))
caught_validation (raised (tool_definition message)) = raise (unwrapped (tool_definition message))
caught_validation (raised (other class message)) = raise (unwrapped (other class message))

-- What `retry_errors` lists: the text of a tool's exception, that text with the remark that a retry
-- was suppressed, or the text of a wrapped error.
pub data RetryNote : Type 0 where
  attempt_error suppressed : Exc → RetryNote
  wrapped : Error → RetryNote

pub data ApprovalDecision : Type 0 where
  approve deny : ApprovalDecision

pub record ApprovalRecord : Type 0 where
  pub decision : ApprovalDecision
  pub reason : Option String

pub record DecisionRecord : Type 0 where
  pub candidates : List String
  pub chosen : String
  pub default_tool_name : String
  pub timed_out : Bool

pub record StepRecord : Type 0 where
  pub step_index : ℤ
  pub tool_name : String
  pub inputs : Context
  pub outputs : Option Context
  pub error : Option Error
  pub success : Bool
  pub retry_count : ℕ
  pub retry_errors : List RetryNote
  pub skipped : Bool
  pub cached : Bool
  pub fallback_used : Bool
  pub fallback_tool_name : Option String
  pub approval : Option ApprovalRecord
  pub decision : Option DecisionRecord

-- RetryPolicy: the wait between attempts takes time and changes nothing else.
pub record RetryPolicy : Type 0 where
  pub max_retries : ℕ
  pub retryable_errors : List String

-- The `on_error` field of a step: "fail", "skip" or "fallback:<tool_name>".
pub data OnError : Type 0 where
  fail skip : OnError
  fallback : String → OnError

-- A value of `input_mapping`: a text names a context key, or a JSON pointer if it begins with "/".
pub data Source : Type 0 where
  key : String → Source
  literal : Value → Source

-- FlowStep, of a step that invokes a tool. A contract is its reference, resolved and applied to a
-- payload: one that does not resolve raises on every payload.
pub record FlowStep : Type 0 where
  pub tool_name : String
  pub input_mapping : List (String × Source)
  pub output_mapping : Option (List (String × String))
  pub retry : Option RetryPolicy
  pub on_error : OnError
  pub decision_candidates : Option (List String)
  pub input_contract : Option Schema
  pub output_contract : Option Schema

-- `on_context_collision`
pub data CollisionPolicy : Type 0 where
  warn overwrite collision_error : CollisionPolicy

pub record Flow : Type 0 where
  pub name : String
  pub version : String
  pub steps : List FlowStep
  pub input_schema : Option Schema
  pub output_schema : Option Schema
  pub context_schema : Option Schema
  pub on_context_collision : CollisionPolicy

pub record ExecutionResult : Type 0 where
  pub flow_name : String
  pub flow_version : String
  pub success : Bool
  pub final_output : Option Context
  pub execution_log : List StepRecord
  pub trace_id : String
  pub initial_input : Context
  pub dry_run : Bool

-- ExecutionSnapshot
pub record Snapshot : Type 0 where
  pub trace_id : String
  pub flow_name : String
  pub flow_version : String
  pub initial_input : Context
  pub context : Context
  pub execution_log : List StepRecord
  pub snapshot_version : String
  pub completed_steps : ℕ
  pub completed_dag_levels : ℕ
  pub tool_schema_hashes : Dict String

-- How a run of a flow ends: with a result; with FlowCancelledError, which says the next step,
-- whether the deadline passed and whether the token was cancelled, and carries the partial result;
-- or with another exception.
pub data FlowOutcome : Type 0 where
  completed : ExecutionResult → FlowOutcome
  cancelled :
      (next_step : ℕ) (deadline_exceeded token_cancelled : Bool) → ExecutionResult → FlowOutcome
  aborted : Error → FlowOutcome

-- The lifecycle events that middleware sees.
pub data Event : Type 0 where
  flow_start : String → ℕ → Event
  step_start : ℤ → String → Context → Event
  step_end : StepRecord → Event
  flow_end : ExecutionResult → Event

-- What a run changes: the tool calls made (newest first), the events fired (newest first), the step
-- cache by the digest of its keys, the checkpoints by trace, and the number of decisions taken.
pub record Run : Type 0 where
  pub calls : History
  pub events : List Event
  pub cache : Dict Context
  pub snapshots : Dict Snapshot
  pub decision_count : ℕ

-- ApprovalContext, GuardrailContext and DecisionContext, with what the callbacks decide by.
pub record ApprovalContext : Type 0 where
  pub flow_name : String
  pub step_index : ℕ
  pub tool_name : String
  pub inputs : Context
  pub safety : ToolSafetyContract

pub record GuardrailContext : Type 0 where
  pub flow_name : String
  pub step_index : ℕ
  pub tool_name : String
  pub inputs : Context

pub record DecisionContext : Type 0 where
  pub flow_name : String
  pub step_index : ℕ
  pub default_tool_name : String
  pub candidates : List String
  pub context : Context

-- What a call of the approval callback comes to: a decision, another object, or an exception.
pub data ApprovalAnswer : Type 0 where
  decided : ApprovalDecision → ApprovalAnswer
  not_a_decision callback_raised : String → ApprovalAnswer

-- What a call of the decision callback comes to, and how long it takes.
pub record DecisionAnswer : Type 0 where
  pub duration : ℕ
  pub chosen : Outcome String

pub data OnTimeout : Type 0 where
  timeout_error timeout_default : OnTimeout

pub record DecisionPolicy : Type 0 where
  pub timeout_s : Option ℕ
  pub on_timeout : OnTimeout
  pub max_decisions_per_flow : Option ℕ

-- What the attempts of one invocation change: the calls made, their number, and the notes so far.
pub record Attempts : Type 0 where
  pub calls : History
  pub count : ℕ
  pub errors : List RetryNote

-- The retry loop of the library tenacity, `Retrying(stop=stop_after_attempt(n), retry=..., ...)`:
-- it is given n, the test of the exceptions to retry on, and the function that it calls.
abbrev pub Retrying : Type 0
Retrying =
    ℕ
    → (Exc → Bool)
    → (Attempts → Outcome Context × Attempts)
    → Attempts
    → Outcome Context × Attempts

-- How a dry run treats a side-effecting tool with no `dry_run_fn`.
pub data DryRunUnsupported : Type 0 where
  dry_skip dry_abort : DryRunUnsupported

-- The fields of FlowExecutor and of its run-scoped state that a run only reads. The callbacks are
-- the host's: each may answer by the tool calls made so far. `retryable` is Python's
-- `isinstance` against the classes that the references of a retry policy name, or the exception
-- that resolving them raises; `retrying` is tenacity's loop; `int_of` is Python's `int` of a text; `input_value_hash` hashes validated
-- inputs (hashlib).
pub record Executor : Type 0 where
  pub tools : Dict Tool
  pub step_cache : Bool
  pub checkpointer : Bool
  pub delete_on_success : Bool
  pub strict_safety : Bool
  pub max_side_effect_level : Option SideEffectLevel
  pub approval_callback : Option (History → ApprovalContext → ApprovalAnswer)
  pub guardrail_callback : Option (History → GuardrailContext → Outcome (Unit {0}))
  pub decision_callback : Option (History → DecisionContext → DecisionAnswer)
  pub decision_policy : Option DecisionPolicy
  pub redact : Option (Context → Context)
  pub retryable : List String → Outcome (Exc → Bool)
  pub int_of : String → Option ℤ
  pub retrying : Retrying
  pub input_value_hash : Context → String
  pub in_replay : Bool
  pub dry_run : Bool
  pub dry_run_unsupported : DryRunUnsupported
  pub dynamic_params : Context
