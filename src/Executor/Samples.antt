-- ===== src/Executor/Samples.antt =====
-- A small executor and flow at which the theorems on the executor are tried.
use chain_weaver.Common.{
  String, Bool, true, false, Option, none, some, List, [], ◌∷◌, ◌==◌, nat_eq, all, if◌then◌else◌,
}
use chain_weaver.Value.{num, pos}
use chain_weaver.Contracts.Levels.{SideEffectLevel, read, write, stable, full, ToolSafetyContract}
use chain_weaver.Tools.{History, Exc, other, Outcome, returned, raised, Callable, Schema, Tool}
use chain_weaver.Executor.Types.{
  ApprovalAnswer, decided, approve, ApprovalContext, FlowStep, fail, Source, key, literal,
  RetryPolicy, warn, collision_error, Attempts, Flow, StepRecord, Run, dry_skip, Executor,
}
use chain_weaver.Executor.Invoke.Retry.{documented}
use chain_weaver.Executor.Result.{Job, Cancel}

abbrev pub any_payload : Schema
any_payload payload = returned payload

abbrev safety_of : SideEffectLevel → Bool → ToolSafetyContract
safety_of level approval = record {
  side_effects = level;
  read_only = if approval then false else true;
  stability = stable;
  determinism_level = full;
  idempotent = true;
  cacheable = true;
  safe_to_retry = true;
  supports_dry_run = false;
  requires_approval = approval;
  approval_reason = none;
}

abbrev tool_of : String → ToolSafetyContract → Callable → Tool
tool_of name safety fn = record {
  name = name;
  input_schema = any_payload;
  output_schema = any_payload;
  fn = fn;
  dry_run_fn = none;
  timeout_seconds = none;
  max_output_size = none;
  json_size = λ outputs. 2;
  schema_hash = "h1";
  cacheable = true;
  safety = safety;
}

-- It answers with a fixed count, but fails when it is the first call of the run.
abbrev fetch_fn : Callable
fetch_fn [] inputs = record { duration = 1; outcome = raised (other "OSError" "timed out") }
fetch_fn (call ∷ h) inputs = record {
  duration = 1;
  outcome = returned (("rows", num (pos 3)) ∷ []);
}

abbrev save_fn : Callable
save_fn h inputs = record { duration = 1; outcome = returned (("saved", num (pos 3)) ∷ []) }

abbrev pub fetch : Tool
fetch = tool_of "fetch" (safety_of read false) fetch_fn

abbrev pub save : Tool
save = tool_of "save" (safety_of write true) save_fn

abbrev pub approving : History → ApprovalContext → ApprovalAnswer
approving h ctx = decided approve

abbrev is_os_error : Exc → Bool
is_os_error (other class message) = class == "OSError"
is_os_error _ = false

-- One class is known; any other reference does not resolve.
abbrev resolved : List String → Outcome (Exc → Bool)
resolved [] = returned (λ e. false)
resolved (name ∷ names) =
    if all (λ n. n == "builtins:OSError") (name ∷ names)
    then returned is_os_error
    else raised (other "FlowSerializationError" name)

abbrev executor_of : Bool → Executor
executor_of dry = record {
  tools = ("fetch", fetch) ∷ ("save", save) ∷ [];
  step_cache = false;
  checkpointer = true;
  delete_on_success = true;
  strict_safety = true;
  max_side_effect_level = some write;
  approval_callback = some approving;
  guardrail_callback = none;
  decision_callback = none;
  decision_policy = none;
  redact = none;
  retryable = resolved;
  int_of = λ text. if text == "1" then some (pos 1) else none;
  retrying = documented;
  input_value_hash = λ inputs. "v1";
  in_replay = false;
  dry_run = dry;
  dry_run_unsupported = dry_skip;
  dynamic_params = [];
}

abbrev pub live_executor : Executor
live_executor = executor_of false

abbrev pub retry_twice : RetryPolicy
retry_twice = record { max_retries = 2; retryable_errors = "builtins:OSError" ∷ [] }

abbrev step_of : String → List (String × Source) → FlowStep
step_of name mapping = record {
  tool_name = name;
  input_mapping = mapping;
  output_mapping = none;
  retry = some retry_twice;
  on_error = fail;
  decision_candidates = none;
  input_contract = none;
  output_contract = none;
}

abbrev pub fetch_step : FlowStep
fetch_step = step_of "fetch" (("source", literal (num (pos 7))) ∷ [])

abbrev pub save_step : FlowStep
save_step = step_of "save" (("rows", key "rows") ∷ [])

abbrev pub sync : Flow
sync = record {
  name = "sync";
  version = "1.0.0";
  steps = fetch_step ∷ save_step ∷ [];
  input_schema = none;
  output_schema = none;
  context_schema = none;
  on_context_collision = warn;
}

abbrev pub get_sync : String → Option Flow
get_sync name = if name == "sync" then some sync else none

abbrev job_under : Executor → Job
job_under ex = record { ex = ex; flow = sync; trace_id = "t1"; initial_input = [] }

abbrev pub live_job : Job
live_job = job_under live_executor

abbrev pub dry_job : Job
dry_job = job_under (executor_of true)

-- Cancelled before the step 1.
abbrev pub after_first : Cancel
after_first = record { deadline = none; clock = λ i. 0; token = some (λ i. nat_eq i 1) }

abbrev pub fresh : Run
fresh = record { calls = []; events = []; cache = []; snapshots = []; decision_count = 0 }

abbrev pub no_attempts : Attempts
no_attempts = record { calls = []; count = 0; errors = [] }

-- The same flow, with an error on a key collision.
abbrev pub strict_job : Job
strict_job = record live_job { flow = record sync { on_context_collision = collision_error } }

abbrev pub saved_record : StepRecord
saved_record = record {
  step_index = pos 1;
  tool_name = "save";
  inputs = [];
  outputs = some (("saved", num (pos 3)) ∷ []);
  error = none;
  success = true;
  retry_count = 0;
  retry_errors = [];
  skipped = false;
  cached = false;
  fallback_used = false;
  fallback_tool_name = none;
  approval = none;
  decision = none;
}
