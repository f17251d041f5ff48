-- ===== src/Executor/Invoke.antt =====
-- How chainweaver/executor.py invokes a tool: retries, and the wrapping of what it
-- raises.
pub mod Retry
pub mod Calls
use chain_weaver.Common.{
  ℕ, suc, ◌+◌, String, Bool, true, false, Option, none, some, List, [], ◌∷◌, ◌++◌, ◌&&◌, ◌||◌, not,
  if◌then◌else◌,
}
use chain_weaver.Value.{Context, pos}
use chain_weaver.Tools.{
  History, Exc, validation_error, tool_timeout, tool_output_size, tool_definition, other, Outcome,
  returned, raised, Tool, run,
}
use chain_weaver.Executor.Types.{
  Error, schema_validation_error, flow_execution_error, unwrapped, RetryNote, attempt_error,
  suppressed, RetryPolicy, Attempts, Executor,
}

-- `_wrap_tool_exception`
unfoldable pub wrap_tool_exception : String → ℕ → Exc → Error
wrap_tool_exception tool_name step_index (validation_error message) =
    schema_validation_error tool_name (pos step_index) message
wrap_tool_exception tool_name step_index (tool_timeout name) = unwrapped (tool_timeout name)
wrap_tool_exception tool_name step_index (tool_output_size name) = unwrapped (tool_output_size name)
wrap_tool_exception tool_name step_index (tool_definition message) =
    flow_execution_error tool_name step_index message
wrap_tool_exception tool_name step_index (other class message) =
    flow_execution_error tool_name step_index message

-- `_retry_disallowed_by_contract`
unfoldable pub retry_disallowed_by_contract : Tool → Bool
retry_disallowed_by_contract tool =
    let contract = tool.safety in
    if not contract.safe_to_retry then true else not contract.idempotent && not contract.read_only

-- One call of `tool.run(inputs)` that is counted, and noted if it raises.
noted : (Exc → RetryNote) → Attempts → Outcome Context × History → Outcome Context × Attempts
noted note a (returned outputs, h) =
    (returned outputs, record { calls = h; count = suc a.count; errors = a.errors })
noted note a (raised e, h) =
    (raised e, record { calls = h; count = suc a.count; errors = a.errors ++ note e ∷ [] })

unfoldable pub attempt : Tool → Context → (Exc → RetryNote) → Attempts → Outcome Context × Attempts
unfolding noted
attempt tool inputs note a = noted note a (run tool inputs a.calls)

module _ (ex : Executor) (tool : Tool) (inputs : Context) where
  -- The loop under a policy; an unresolvable exception reference raises before any attempt.
  invoke_retrying : RetryPolicy → Outcome (Exc → Bool) → Attempts → Outcome Context × Attempts
  invoke_retrying policy (raised e) a = (raised e, a)
  invoke_retrying policy (returned retry) a =
      ex.retrying (policy.max_retries + 1) retry (attempt tool inputs attempt_error) a

  -- `_invoke_tool`
  unfoldable pub invoke_tool : Option RetryPolicy → Attempts → Outcome Context × Attempts
  unfolding invoke_retrying attempt retry_disallowed_by_contract
  invoke_tool none a = attempt tool inputs attempt_error a
  invoke_tool (some policy) a =
      if ex.strict_safety && retry_disallowed_by_contract tool
      then attempt tool inputs suppressed a
      else invoke_retrying policy (ex.retryable policy.retryable_errors) a
