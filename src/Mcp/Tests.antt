-- ===== src/Mcp/Tests.antt =====
-- The theorems on the MCP server at a small server: one caller, two flows and a limit of two calls.
use chain_weaver.Common.{
  ℕ, String, Bool, true, false, Option, none, some, List, [], ◌∷◌, ◌≡◌, ◌≤◌, refl, arith, ◌*◌, ◌==◌,
  ◌&&◌, ◌||◌, not, any, if◌then◌else◌,
}
use chain_weaver.Dict.{lookup, insert}
use chain_weaver.Contracts.Levels.{no_effects, read, stable, full, ToolSafetyContract}
use chain_weaver.Governance.{FlowLifecycle, active, draft, FlowGovernance}
use chain_weaver.Mcp.RateLimit.{RateLimiter, Hits, Request, acquire, serve, permitted}
use chain_weaver.Mcp.RateLimit.Bound.{permitted-le}
use chain_weaver.Mcp.RateLimit.Sweep.{tracking, serve-tracking}
use chain_weaver.Mcp.Gate.{
  CallerIdentity, McpRequestContext, Authentication, identified, nobody, AuthorizationContext,
  Authorization, flag, McpCall, RequestGate, GateState, check,
}
use chain_weaver.Mcp.Gate.Verdict.{Verdict}
use chain_weaver.Mcp.Gate.Verdict.Whole.{check-Verdict}
use chain_weaver.Mcp.Readiness.{type_only, generic, strict, evaluate_readiness, detail_eq}
use chain_weaver.Mcp.Readiness.Verdict.{is_listed, is_blocking, is_advice, evaluate_readiness-any}
use chain_weaver.Executor.Result.{never}
use chain_weaver.Executor.Linear.{execute_linear}
use chain_weaver.Executor.Samples.{any_payload, live_job, fresh}
use chain_weaver.Mcp.Server.{stdio, sse, new_server, Dispatcher, dispatch}
use chain_weaver.Mcp.Server.Mode.{after_serves, after_serves-served_detail}
use chain_weaver.Mcp.Server.Guarded.{Guarded, dispatch-Guarded}
use chain_weaver.Mcp.Exposure.{
  ServedFlow, ServedTool, Exposure, Exposed, register_all_flows, flows_to_expose, found_flows,
  latest_of, expose_flows, expose_flow, unless_excluded, register_flow_tool,
  implicit_exclusion_reason, safety_exclusion, resolve_flow_safety, explicit_or, merged_safety,
  step_safeties,
}
use chain_weaver.Mcp.Exposure.Governed.{IsExposure, register_all_flows-IsExposure}

abbrev two_a_minute : RateLimiter
two_a_minute = record { max_calls = 2; window_seconds = 60; per_flow = false; max_tracked = 1 }

abbrev by_caller : String → ℕ → Request
by_caller id now = record { caller = some id; flow_name = "sync"; now = now }

abbrev burst : List Request
burst = by_caller "ann" 5 ∷ by_caller "bob" 6 ∷ by_caller "ann" 7 ∷ by_caller "ann" 8 ∷ []

permitted-le_example :
    (permitted two_a_minute ("ann", "") burst [] ≤ 2)
    × (permitted two_a_minute ("ann", "") burst (serve two_a_minute (by_caller "ann" 1 ∷ []) []).1
        ≤ 2 * 2)
permitted-le_example =
    permitted-le two_a_minute 5 ("ann", "") (by_caller "ann" 1 ∷ []) burst
      (
        (omega arith, omega arith),
        (
          (omega arith, omega arith),
          ((omega arith, omega arith), ((omega arith, omega arith), tt)),
        ),
      )

serve-tracking_example :
    (serve two_a_minute burst []).0 ≡ (serve (tracking two_a_minute 10000) burst []).0
serve-tracking_example =
    serve-tracking two_a_minute 10000 0 burst
      (omega arith, (omega arith, (omega arith, (omega arith, tt))))

abbrev ann : CallerIdentity
ann = record { id = "ann"; scopes = "flows:run" ∷ []; metadata = [] }

abbrev by_token : McpRequestContext → Authentication
by_token ctx = elim (lookup "authorization" ctx.http_headers) [
  | none ↦ nobody
  | some token ↦ if token == "Bearer t1" then identified ann else nobody
]

abbrev acquire_for : Option CallerIdentity → String → Hits → Bool × Hits
acquire_for none flow_name hits = acquire two_a_minute none flow_name 5 hits
acquire_for (some caller) flow_name hits = acquire two_a_minute (some caller.id) flow_name 5 hits

abbrev only_sync : AuthorizationContext → Authorization
only_sync ctx = flag (ctx.flow_name == "sync")

abbrev guarded : RequestGate Hits
guarded = record {
  authenticator = some by_token;
  rate_limiter = some acquire_for;
  authorizer = some only_sync;
  summarize = λ inputs. inputs;
}

abbrev call_with : String → McpCall
call_with token = record {
  request_id = "r1";
  flow_name = "sync";
  flow_version = "1.0.0";
  mcp_tool_name = "sync";
  raw_inputs = [];
  safety = none;
  http_headers = ("authorization", token) ∷ [];
}

abbrev at_rest : GateState Hits
at_rest = record { limiter = []; audit = [] }

check-Verdict_example :
    Verdict guarded (call_with "Bearer t1") at_rest (check guarded (call_with "Bearer t1") at_rest)
check-Verdict_example = check-Verdict guarded (call_with "Bearer t1") at_rest

evaluate_readiness-any_example :
    (any is_blocking (evaluate_readiness strict false true false generic (read ∷ [])) ≡ (
      true && not false
      || (true && not true || any (λ l. not (is_listed l (no_effects ∷ read ∷ []))) (read ∷ []))))
    × (any is_advice (evaluate_readiness strict false true false generic (read ∷ []))
        ≡ (false && not false || not (detail_eq generic generic)))
evaluate_readiness-any_example = evaluate_readiness-any strict false true false generic (read ∷ [])

abbrev reading : ToolSafetyContract
reading = record {
  side_effects = read;
  read_only = true;
  stability = stable;
  determinism_level = full;
  idempotent = true;
  cacheable = true;
  safe_to_retry = true;
  supports_dry_run = false;
  requires_approval = false;
  approval_reason = none;
}

abbrev governed_by : FlowLifecycle → FlowGovernance
governed_by lifecycle = record {
  lifecycle = lifecycle;
  owner = none;
  replaces_tools = [];
  estimated_model_calls_removed = 0;
  estimated_token_savings = none;
  reviewed_by = none;
  review_notes = none;
}

abbrev served : String → FlowLifecycle → ServedFlow
served name lifecycle = record {
  name = name;
  version = "1.0.0";
  governance = governed_by lifecycle;
  safety = some reading;
  tool_names = some "fetch" ∷ [];
}

abbrev defaults : Exposure
defaults = record {
  flow_names = none;
  server_prefix = "cw";
  force_expose = false;
  allowed_lifecycles = active ∷ [];
  allowed_side_effects = no_effects ∷ read ∷ [];
  owners = none;
  allow_requires_approval = false;
}

abbrev one_exposed : Exposed
one_exposed = record {
  tools = ("cw__sync", (served "sync" active, some reading)) ∷ [];
  side_effects = read ∷ [];
}

abbrev no_flow : String → Option ServedFlow
no_flow name = none

abbrev no_tool : String → Option ServedTool
no_tool name = none

abbrev never_newer : String → String → Bool
never_newer v w = false

exposes :
    register_all_flows defaults never_newer
      (served "sync" active ∷ served "draft" draft ∷ [])
      no_flow
      no_tool
    ≡ some one_exposed
unfolding register_all_flows flows_to_expose found_flows latest_of expose_flows expose_flow
    unless_excluded register_flow_tool implicit_exclusion_reason safety_exclusion
    resolve_flow_safety explicit_or merged_safety step_safeties lookup insert
exposes = refl

register_all_flows-IsExposure_example : IsExposure defaults no_tool one_exposed
register_all_flows-IsExposure_example =
    register_all_flows-IsExposure defaults no_tool never_newer
      (served "sync" active ∷ served "draft" draft ∷ []) no_flow one_exposed refl exposes

after_serves-served_detail_example :
    ((after_serves false false false
        (read ∷ [])
        (stdio ∷ sse ∷ stdio ∷ [])
        (new_server none none)).gate_error_detail
      ≡ (after_serves false false false
          (read ∷ [])
          (stdio ∷ sse ∷ stdio ∷ [])
          (new_server none none)).error_detail)
    × ((after_serves false false false
          (read ∷ [])
          (stdio ∷ sse ∷ stdio ∷ [])
          (new_server none none)).error_detail
        ≡ type_only)
after_serves-served_detail_example =
    after_serves-served_detail false false false (read ∷ []) none none (stdio ∷ sse ∷ stdio ∷ [])

abbrev sync_dispatcher : Dispatcher Hits
sync_dispatcher = record {
  gate = guarded;
  error_redaction = none;
  input_schema = any_payload;
  output_schema = none;
  kind_of = λ e. "FlowExecutionError";
  text_of = λ e. "failed";
  execute = λ inputs r. execute_linear (record live_job { initial_input = inputs }) never r;
}

dispatch-Guarded_example :
    Guarded
      (new_server none none)
      sync_dispatcher
      (call_with "Bearer t2")
      at_rest
      fresh
      (dispatch (new_server none none) sync_dispatcher (call_with "Bearer t2") at_rest fresh)
dispatch-Guarded_example =
    dispatch-Guarded (new_server none none) sync_dispatcher (call_with "Bearer t2") at_rest fresh
