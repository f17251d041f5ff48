-- ===== src/Mcp/Server/Guarded.antt =====
-- What the dispatcher of a flow runs, and what it tells its client.
use chain_weaver.Common.{true, Option, List, ◌≡◌, refl}
use chain_weaver.Value.{Context}
use chain_weaver.Tools.{Exc, Outcome, returned, raised}
use chain_weaver.Executor.Types.{Run}
use chain_weaver.Mcp.Gate.{CallerIdentity, McpCall, AuditEvent, GateError, GateState, Passage}
use chain_weaver.Mcp.Gate.Verdict.{
  Identifies, Limits, Authorizes, Refusal, Verdict, passes, refuses,
}
use chain_weaver.Mcp.Gate.Verdict.Whole.{check-Verdict}
use chain_weaver.Mcp.Server.{
  Answer, denied, invalid, FlowServer, Dispatcher, answer_of, run_flow, after_check, dispatch,
}

module _ {S : Type 0} (server : FlowServer) (d : Dispatcher S) (call : McpCall) where
  -- What a call that passes the gate comes to: inputs that the schema refuses run nothing, and other
  -- inputs run the flow once, on what the schema makes of them.
  pub data Runs (r : Run) : Answer × Run → Type 0 where
    not_valid : (e : Exc) → d.input_schema call.raw_inputs ≡ raised e → Runs r (invalid e, r)
    runs :
        (data_in : Context)
        → d.input_schema call.raw_inputs ≡ returned data_in
        → Runs r (answer_of server d (d.execute data_in r).0, (d.execute data_in r).1)

  -- A call is refused by the gate, for one of the gate's reasons, and nothing is run; or each hook of
  -- the gate lets it pass.
  pub data Guarded (s : GateState S) (r : Run) : Answer × (GateState S × Run) → Type 0 where
    kept_out :
        (e : GateError) (events : List AuditEvent) (s' : GateState S)
        → Refusal d.gate call s.limiter s'.limiter events e
        → Guarded s r (denied e, (s', r))
    let_in :
        (caller : Option CallerIdentity) (answer : Answer) (s' : GateState S) (r' : Run)
        → Identifies d.gate call d.gate.authenticator caller
        → Limits d.gate call d.gate.rate_limiter caller true s.limiter s'.limiter
        → Authorizes d.gate call d.gate.authorizer caller
        → Runs r (answer, r')
        → Guarded s r (answer, (s', r'))

  run_flow-Runs :
      (inputs : Outcome Context) (r : Run)
      → d.input_schema call.raw_inputs ≡ inputs
      → Runs r (run_flow server d inputs r)
  unfolding run_flow
  run_flow-Runs (raised e) r same = not_valid e same
  run_flow-Runs (returned data_in) r same = runs data_in same

  Verdict-Guarded :
      (s : GateState S) (r : Run) (out : Passage (Option CallerIdentity) × GateState S)
      → Verdict d.gate call s out
      → Guarded s r (after_check server d call out r)
  unfolding after_check
  Verdict-Guarded s r _ (passes caller s' known admitted allowed events) =
      let_in caller _ s' _ known admitted allowed
        (run_flow-Runs (d.input_schema call.raw_inputs) r refl)
  Verdict-Guarded s r _ (refuses e events event s' why denies last) = kept_out e events s' why

  -- A flow is run only for a call that the gate lets pass: the caller is identified, within its limit
  -- and authorized, and the flow then runs once, on the inputs that its schema accepts. A call that
  -- the gate or the schema refuses leaves the run's state as it was, so that no tool is called.
  pub dispatch-Guarded : (s : GateState S) (r : Run) → Guarded s r (dispatch server d call s r)
  unfolding dispatch
  dispatch-Guarded s r = Verdict-Guarded s r _ (check-Verdict d.gate call s)
