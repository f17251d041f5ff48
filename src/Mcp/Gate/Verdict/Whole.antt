-- ===== src/Mcp/Gate/Verdict/Whole.antt =====
-- The verdict of the gate: its hooks one after the other.
use chain_weaver.Common.{
  true, false, Option, List, [], ◌∷◌, ◌++◌, ◌≡◌, sym, ap, subst, ◌∙◌, append_nil, append_assoc,
}
use chain_weaver.Mcp.Gate.{
  CallerIdentity, AuditEvent, GateError, McpCall, RequestGate, GateState, Passage, refuse,
  rate_limit, authorize, and_then, check,
}
use chain_weaver.Mcp.Gate.Verdict.{
  Identifies, Limits, authenticated, limited, Refusal, not_identified, throttled, not_authorized,
  Verdict, passes, refuses, Denies,
}
use chain_weaver.Mcp.Gate.Verdict.Hooks.{
  Authenticates, known, unknown, Limited, below, above, Decides, permits, forbids,
  authenticate-Authenticates, rate_limit-Limited, authorize-Decides,
}

-- What is added to a log in two steps.
grows_twice {ℓ} :
    {A : Type ℓ} (a b c xs ys : List A) → b ≡ a ++ xs → c ≡ b ++ ys → c ≡ a ++ (xs ++ ys)
grows_twice a b c xs ys first second = second ∙ ap (λ l. l ++ ys) first ∙ sym (append_assoc a xs ys)

module _ {S : Type 0} (gate : RequestGate S) (call : McpCall) where
  -- The events so far, and one refusal.
  refused_after :
      (s s1 s2 : GateState S) (events : List AuditEvent) (e : GateError)
      → s1.audit ≡ s.audit ++ events
      → Denies gate call s1 [] s2 e
      → Refusal gate call s.limiter s2.limiter events e
      → Verdict gate call s (refuse e, s2)
  refused_after s s1 s2 events e so_far (event, denies, last) why =
      refuses e events event s2 why denies
        (grows_twice s.audit s1.audit s2.audit events (event ∷ []) so_far last)

  Decides-Verdict :
      (caller : Option CallerIdentity) (s s1 : GateState S)
      (out : Passage (Option CallerIdentity) × GateState S)
      → Identifies gate call gate.authenticator caller
      → Limits gate call gate.rate_limiter caller true s.limiter s1.limiter
      → s1.audit ≡ s.audit ++ (authenticated gate call caller ++ limited gate call caller)
      → Decides gate call gate.authorizer caller s1 out
      → Verdict gate call s out
  Decides-Verdict caller s s1 _ known_as admitted so_far (permits s2 allowed same last) =
      passes caller s2 known_as
        (subst (λ l. Limits gate call gate.rate_limiter caller true s.limiter l) (sym same)
          admitted)
        allowed (grows_twice s.audit s1.audit s2.audit _ _ so_far last)
  Decides-Verdict caller s s1 _ known_as admitted so_far
        (forbids flow_name reason_code s2 no_way same denied) =
      refused_after s s1 s2 _ _ so_far denied (
        not_authorized caller flow_name reason_code known_as
          (subst (λ l. Limits gate call gate.rate_limiter caller true s.limiter l) (sym same)
            admitted)
          no_way)

  Limited-Verdict :
      (caller : Option CallerIdentity) (s s1 : GateState S)
      (out : Passage (Option CallerIdentity) × GateState S)
      → Identifies gate call gate.authenticator caller
      → s1.limiter ≡ s.limiter
      → s1.audit ≡ s.audit ++ authenticated gate call caller
      → Limited gate call gate.rate_limiter caller s1 out
      → Verdict gate call s (and_then gate call out (authorize gate call gate.authorizer))
  unfolding and_then
  Limited-Verdict caller s s1 _ known_as same so_far (below s2 admitted last) =
      Decides-Verdict caller s s2 _ known_as
        (subst (λ l. Limits gate call gate.rate_limiter caller true l s2.limiter) same admitted)
        (grows_twice s.audit s1.audit s2.audit _ _ so_far last)
        (authorize-Decides gate call gate.authorizer caller s2)
  Limited-Verdict caller s s1 _ known_as same so_far
        (above flow_name reason_code s2 exceeded denied) =
      refused_after s s1 s2 _ _ so_far denied (
        throttled caller flow_name reason_code known_as
          (subst (λ l. Limits gate call gate.rate_limiter caller false l s2.limiter) same exceeded))

  Authenticates-Verdict :
      (s : GateState S) (out : Passage (Option CallerIdentity) × GateState S)
      → Authenticates gate call gate.authenticator s out
      → Verdict gate call s (
          and_then gate call
            (and_then gate call out (rate_limit gate call gate.rate_limiter))
            (authorize gate call gate.authorizer))
  unfolding and_then
  Authenticates-Verdict s _ (known caller s1 known_as same so_far) =
      Limited-Verdict caller s s1 _ known_as same so_far
        (rate_limit-Limited gate call gate.rate_limiter caller s1)
  Authenticates-Verdict s _ (unknown flow_name reason_code s1 same nobody_known denied) =
      refused_after s s s1 [] _ (sym (append_nil s.audit)) denied
        (not_identified flow_name reason_code same nobody_known)

  -- The gate lets a call pass exactly where each of its hooks does: the authenticator names the
  -- caller, the limiter has room for that caller and the authorizer allows that caller's call, which
  -- leaves one event of each hook in this order. Otherwise it is the first hook that does not let the
  -- call pass that refuses it, with an error and one event that say so with the same reason; a call of
  -- an unknown caller does not reach the limiter. Hooks that are not there let every call pass.
  pub check-Verdict : (s : GateState S) → Verdict gate call s (check gate call s)
  unfolding check
  check-Verdict s =
      Authenticates-Verdict s _ (authenticate-Authenticates gate call gate.authenticator s)
