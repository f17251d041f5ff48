-- ===== src/Mcp/Server/Mode.antt =====
-- The mode in which errors reach the clients of a server that is served.
use chain_weaver.Common.{
  Bool, true, false, Option, none, some, List, [], ◌∷◌, ◌≡◌, refl, sym, ap, ◌∙◌, arith, ◌||◌, any,
}
use chain_weaver.Contracts.Levels.{SideEffectLevel}
use chain_weaver.Mcp.Readiness.{ErrorDetail, full_detail, type_only, McpServerProfile}
use chain_weaver.Mcp.Server.{
  TransportName, stdio, sse, streamable_http, is_network, FlowServer, is_given, new_server, tighten,
  preflight,
}

-- The mode that a server is in, by what it was given and by whether it was served on a network.
abbrev pub served_detail : Option ErrorDetail → Option McpServerProfile → Bool → ErrorDetail
served_detail (some error_detail) profile networked = error_detail
served_detail none (some profile) networked = profile.error_detail
served_detail none none true = type_only
served_detail none none false = full_detail

abbrev in_mode : Option ErrorDetail → Option McpServerProfile → Bool → FlowServer
in_mode error_detail profile networked = record {
  profile = profile;
  error_detail = served_detail error_detail profile networked;
  error_detail_explicit = is_given error_detail || is_given profile;
  gate_error_detail = served_detail error_detail profile networked;
}

new_server-in_mode :
    (error_detail : Option ErrorDetail) (profile : Option McpServerProfile)
    → new_server error_detail profile ≡ in_mode error_detail profile false
unfolding new_server
new_server-in_mode (some error_detail) profile = refl
new_server-in_mode none (some profile) = refl
new_server-in_mode none none = refl

tighten-in_mode :
    (error_detail : Option ErrorDetail) (profile : Option McpServerProfile) (networked : Bool)
    → tighten (in_mode error_detail profile networked) ≡ in_mode error_detail profile true
unfolding tighten
tighten-in_mode (some error_detail) profile networked = refl
tighten-in_mode none (some profile) networked = refl
tighten-in_mode none none true = refl
tighten-in_mode none none false = refl

module _ (has_authorizer has_authenticator has_rate_limiter : Bool)
    (exposed : List SideEffectLevel) where
  -- A server that is served on these transports, one after the other.
  abbrev pub after_serves : List TransportName → FlowServer → FlowServer
  after_serves [] server = server
  after_serves (transport ∷ transports) server =
      after_serves transports
        (preflight has_authorizer has_authenticator has_rate_limiter exposed transport server).0

  preflight-in_mode :
      (error_detail : Option ErrorDetail) (profile : Option McpServerProfile) (networked : Bool)
      (transport : TransportName)
      → (preflight has_authorizer has_authenticator has_rate_limiter exposed transport
          (in_mode error_detail profile networked)).0
        ≡ in_mode error_detail profile (is_network transport || networked)
  unfolding preflight
  preflight-in_mode error_detail profile networked stdio = refl
  preflight-in_mode error_detail profile networked sse =
      tighten-in_mode error_detail profile networked
  preflight-in_mode error_detail profile networked streamable_http =
      tighten-in_mode error_detail profile networked

  after_serves-in_mode :
      (error_detail : Option ErrorDetail) (profile : Option McpServerProfile) (networked : Bool)
      (transports : List TransportName)
      → after_serves transports (in_mode error_detail profile networked)
        ≡ in_mode error_detail profile (networked || any is_network transports)
  after_serves-in_mode error_detail profile networked [] =
      let same : networked ≡ (networked || false) = ground arith in
      ap (in_mode error_detail profile) same
  after_serves-in_mode error_detail profile networked (transport ∷ transports) =
      let swap : ((is_network transport || networked) || any is_network transports)
          ≡ (networked || (is_network transport || any is_network transports)) =
        ground arith in
      ap (after_serves transports) (preflight-in_mode error_detail profile networked transport)
      ∙ after_serves-in_mode error_detail profile (is_network transport || networked) transports
      ∙ ap (in_mode error_detail profile) swap

  -- However often a server is served, and on whatever transports, the gate renders errors in the
  -- server's own mode, and that is the mode that was given, or else the profile's, or else, where
  -- neither was, the full one until the server is served on a network for the first time and the
  -- type-only one from then on.
  pub after_serves-served_detail :
      (error_detail : Option ErrorDetail) (profile : Option McpServerProfile)
      (transports : List TransportName)
      → ((after_serves transports (new_server error_detail profile)).gate_error_detail
          ≡ (after_serves transports (new_server error_detail profile)).error_detail)
        × ((after_serves transports (new_server error_detail profile)).error_detail
            ≡ served_detail error_detail profile (any is_network transports))
  after_serves-served_detail error_detail profile transports =
      let whole =
        ap (after_serves transports) (new_server-in_mode error_detail profile)
        ∙ after_serves-in_mode error_detail profile false transports in
      (
        ap (λ s. s.gate_error_detail) whole ∙ sym (ap (λ s. s.error_detail) whole),
        ap (λ s. s.error_detail) whole,
      )
