-- ===== src/Examples/Sessions.antt =====
-- The theorems about sessions at one of a member, and about the choice of certificates and routes.
use s_ingress.Common.Int.{pos}
use s_ingress.Common.Texts.{codes, text_eq}
use s_ingress.Common.{
  In, In-cons, List, [], ap, false, here, inl, inr, none, ok, refl, some, sym, there, true, ◌++◌,
  ◌∙◌, ◌∷◌, ◌≡◌, ◌⊎◌,
}
use s_ingress.Controller.Merging.{IsProvided}
use s_ingress.Controller.Provenance.{get_proxy_config-routes}
use s_ingress.Controller.ProxyConfig.{
  get_connection_modules, get_proxy_config, merge_certificates, merge_entries, merge_entry,
  merge_hosts, merge_routes,
}
use s_ingress.Controller.Selection.{IsBestProvided, get_proxy_config-selects}
use s_ingress.Controller.ServerNames.{get_certificate-get_proxy_config}
use s_ingress.Examples.Logins.{member}
use s_ingress.Examples.Objects.{merged_config, state}
use s_ingress.Examples.Samples.{context, root, strict_services}
use s_ingress.Modules.Instances.{request_middleware}
use s_ingress.Modules.Oidc.Renewal.{
  IsLossless, extract_auth_info-generate_jwt_cookie, handle_renewing_auth_info-validity,
}
use s_ingress.Modules.Oidc.Session.{
  extract_auth_info, extracted, generate_jwt_cookie, handle_renewing_auth_info, validate_info,
}
use s_ingress.Modules.Services.{Services}
use s_ingress.Modules.Sockets.Session.Relayed.{IsSound, run_session-IsSound}
use s_ingress.Modules.Sockets.Session.Returning.{IsOver, run_session-returns}
use s_ingress.Modules.Sockets.Session.Turns.{FailsClosed}
use s_ingress.Modules.Sockets.Session.{
  Turn, downstream_side, handles, has_ended, pump_reads, run_session, upgraded, upstream_side,
}
use s_ingress.Modules.Sockets.{
  Frame, SocketRead, close_frame, data_message, delivered, net_closed, ping_or_pong, proxy_socket,
}
use s_ingress.Proxy.Closures.{ClientConfig}
use s_ingress.Proxy.Context.{Cookie}
use s_ingress.Proxy.Listeners.{get_certificate}
use s_ingress.Proxy.Routing.Lookup.{IsSliceable}
use s_ingress.Proxy.Routing.{
  RouteConfig, add_route, insert_prefix, lookup_route, matches_path, value,
}

abbrev lasting_client : ClientConfig
lasting_client = record {
  name = codes "idp";
  callback_domain = codes "login.example";
  cookie_domain = codes "example";
  expiration = pos 3_600_000_000_000;
  encryption_key = codes "k";
}

abbrev remembering : Services
remembering = record strict_services {
  decrypt = λ k t. some t;
  unmarshal = λ t. some member;
  cookie_of = λ h n. some (codes "u1");
}

abbrev session_cookie : Cookie
session_cookie = record {
  name = codes "_oidq_idp";
  value_text = codes "u1";
  max_age = pos 3600;
  secure = context.r.tls;
  http_only = true;
  cookie_path = codes "/";
  domain = codes "example";
}

remembering-IsLossless : IsLossless remembering member
remembering-IsLossless = record {
  decrypts = λ key plain encrypted serialized e f. sym f ∙ sym e;
  unmarshals = refl;
}

extract_auth_info-generate_jwt_cookie_example :
    extract_auth_info remembering lasting_client context ≡ extracted member
unfolding generate_jwt_cookie
extract_auth_info-generate_jwt_cookie_example =
    extract_auth_info-generate_jwt_cookie remembering lasting_client member context context
      session_cookie remembering-IsLossless refl refl

handle_renewing_auth_info-validity_example :
    validate_info remembering lasting_client
      (handle_renewing_auth_info remembering lasting_client member context).0
    ≡ validate_info remembering lasting_client member
handle_renewing_auth_info-validity_example =
    handle_renewing_auth_info-validity remembering lasting_client member context refl refl

get_certificate-get_proxy_config_example :
    get_certificate (some merged_config) (codes "a.example") ≡ ok none
unfolding get_proxy_config merge_entries merge_entry merge_hosts merge_routes merge_certificates
    get_connection_modules request_middleware add_route insert_prefix s_ingress.Common.lookup
    s_ingress.Common.insert
get_certificate-get_proxy_config_example =
    get_certificate-get_proxy_config state merged_config (codes "a.example") refl

root_path : {r : RouteConfig} → r ≡ root → r.path ≡ [] → ⊥
root_path p e = let q : codes "/" ≡ [] = ap (λ r. r.path) (sym p) ∙ e in cc

site-IsSliceable :
    (r : RouteConfig) → IsProvided r (codes "a.example") state.ingresses → IsSliceable r
unfolding get_proxy_config merge_entries merge_entry merge_hosts merge_routes merge_certificates
    get_connection_modules request_middleware add_route insert_prefix s_ingress.Common.lookup
    s_ingress.Common.insert text_eq
site-IsSliceable r i kind e =
    let m : In r (root ∷ []) =
      ((get_proxy_config-routes state merged_config refl (codes "a.example")).0 r).1 i in
    elim (In-cons m) [ inl p ↦ root_path p e | inr n ↦ elim n [ ] ]

get_proxy_config-selects_example :
    ((lookup_route (record { routes = root ∷ [] }) (codes "/x") ≡ value none)
      × ((r : RouteConfig)
          → IsProvided r (codes "a.example") state.ingresses
          → matches_path r (codes "/x") ≡ value false))
    ⊎ ((r : RouteConfig) × (lookup_route (record { routes = root ∷ [] }) (codes "/x")
          ≡ value (some r))
        × IsBestProvided (codes "a.example") state.ingresses (codes "/x") r)
unfolding get_proxy_config merge_entries merge_entry merge_hosts merge_routes merge_certificates
    get_connection_modules request_middleware add_route insert_prefix s_ingress.Common.lookup
    s_ingress.Common.insert text_eq
get_proxy_config-selects_example =
    get_proxy_config-selects state merged_config (codes "a.example") (record { routes = root ∷ [] })
      (codes "/x") refl refl site-IsSliceable

abbrev hello : Frame
hello = record { message_type = 1; payload = codes "hello" }

abbrev echo_turns : List Turn
echo_turns =
    pump_reads downstream_side (data_message hello delivered)
    ∷ handles
    ∷ pump_reads upstream_side (ping_or_pong hello delivered)
    ∷ pump_reads upstream_side (close_frame hello delivered)
    ∷ handles
    ∷ pump_reads downstream_side net_closed
    ∷ handles
    ∷ []

-- Of a connection that is closed, every read says so.
abbrev closed_read : SocketRead → SocketRead
closed_read r = net_closed

closed_read-FailsClosed : FailsClosed closed_read
unfolding has_ended proxy_socket
closed_read-FailsClosed r = refl

run_session-IsSound_example : IsSound (run_session closed_read upgraded echo_turns)
run_session-IsSound_example = run_session-IsSound closed_read echo_turns

-- The other side closes the connection.
abbrev first_turns : List Turn
first_turns = pump_reads upstream_side (close_frame hello delivered) ∷ []

abbrev last_turns : List Turn
last_turns =
    pump_reads upstream_side (data_message hello delivered)
    ∷ pump_reads downstream_side (data_message hello delivered)
    ∷ []

run_session-returns_example :
    IsOver closed_read
      (run_session closed_read upgraded (first_turns ++ (handles ∷ last_turns ++ handles ∷ [])))
unfolding has_ended proxy_socket
run_session-returns_example =
    run_session-returns closed_read closed_read-FailsClosed first_turns last_turns
      (inr (upstream_side, (close_frame hello delivered, here, refl)))
      (data_message hello delivered, here) (data_message hello delivered, there here)
