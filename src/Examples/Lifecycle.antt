-- ===== src/Examples/Lifecycle.antt =====
-- The theorems about the start and the end of the proxy, with one TCP proxy on port 25.
use s_ingress.Common.Net.{v4}
use s_ingress.Common.Texts.{Text, codes}
use s_ingress.Common.{
  List, Option, Result, [], arith, false, length, none, refl, some, true, ℕ, ◌+◌, ◌∷◌, ◌≡◌, ◌≤◌,
}
use s_ingress.Proxy.Lifecycle.Ending.{Ends, start-early, start-ends, total}
use s_ingress.Proxy.Lifecycle.Listening.{Starts, all_listeners, start_listeners-Starts}
use s_ingress.Proxy.Lifecycle.Ready.{readyz-serve_events}
use s_ingress.Proxy.Lifecycle.Stopping.{Stands, handle_events, messages, serve_events-Stands}
use s_ingress.Proxy.Lifecycle.{
  Event, Listener, Proxy, Serving, begin_serving, ended, finish, first_config, group_errors,
  handle_event, new_proxy, readyz, reconfigured, serve_events, signalled, start, start_listeners,
  start_returned, status_server,
}
use s_ingress.Proxy.Listeners.{ServerError, shut_down, shutdown_last}
use s_ingress.Proxy.Routing.{RoutingConfig, TcpProxyConfig, value}
use s_ingress.Proxy.Tcp.{aborted, accept_loop, close_messages, refused, tcp_messages}

abbrev mail : TcpProxyConfig
mail = record {
  use_proxy_protocol = false;
  port = 25;
  endpoint_addr = record { addr = v4 0x0A000002; port = 2525 };
}

abbrev pub mail_config : RoutingConfig
mail_config = record {
  hosts = [];
  tls_certificates = [];
  default_tls_certificate = none;
  tcp_proxy = mail ∷ [];
  request_middlewares = [];
  trusted_proxies = [];
  error_page = none;
}

abbrev pub all_free : Listener → Option Text
all_free l = none

abbrev status_taken : Listener → Option Text
status_taken status_server = some (codes "address already in use")
status_taken l = none

abbrev closed_error : ServerError
closed_error = record {
  text = codes "http: Server closed";
  is_http_closed = true;
  is_quic_closed = false;
}

abbrev pub clean_ends : Ends
clean_ends = record {
  server_run = λ l. shut_down none (some closed_error) shutdown_last;
  accepts = λ conf. aborted ∷ refused (codes "use of closed network connection") ∷ [];
  close_error = λ conf. none;
}

abbrev pub ended_cleanly : List Event
ended_cleanly = ended none ∷ ended none ∷ ended none ∷ ended none ∷ ended none ∷ []

serve_events-Stands_example :
    Stands 2 new_proxy
      (signalled ∷ ended none ∷ ended (some (codes "https: closed")) ∷ ended none ∷ [])
      (start_returned
        (some (codes "%!w(<nil>) https: closed"))
        (record { ready = false; routing_config = none; servers_cancelled = true }))
unfolding serve_events handle_event finish group_errors begin_serving new_proxy
serve_events-Stands_example =
    serve_events-Stands 2 new_proxy
      (signalled ∷ ended none ∷ ended (some (codes "https: closed")) ∷ ended none ∷ [])

start-ends_example :
    (e : Option Text) × (q : Proxy) × (start all_free
        (first_config (some mail_config))
        (signalled ∷ ended none ∷ ended_cleanly)
        new_proxy
      ≡ value (start_returned e q))
unfolding tcp_messages accept_loop close_messages
start-ends_example =
    start-ends all_free clean_ends mail_config new_proxy (signalled ∷ ended none ∷ ended_cleanly)
      (λ l. refl) (omega arith)

start-early_example :
    ((e : Option Text) × (q : Proxy) × (start all_free
          (first_config (some mail_config))
          ended_cleanly
          new_proxy
        ≡ value (start_returned e q)))
    × (length (messages ended_cleanly) + length mail_config.tcp_proxy
        ≤ total clean_ends (all_listeners mail_config))
unfolding accept_loop
start-early_example =
    start-early all_free clean_ends mail_config new_proxy ended_cleanly (λ l. refl) (λ conf. refl)
      refl

readyz-serve_events_example :
    readyz
      (record { ready = true; routing_config = some mail_config; servers_cancelled = false })
      (codes "GET")
    ≡ 204
unfolding serve_events handle_event begin_serving new_proxy
readyz-serve_events_example =
    readyz-serve_events 5 new_proxy (reconfigured (some mail_config) ∷ [])
      (record {
        state = record {
          ready = true;
          routing_config = some mail_config;
          servers_cancelled = false;
        };
        handler_errors = [];
        shutdown_initiated = false;
      })
      refl refl

abbrev drained : Serving
drained = handle_events (reconfigured (some mail_config) ∷ []) (begin_serving new_proxy)

start_listeners-Starts_example :
    (r : Result Text ℕ × List Listener) × (start_listeners status_taken (some mail_config)
      ≡ value r)
    × Starts status_taken 0 (all_listeners mail_config) r.0 r.1
start_listeners-Starts_example = start_listeners-Starts status_taken mail_config
