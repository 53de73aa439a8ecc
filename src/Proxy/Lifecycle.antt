-- ===== src/Proxy/Lifecycle.antt =====
-- pkg/proxy/proxy.go: the proxy as an object, from its start to the end of its listeners.
pub mod Listening
pub mod Stopping
pub mod Ready
pub mod Draining
pub mod Ending
use s_ingress.Common.Texts.{Text, codes, text_eq}
use s_ingress.Common.{
  Bool, List, Option, Result, [], err, false, if◌then◌else◌, is_none, length, ltb, none, not, ok,
  some, suc, true, ℕ, ◌&&◌, ◌++◌, ◌∷◌,
}
use s_ingress.Proxy.Routing.{Returns, RoutingConfig, TcpProxyConfig, lookup_host, panic, value}

-- `Proxy`: what its methods read and write. A configuration is a pointer that may be nil; the
-- servers run until `serverCtx` is cancelled.
pub record Proxy : Type 0 where
  pub ready : Bool
  pub routing_config : Option RoutingConfig
  pub servers_cancelled : Bool

-- `NewProxy`
unfoldable pub new_proxy : Proxy
new_proxy = record { ready = false; routing_config = none; servers_cancelled = false }

-- `SetInitialConfig`
unfoldable pub set_initial_config : Option RoutingConfig → Proxy → Returns Proxy
set_initial_config conf p = elim p.routing_config [
  | none ↦ value (record p { routing_config = conf })
  | some _ ↦ panic
]

-- `IsConfiguredForHostname`, which reads the hosts through the pointer.
unfoldable pub is_configured_for_hostname : Proxy → Text → Returns Bool
is_configured_for_hostname p hostname = elim p.routing_config [
  | none ↦ panic
  | some conf ↦ value (elim (lookup_host conf hostname) [ none ↦ false | some _ ↦ true ])
]

-- `wrapErr`
unfoldable pub wrap_err : Text → Option Text → Option Text
wrap_err prefix none = none
wrap_err prefix (some e) = some (prefix ++ codes ": " ++ e)

-- The answers of `getStatusHandler` to "/readyz" and "/livez".
unfoldable pub readyz : Proxy → Text → ℕ
readyz p method =
    if not (text_eq method (codes "GET"))
    then 405
    else if p.ready && not (is_none p.routing_config)
    then 204
    else 503

unfoldable pub livez : Text → ℕ
livez method = if not (text_eq method (codes "GET")) then 405 else 204

-- What the loop of `Start` may receive: a configuration, the message of a listener that ended, or
-- the signal of `ctx`, which stays receivable once it was given.
pub data Event : Type 0 where
  reconfigured : Option RoutingConfig → Event
  ended : Option Text → Event
  signalled : Event

-- The proxy with the variables of the loop of `Start`.
pub record Serving : Type 0 where
  pub state : Proxy
  pub handler_errors : List (Option Text)
  pub shutdown_initiated : Bool

-- The statements of a round of the loop of `Start` that other goroutines can see, or that wait.
pub data Effect : Type 0 where
  stores_config : Option RoutingConfig → Effect
  keeps_error : Option Text → Effect
  stores_not_ready marks_shutdown pauses cancels_servers : Effect

abbrev pub perform : Effect → Serving → Serving
perform (stores_config conf) s = record s { state = record s.state { routing_config = conf } }
perform (keeps_error e) s = record s { handler_errors = s.handler_errors ++ e ∷ [] }
perform stores_not_ready s = record s { state = record s.state { ready = false } }
perform marks_shutdown s = record s { shutdown_initiated = true }
perform pauses s = s
perform cancels_servers s = record s { state = record s.state { servers_cancelled = true } }

abbrev pub perform_all : List Effect → Serving → Serving
perform_all [] s = s
perform_all (x ∷ xs) s = perform_all xs (perform x s)

-- The statements of one round, in their order.
abbrev pub effects_of : Event → Serving → List Effect
effects_of (reconfigured conf) s = stores_config conf ∷ []
effects_of (ended e) s = stores_not_ready ∷ keeps_error e ∷ cancels_servers ∷ []
effects_of signalled s =
    if s.shutdown_initiated
    then []
    else stores_not_ready ∷ marks_shutdown ∷ pauses ∷ cancels_servers ∷ []

-- One round of the loop of `Start`.
unfoldable pub handle_event : Event → Serving → Serving
handle_event e s = perform_all (effects_of e s) s

-- The loop that groups the errors. `fmt.Errorf` prints the nil error that it starts with.
unfoldable pub group_errors : Option Text → List (Option Text) → Option Text
group_errors grouped [] = grouped
group_errors grouped (none ∷ es) = group_errors grouped es
group_errors none (some e ∷ es) = group_errors (some (codes "%!w(<nil>) " ++ e)) es
group_errors (some g) (some e ∷ es) = group_errors (some (g ++ codes " " ++ e)) es

-- What has become of `Start`: it has returned, with the proxy that it leaves, or it is in the loop.
pub data Running : Type 0 where
  start_returned : Option Text → Proxy → Running
  still_serving : Serving → Running

unfoldable pub finish : Serving → Running
unfolding group_errors
finish s =
    start_returned (group_errors none s.handler_errors)
      (record s.state { servers_cancelled = true })

-- The loop of `Start` on the events in the order in which it receives them.
unfoldable pub serve_events : ℕ → List Event → Serving → Running
unfolding handle_event finish
serve_events handler_count [] s =
    if ltb (length s.handler_errors) handler_count then still_serving s else finish s
serve_events handler_count (e ∷ es) s =
    let rest = serve_events handler_count es (handle_event e s) in
    if ltb (length s.handler_errors) handler_count then rest else finish s

-- The state of the loop before its first round.
unfoldable pub begin_serving : Proxy → Serving
begin_serving p = record {
  state = record p { ready = true };
  handler_errors = [];
  shutdown_initiated = false;
}

-- The listeners of `startListeners`.
pub data Listener : Type 0 where
  https_server http_server quic_server status_server : Listener
  tcp_listener : TcpProxyConfig → Listener

-- What the `select` of `waitForConfig` receives; a context that is done has an error.
pub data First : Type 0 where
  first_config : Option RoutingConfig → First
  context_done : Text → First

-- `waitForConfig`: the error, and the proxy after it.
unfoldable pub wait_for_config : First → Proxy → Option Text × Proxy
wait_for_config (first_config conf) p = (none, record p { routing_config = conf })
wait_for_config (context_done e) p = (some e, p)

module _ (listen : Listener → Option Text) where
  -- The listeners one by one: the error, if the port cannot be opened. The server for QUIC opens
  -- its port later, in its goroutine. The number of the port is left out of the texts.
  abbrev pub start_https : Option Text
  start_https = wrap_err (codes "cannot listen for https") (listen https_server)

  abbrev pub start_http : Option Text
  start_http = wrap_err (codes "cannot listen for http") (listen http_server)

  abbrev pub start_quic : Option Text
  start_quic = none

  abbrev pub start_status : Option Text
  start_status = wrap_err (codes "cannot listen for http") (listen status_server)

  abbrev pub start_tcp_proxy : TcpProxyConfig → Option Text
  start_tcp_proxy conf = wrap_err (codes "cannot listen for tcp") (listen (tcp_listener conf))

  unfoldable pub start_listener : Listener → Option Text
  start_listener https_server = start_https
  start_listener http_server = start_http
  start_listener quic_server = start_quic
  start_listener status_server = start_status
  start_listener (tcp_listener conf) = start_tcp_proxy conf

  -- The loop over the TCP proxies, with the listeners that it has started.
  unfoldable pub start_tcp_proxies : ℕ → List TcpProxyConfig → Result Text ℕ × List Listener
  start_tcp_proxies listener_count [] = (ok listener_count, [])
  start_tcp_proxies listener_count (conf ∷ confs) =
      let (count, started) = start_tcp_proxies (suc listener_count) confs in
      elim (start_listener (tcp_listener conf)) [
        | some e ↦ (err (codes "start tcp proxy: " ++ e), [])
        | none ↦ (count, tcp_listener conf ∷ started)
      ]

  -- One of the four servers, and what follows unless it fails.
  unfoldable pub start_then :
      Text → Listener → Result Text ℕ × List Listener → Result Text ℕ × List Listener
  start_then prefix l (count, started) = elim (start_listener l) [
    | some e ↦ (err (prefix ++ e), [])
    | none ↦ (count, l ∷ started)
  ]

  -- `startListeners`: the count or an error, and the listeners that run by then.
  unfoldable pub start_listeners : Option RoutingConfig → Returns (Result Text ℕ × List Listener)
  unfolding start_then start_tcp_proxies
  start_listeners none = panic
  start_listeners (some cfg) = value (
      start_then (codes "start https: ") https_server (
        start_then (codes "start http: ") http_server (
          start_then (codes "start quic: ") quic_server (
            start_then (codes "start status: ") status_server
              (start_tcp_proxies 4 cfg.tcp_proxy)))))

  abbrev pub after_listeners : Proxy → List Event → Result Text ℕ × List Listener → Running
  after_listeners p events (err e, started) =
      start_returned (some e) (record p { servers_cancelled = true })
  after_listeners p events (ok handler_count, started) =
      serve_events handler_count events (begin_serving p)

  abbrev pub after_wait : List Event → Option Text × Proxy → Returns Running
  after_wait events (some e, p) =
      value (start_returned (some e) (record p { servers_cancelled = true }))
  after_wait events (none, p) = elim (start_listeners p.routing_config) [
    | panic ↦ panic
    | value listeners ↦ value (after_listeners p events listeners)
  ]

  -- `Start`, on what it receives first and on the events after that.
  unfoldable pub start : First → List Event → Proxy → Returns Running
  unfolding serve_events begin_serving start_listeners wait_for_config
  start first events p = after_wait events (wait_for_config first p)

-- `StartDummy`: it returns at the first signal, and has no listeners.
unfoldable pub start_dummy : List Event → Text → Proxy → Running
start_dummy [] context_error p =
    still_serving (record {
      state = record p { ready = true };
      handler_errors = [];
      shutdown_initiated = false;
    })
start_dummy (reconfigured conf ∷ es) context_error p =
    start_dummy es context_error (record p { routing_config = conf })
start_dummy (signalled ∷ es) context_error p =
    start_returned (some context_error) (record p { ready = true; servers_cancelled = true })
start_dummy (ended e ∷ es) context_error p = start_dummy es context_error p
