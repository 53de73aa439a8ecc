-- ===== src/Program/Readiness.antt =====
-- cmd/main.go: the controller and the proxy together.
use s_ingress.Common.Texts.{codes}
use s_ingress.Common.{
  All-In, In, List, Option, [], any, arith, false, here, if◌then◌else◌, there, ℕ, ◌∙◌, ◌∷◌, ◌≡◌,
}
use s_ingress.Controller.Loop.Sends.{IsSome, Reach-IsSome}
use s_ingress.Controller.Loop.{LoopState, Reach}
use s_ingress.Controller.Shared.{Sources}
use s_ingress.Proxy.Lifecycle.Ready.{is_stop, last_config, readyz-serve_events}
use s_ingress.Proxy.Lifecycle.{
  Event, Proxy, Serving, begin_serving, ended, readyz, reconfigured, serve_events, signalled,
  still_serving,
}
use s_ingress.Proxy.Routing.{RoutingConfig}

-- The configurations that the proxy receives while it serves.
abbrev pub configs_of : List Event → List (Option RoutingConfig)
configs_of [] = []
configs_of (reconfigured conf ∷ es) = conf ∷ configs_of es
configs_of (ended m ∷ es) = configs_of es
configs_of (signalled ∷ es) = configs_of es

last_config-In :
    (conf : Option RoutingConfig) (es : List Event)
    → In (last_config conf es) (conf ∷ configs_of es)
last_config-In conf [] = here
last_config-In conf (reconfigured next ∷ es) = there (last_config-In next es)
last_config-In conf (ended m ∷ es) = last_config-In conf es
last_config-In conf (signalled ∷ es) = last_config-In conf es

-- A proxy that serves with what a controller has sent after a successful `Init`, both at the start
-- and later, answers "/readyz" with 204 exactly until a listener ends or a shutdown is signalled:
-- no configuration ever makes it unready.
pub readyz-Reach :
    (sources : Sources) (s : LoopState) (n : ℕ) (p : Proxy) (es : List Event) (t : Serving)
    → Reach sources s
    → p.servers_cancelled ≡ false
    → ((c : Option RoutingConfig) → In c (p.routing_config ∷ configs_of es) → In c s.sent)
    → serve_events n es (begin_serving p) ≡ still_serving t
    → readyz t.state (codes "GET") ≡ (if any is_stop es then 503 else 204)
readyz-Reach sources s n p es t reached fresh received h =
    let (_, sent) = Reach-IsSome sources s reached in
    let i = received (last_config p.routing_config es) (last_config-In p.routing_config es) in
    let (conf, e) = All-In IsSome i sent in
    readyz-serve_events n p es t fresh h ∙ rw e (ground arith)
