-- ===== src/Proxy/Lifecycle/Ready.antt =====
-- pkg/proxy/proxy.go: what "/readyz" answers while the proxy serves.
use s_ingress.Common.Texts.{codes, text_eq}
use s_ingress.Common.{
  Bool, Bool-cases, List, Option, [], any, arith, false, if◌then◌else◌, inl, inr, is_none, not,
  refl, true, ℕ, ◌&&◌, ◌||◌, ◌∙◌, ◌∷◌, ◌≡◌,
}
use s_ingress.Proxy.Lifecycle.Draining.{IsDrained, begin_serving-IsDrained, handle_event-IsDrained}
use s_ingress.Proxy.Lifecycle.Stopping.{handle_events, still_serving-state}
use s_ingress.Proxy.Lifecycle.{
  Event, Proxy, Serving, begin_serving, ended, handle_event, readyz, reconfigured, serve_events,
  signalled, still_serving,
}
use s_ingress.Proxy.Routing.{RoutingConfig}

-- Whether an event makes the proxy announce that it is not ready.
abbrev pub is_stop : Event → Bool
is_stop (reconfigured conf) = false
is_stop (ended m) = true
is_stop signalled = true

-- The configuration that was received last.
abbrev pub last_config : Option RoutingConfig → List Event → Option RoutingConfig
last_config conf [] = conf
last_config conf (reconfigured conf' ∷ es) = last_config conf' es
last_config conf (ended m ∷ es) = last_config conf es
last_config conf (signalled ∷ es) = last_config conf es

handle_event-ready :
    (e : Event) (s : Serving)
    → IsDrained s
    → (handle_event e s).state.ready ≡ s.state.ready && not (is_stop e)
unfolding handle_event
handle_event-ready (reconfigured conf) s i = ground arith
handle_event-ready (ended m) s i = ground arith
handle_event-ready signalled s i = elim (Bool-cases s.shutdown_initiated) [
  | inl e ↦ let h = i.cancelled (i.begun e) in rw e (ground (arith, h))
  | inr e ↦ rw e (ground arith)
]

handle_event-config :
    (e : Event) (es : List Event) (s : Serving)
    → last_config (handle_event e s).state.routing_config es
      ≡ last_config s.state.routing_config (e ∷ es)
unfolding handle_event
handle_event-config (reconfigured conf) es s = refl
handle_event-config (ended m) es s = refl
handle_event-config signalled es s = elim (Bool-cases s.shutdown_initiated) [
  | inl e ↦ rw e refl
  | inr e ↦ rw e refl
]

handle_events-ready :
    (es : List Event) (s : Serving)
    → IsDrained s
    → (handle_events es s).state.ready ≡ s.state.ready && not (any is_stop es)
handle_events-ready [] s i = ground arith
handle_events-ready (e ∷ es) s i = ground (
  arith,
  handle_events-ready es (handle_event e s) (handle_event-IsDrained e s i),
  handle_event-ready e s i,
)

handle_events-config :
    (es : List Event) (s : Serving)
    → (handle_events es s).state.routing_config ≡ last_config s.state.routing_config es
handle_events-config [] s = refl
handle_events-config (e ∷ es) s =
    handle_events-config es (handle_event e s) ∙ handle_event-config e es s

-- While `Start` serves, "/readyz" answers a GET with 204 exactly if no listener has ended and no
-- shutdown was signalled since the start and the configuration that was received last is not nil;
-- else it answers 503.
pub readyz-serve_events :
    (n : ℕ) (p : Proxy) (es : List Event) (s : Serving)
    → p.servers_cancelled ≡ false
    → serve_events n es (begin_serving p) ≡ still_serving s
    → readyz s.state (codes "GET")
      ≡ (if any is_stop es || is_none (last_config p.routing_config es) then 503 else 204)
unfolding begin_serving readyz text_eq
readyz-serve_events n p es s fresh h =
    let same = still_serving-state n p es s h in
    let r = handle_events-ready es (begin_serving p) (begin_serving-IsDrained p fresh) in
    let c = handle_events-config es (begin_serving p) in rw same (rw (r, c) (ground arith))
