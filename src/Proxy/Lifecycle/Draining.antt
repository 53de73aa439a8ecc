-- ===== src/Proxy/Lifecycle/Draining.antt =====
-- pkg/proxy/proxy.go: what the loop of `Start` keeps true of the proxy.
use s_ingress.Common.{Bool-cases, List, [], arith, false, inl, inr, refl, true, ◌∷◌, ◌≡◌, ◌≢◌}
use s_ingress.Proxy.Lifecycle.{
  Effect, Event, Proxy, Serving, begin_serving, ended, handle_event, pauses, perform, reconfigured,
  signalled,
}

-- The proxy is not ready while its servers are cancelled.
abbrev pub IsUnready : Serving → Type 0
IsUnready s = s.state.servers_cancelled ≡ true → s.state.ready ≡ false

-- Between the rounds also the servers are cancelled once the shutdown has begun or a listener has
-- ended.
pub record IsDrained (s : Serving) : Type 0 where
  pub cancelled : IsUnready s
  pub begun : s.shutdown_initiated ≡ true → s.state.servers_cancelled ≡ true
  pub lost : s.handler_errors ≢ [] → s.state.servers_cancelled ≡ true

pub handle_event-IsDrained : (e : Event) (s : Serving) → IsDrained s → IsDrained (handle_event e s)
unfolding handle_event
handle_event-IsDrained (reconfigured conf) s i = record {
  cancelled = i.cancelled;
  begun = i.begun;
  lost = i.lost;
}
handle_event-IsDrained (ended m) s i = record {
  cancelled = λ h. refl;
  begun = λ h. refl;
  lost = λ h. refl;
}
handle_event-IsDrained signalled s i = elim (Bool-cases s.shutdown_initiated) [
  | inl e ↦ simp e i
  | inr e ↦ rw e (record { cancelled = λ h. refl; begun = λ h. refl; lost = λ h. refl })
]

pub begin_serving-IsDrained :
    (p : Proxy) → p.servers_cancelled ≡ false → IsDrained (begin_serving p)
unfolding begin_serving
begin_serving-IsDrained p fresh = record {
  cancelled = λ h. ground (arith, h, fresh);
  begun = λ h. cc;
  lost = λ h. absurd (h refl);
}

-- A predicate holds before the statements, after each of them, and so at the end.
abbrev pub Throughout : (Serving → Type 0) → List Effect → Serving → Type 0
Throughout P [] s = P s
Throughout P (x ∷ xs) s = P s × Throughout P xs (perform x s)

-- Among the statements is a pause, and a predicate holds while the first one lasts.
abbrev pub AtPause : (Serving → Type 0) → List Effect → Serving → Type 0
AtPause P [] s = ⊥
AtPause P (pauses ∷ xs) s = P s
AtPause P (x ∷ xs) s = AtPause P xs (perform x s)

-- The proxy says that it is not ready, and the servers run if they did in the state before.
abbrev pub IsAnnounced : Serving → Serving → Type 0
IsAnnounced before s =
    (s.state.ready ≡ false) × (s.state.servers_cancelled ≡ before.state.servers_cancelled)
