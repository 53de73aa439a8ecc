-- ===== src/Proxy/Lifecycle/Listening.antt =====
-- pkg/proxy/proxy.go: the listeners that `startListeners` starts, and their number.
use s_ingress.Common.Texts.{Text, codes}
use s_ingress.Common.{
  All, List, Option, Option-cases, Result, [], ap, arith, err, inl, inr, length, map, none, ok,
  refl, some, suc, ℕ, ◌++◌, ◌+◌, ◌∷◌, ◌≡◌,
}
use s_ingress.Proxy.Lifecycle.{
  Listener, http_server, https_server, quic_server, start_listener, start_listeners,
  start_tcp_proxies, start_then, status_server, tcp_listener, wrap_err,
}
use s_ingress.Proxy.Routing.{RoutingConfig, TcpProxyConfig, value}

-- All listeners of a configuration, in the order in which they are started.
abbrev pub all_listeners : RoutingConfig → List Listener
all_listeners cfg =
    https_server ∷ http_server ∷ quic_server ∷ status_server ∷ map tcp_listener cfg.tcp_proxy

wrap_err-none : (prefix : Text) (o : Option Text) → wrap_err prefix o ≡ none → o ≡ none
unfolding wrap_err
wrap_err-none prefix none e = refl
wrap_err-none prefix (some x) e = cc

none-fails : {m : Text} → Path (Option Text) none (some m) → ⊥
none-fails e = cc

module _ (listen : Listener → Option Text) where
  -- Whether the port of a listener can be opened at its start. The server for QUIC opens it later.
  abbrev pub Opens : Listener → Type 0
  Opens quic_server = Unit
  Opens l = listen l ≡ none

  -- What is started of the listeners `all`, of which `k` stand in front: all of them, with their
  -- number, where each port opens, or those before the first one that does not, with an error.
  pub data Starts (k : ℕ) (all : List Listener) : Result Text ℕ → List Listener → Type 0 where
    all_run : {n : ℕ} → All Opens all → n ≡ k + length all → Starts k all (ok n) all
    failed_at :
        (l : Listener) (rest : List Listener) {started : List Listener} {e : Text}
        → all ≡ started ++ l ∷ rest
        → All Opens started
        → ¬ Opens l
        → Starts k all (err e) started

  Starts-cons :
      (k : ℕ) (l : Listener) {all started : List Listener} {r : Result Text ℕ}
      → Opens l
      → Starts (suc k) all r started
      → Starts k (l ∷ all) r (l ∷ started)
  Starts-cons k l o (all_run a e) = all_run (o, a) (omega arith)
  Starts-cons k l o (failed_at m rest e a f) = failed_at m rest (ap (λ x. l ∷ x) e) (o, a) f

  -- A listener starts exactly if its port opens.
  start_listener-Opens : (l : Listener) → start_listener listen l ≡ none → Opens l
  unfolding start_listener wrap_err
  start_listener-Opens quic_server e = tt
  start_listener-Opens https_server e = wrap_err-none (codes "cannot listen for https") _ e
  start_listener-Opens http_server e = wrap_err-none (codes "cannot listen for http") _ e
  start_listener-Opens status_server e = wrap_err-none (codes "cannot listen for http") _ e
  start_listener-Opens (tcp_listener conf) e = wrap_err-none (codes "cannot listen for tcp") _ e

  start_listener-fails : (l : Listener) (m : Text) → start_listener listen l ≡ some m → ¬ Opens l
  unfolding start_listener wrap_err
  start_listener-fails quic_server m e = cc
  start_listener-fails https_server m e = λ o. none-fails (rw o at e)
  start_listener-fails http_server m e = λ o. none-fails (rw o at e)
  start_listener-fails status_server m e = λ o. none-fails (rw o at e)
  start_listener-fails (tcp_listener conf) m e = λ o. none-fails (rw o at e)

  start_tcp_proxies-Starts :
      (k : ℕ) (confs : List TcpProxyConfig)
      → Starts k
          (map tcp_listener confs)
          (start_tcp_proxies listen k confs).0
          (start_tcp_proxies listen k confs).1
  unfolding start_tcp_proxies
  start_tcp_proxies-Starts k [] = all_run tt (omega arith)
  start_tcp_proxies-Starts k (conf ∷ confs) =
      elim (Option-cases (start_listener listen (tcp_listener conf))) [
        | inl e ↦
            rw (e, start_tcp_proxies)
              (Starts-cons k (tcp_listener conf) (start_listener-Opens (tcp_listener conf) e)
                (start_tcp_proxies-Starts (suc k) confs))
        | inr (m, e) ↦
            rw (e, start_tcp_proxies)
              (failed_at (tcp_listener conf) (map tcp_listener confs) refl tt
                (start_listener-fails (tcp_listener conf) m e))
      ]

  start_then-Starts :
      (k : ℕ) (prefix : Text) (l : Listener) (all : List Listener)
      (p : Result Text ℕ × List Listener)
      → Starts (suc k) all p.0 p.1
      → Starts k (l ∷ all) (start_then listen prefix l p).0 (start_then listen prefix l p).1
  unfolding start_then
  start_then-Starts k prefix l all (r, started) h = elim (Option-cases (start_listener listen l)) [
    | inl e ↦ rw (e, start_then) (Starts-cons k l (start_listener-Opens l e) h)
    | inr (m, e) ↦ rw (e, start_then) (failed_at l all refl tt (start_listener-fails l m e))
  ]

  -- The four servers and the TCP proxies.
  abbrev pub listened : RoutingConfig → Result Text ℕ × List Listener
  listened cfg = start_then listen (codes "start https: ") https_server (
      start_then listen (codes "start http: ") http_server (
        start_then listen (codes "start quic: ") quic_server (
          start_then listen (codes "start status: ") status_server
            (start_tcp_proxies listen 4 cfg.tcp_proxy))))

  pub listened-Starts :
      (cfg : RoutingConfig) → Starts 0 (all_listeners cfg) (listened cfg).0 (listened cfg).1
  listened-Starts cfg = start_then-Starts 0 _ https_server _ _ (
      start_then-Starts 1 _ http_server _ _ (
        start_then-Starts 2 _ quic_server _ _
          (start_then-Starts 3 _ status_server _ _ (start_tcp_proxies-Starts 4 cfg.tcp_proxy))))

-- `startListeners` starts the listeners of the configuration in their order. If it gives a number,
-- it is theirs, and all their ports could be opened; else exactly the listeners before the first one
-- whose port could not be opened are running. The server for QUIC opens its port later.
pub start_listeners-Starts :
    (listen : Listener → Option Text) (cfg : RoutingConfig)
    → (r : Result Text ℕ × List Listener) × (start_listeners listen (some cfg) ≡ value r)
      × Starts listen 0 (all_listeners cfg) r.0 r.1
unfolding start_listeners
start_listeners-Starts listen cfg = (listened listen cfg, refl, listened-Starts listen cfg)
