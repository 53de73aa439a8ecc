-- ===== src/Controller/Shared/Stages.antt =====
-- `reconfigureControllerCommonConfig` of pkg/controller/controller.go, on every branch.
use s_ingress.Common.Texts.{Text, codes}
use s_ingress.Common.{List, Option, Result-cases, err, inl, inr, ok, refl, some, ◌++◌, ◌≡◌, ◌⊎◌}
use s_ingress.Config.Parse.{ControllerConf}
use s_ingress.Controller.Reconcile.{IngressController, request_reconfigure, with_state}
use s_ingress.Controller.Shared.{
  Sources, Update, get_controller_config, get_default_tls, get_upstream_ip_addresses,
  make_tcp_proxies, not_updated, reconfigure_controller_common_config, then_update, update_config,
  update_default_tls, update_exits, update_tcp_proxy, update_upstream_ip_address, updated,
}
use s_ingress.Controller.State.{K8sState}
use s_ingress.Kubernetes.{NamespacedName}
use s_ingress.Modules.Creators.{Creation, created, not_created, process_ended}
use s_ingress.Modules.Order.{made}
use s_ingress.Proxy.Routing.{TcpProxyConfig}

module _ (sources : Sources) where
  -- The state after each of the four updates.
  abbrev pub configured_state : K8sState → ControllerConf → K8sState
  configured_state s conf = record s { config = some conf }

  abbrev pub with_tls : K8sState → ControllerConf → Option Text → K8sState
  with_tls s conf cert = record (configured_state s conf) { default_tls_secret = cert }

  abbrev pub with_upstream : Text → K8sState → ControllerConf → Option Text → K8sState
  with_upstream namespace s conf cert = record (with_tls s conf cert) {
    ingress_load_balancer_status = get_upstream_ip_addresses sources.cluster namespace conf;
  }

  -- How far the updates of the shared resources come, and the result of each part that they reach.
  pub data Reconfigures (ic : IngressController) : Update → Type 0 where
    exits :
        get_controller_config sources ic.env_config ≡ process_ended → Reconfigures ic update_exits
    without_config :
        (e : Text)
        → get_controller_config sources ic.env_config ≡ not_created e
        → Reconfigures ic (not_updated (codes "update config: " ++ e) ic)
    without_tls :
        (e : Text) (conf : ControllerConf) (used : List NamespacedName)
        → get_controller_config sources ic.env_config ≡ created conf used
        → get_default_tls sources ic.env_config.namespace conf ≡ err e
        → Reconfigures ic (
            not_updated
              (codes "update default TLS: " ++ e)
              (with_state ic (configured_state ic.k8s_state conf)))
    without_tcp :
        (e : Text) (conf : ControllerConf) (used : List NamespacedName) (cert : Option Text)
        → get_controller_config sources ic.env_config ≡ created conf used
        → get_default_tls sources ic.env_config.namespace conf ≡ ok cert
        → make_tcp_proxies sources.cluster conf.tcp_proxy ≡ err e
        → Reconfigures ic (
            not_updated
              (codes "update tcp proxies: " ++ e)
              (with_state ic (with_upstream ic.env_config.namespace ic.k8s_state conf cert)))
    complete :
        (conf : ControllerConf) (used : List NamespacedName) (cert : Option Text)
        (proxies : List TcpProxyConfig)
        → get_controller_config sources ic.env_config ≡ created conf used
        → get_default_tls sources ic.env_config.namespace conf ≡ ok cert
        → make_tcp_proxies sources.cluster conf.tcp_proxy ≡ ok proxies
        → Reconfigures ic (
            updated (
              request_reconfigure (
                with_state ic
                  (record (with_upstream ic.env_config.namespace ic.k8s_state conf cert) {
                    tcp_proxies = proxies;
                  }))))

  creation-cases :
      (r : Creation ControllerConf)
      → ((e : Text) × (r ≡ not_created e))
        ⊎ ((r ≡ process_ended)
            ⊎ ((conf : ControllerConf) × (used : List NamespacedName) × (r ≡ created conf used)))
  creation-cases (not_created e) = inl (e, refl)
  creation-cases process_ended = inr (inl refl)
  creation-cases (created conf used) = inr (inr (conf, used, refl))

  tcp-Reconfigures :
      (ic : IngressController) (conf : ControllerConf) (used : List NamespacedName)
      (cert : Option Text)
      → get_controller_config sources ic.env_config ≡ created conf used
      → get_default_tls sources ic.env_config.namespace conf ≡ ok cert
      → Reconfigures ic (
          then_update
            (codes "update tcp proxies")
            (update_tcp_proxy sources.cluster
              (with_state ic (with_upstream ic.env_config.namespace ic.k8s_state conf cert)))
            (λ ic4. updated (request_reconfigure ic4)))
  unfolding update_tcp_proxy
  tcp-Reconfigures ic conf used cert made tls =
      elim (Result-cases (make_tcp_proxies sources.cluster conf.tcp_proxy)) [
        | inl (e, h) ↦ rw h (without_tcp e conf used cert made tls h)
        | inr (proxies, h) ↦ rw h (complete conf used cert proxies made tls h)
      ]

  tls-Reconfigures :
      (ic : IngressController) (conf : ControllerConf) (used : List NamespacedName)
      → get_controller_config sources ic.env_config ≡ created conf used
      → Reconfigures ic (
          then_update
            (codes "update default TLS")
            (update_default_tls sources (with_state ic (configured_state ic.k8s_state conf)))
            (λ ic2.
              then_update
                (codes "update upstream IP")
                (update_upstream_ip_address sources.cluster ic2)
                (λ ic3.
                  then_update
                    (codes "update tcp proxies")
                    (update_tcp_proxy sources.cluster ic3)
                    (λ ic4. updated (request_reconfigure ic4)))))
  unfolding update_default_tls update_upstream_ip_address
  tls-Reconfigures ic conf used made =
      elim (Result-cases (get_default_tls sources ic.env_config.namespace conf)) [
        | inl (e, h) ↦ rw h (without_tls e conf used made h)
        | inr (cert, h) ↦ rw h (tcp-Reconfigures ic conf used cert made h)
      ]

-- The four updates run in order, and the first error ends them: it is returned with the name of the
-- update, what was updated before it stays, and the rest, the requests, the ingresses and the
-- classes are as they were. Only where the configuration, the default certificate and the TCP
-- proxies could all be read, all is updated and a new configuration of the proxy is requested. The
-- configuration is never read before it is set.
pub reconfigure_controller_common_config-Reconfigures :
    (sources : Sources) (ic : IngressController)
    → Reconfigures sources ic (reconfigure_controller_common_config sources ic)
unfolding reconfigure_controller_common_config update_config
reconfigure_controller_common_config-Reconfigures sources ic =
    elim (creation-cases sources (get_controller_config sources ic.env_config)) [
      | inl (e, h) ↦ rw h (without_config e h)
      | inr (inl h) ↦ rw h (exits h)
      | inr (inr (conf, used, h)) ↦ rw h (tls-Reconfigures sources ic conf used h)
    ]
