-- ===== src/Examples/Program.antt =====
-- The theorems about the process, with the configuration of one OIDC client.
use s_ingress.Common.Texts.{codes, text_eq}
use s_ingress.Common.{In, List, Option, [], false, if◌then◌else◌, none, refl, some, true, ◌∷◌, ◌≡◌}
use s_ingress.Controller.Loop.Sends.{Reach-progress}
use s_ingress.Controller.Loop.{stepped}
use s_ingress.Examples.Lifecycle.{ended_cleanly}
use s_ingress.Examples.Loop.{started, started-Reach}
use s_ingress.Examples.Shared.{login_sources}
use s_ingress.Program.Readiness.{readyz-Reach}
use s_ingress.Program.{ControllerRest, Environment, sees_done, sends_config}
use s_ingress.Proxy.Lifecycle.{Event, Proxy, begin_serving, ended, readyz, serve_events, signalled}
use s_ingress.Proxy.Routing.{RoutingConfig}

abbrev pod : Environment
pod = record {
  getenv = λ name.
      if text_eq name (codes "POD_NAMESPACE")
      then codes "ingress"
      else if text_eq name (codes "CONTROLLER_CONFIGMAP")
      then codes "conf"
      else if text_eq name (codes "CONTROLLER_NAME")
      then codes "s-ingress"
      else [];
  manager_starts = true;
  setup_succeeds = true;
}

abbrev after_signal : List Event
after_signal = signalled ∷ ended none ∷ ended_cleanly

abbrev last_config : ControllerRest
last_config = record { free_slots = 5; choices = sends_config ∷ sees_done ∷ [] }

abbrev sent_config_of : RoutingConfig
sent_config_of = (Reach-progress login_sources started started-Reach refl).0

received_from : (a c : Option RoutingConfig) → In c (a ∷ []) → In c (a ∷ [])
received_from a c i = i

abbrev fed_proxy : Proxy
fed_proxy = record {
  ready = false;
  routing_config = some sent_config_of;
  servers_cancelled = false;
}

readyz-Reach_example : readyz (record fed_proxy { ready = true }) (codes "GET") ≡ 204
unfolding serve_events begin_serving
readyz-Reach_example =
    readyz-Reach login_sources _ 5 fed_proxy []
      (record {
        state = record fed_proxy { ready = true };
        handler_errors = [];
        shutdown_initiated = false;
      })
      (stepped started-Reach (Reach-progress login_sources started started-Reach refl).1) refl
      (received_from (some sent_config_of)) refl
