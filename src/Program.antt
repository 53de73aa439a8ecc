-- ===== src/Program.antt =====
-- cmd/main.go: the process, from its environment to its end.
pub mod Ending
pub mod Readiness
use s_ingress.Common.Texts.{Text, codes, text_eq}
use s_ingress.Common.{
  Bool, List, Option, [], false, if◌then◌else◌, nat_eq, none, not, some, true, ℕ, ◌-◌, ◌∷◌,
}
use s_ingress.Config.Parse.{default_val}
use s_ingress.Controller.Reconcile.{ControllerEnvConf, IngressController, new_proxy_controller}
use s_ingress.Controller.Shared.{
  Sources, not_updated, reconfigure_controller_common_config, update_exits, update_panics, updated,
}
use s_ingress.Proxy.Lifecycle.{
  Event, First, Listener, Running, new_proxy, start, start_returned, still_serving,
}
use s_ingress.Proxy.Routing.{Returns, panic, value}

-- What `os.Getenv` gives, and how the initialization of the manager and of the controller goes.
pub record Environment : Type 0 where
  pub getenv : Text → Text
  pub manager_starts : Bool
  pub setup_succeeds : Bool

-- The variables of the environment that `main` reads.
unfoldable pub read_environment : (Text → Text) → Option ControllerEnvConf
read_environment getenv =
    let namespace = getenv (codes "POD_NAMESPACE") in
    let config_map = getenv (codes "CONTROLLER_CONFIGMAP") in
    let name = getenv (codes "CONTROLLER_NAME") in
    if text_eq namespace []
    then none
    else if text_eq config_map []
    then none
    else some (record {
      namespace = namespace;
      controller_name = default_val name (codes "oidq.dev/s-ingress");
      controller_config_map = record { namespace = namespace; name = config_map };
    })

-- How `main` stands: it has called `os.Exit`, it has panicked, it waits, or it has returned.
pub data ProcessState : Type 0 where
  process_exits : (code : ℕ) → ProcessState
  process_panics process_waits process_finished : ProcessState

-- What the loop of the controller does in a round after its context is cancelled: its select may
-- take any case that is ready.
pub data LoopChoice : Type 0 where
  sees_done sends_config updates_or_ticks : LoopChoice

-- `Run` of the controller after `Start` has returned, when nothing is received from the channel of
-- the configurations any more: a send needs one of its free slots, and else waits forever.
pub record ControllerRest : Type 0 where
  pub free_slots : ℕ
  pub choices : List LoopChoice

-- Whether `Run` has returned.
unfoldable pub run_returns : ℕ → List LoopChoice → Bool
run_returns free_slots [] = false
run_returns free_slots (sees_done ∷ more) = true
run_returns free_slots (updates_or_ticks ∷ more) = run_returns free_slots more
run_returns free_slots (sends_config ∷ more) =
    let rest = run_returns (free_slots - 1) more in if nat_eq free_slots 0 then false else rest

-- The end of `main`, which waits for a signal and then for the loop of the controller and for
-- `Start`, whatever `Start` returns.
unfoldable pub await_signal : Bool → ControllerRest → Returns Running → ProcessState
unfolding run_returns
await_signal signal rest panic = process_panics
await_signal false rest (value r) = process_waits
await_signal true rest (value (still_serving s)) = process_waits
await_signal true rest (value (start_returned e q)) =
    if run_returns rest.free_slots rest.choices then process_finished else process_waits

module _ (sources : Sources) (listen : Listener → Option Text) where
  -- `main` after the controller is made: its initialization, and then the proxy, on what it
  -- receives first and on the events after that. Calls of the handlers before are left out.
  abbrev pub run_controller :
      Bool → ControllerRest → First → List Event → IngressController → ProcessState
  run_controller signal rest first events ic =
      elim (reconfigure_controller_common_config sources ic) [
        | updated _ ↦ await_signal signal rest (start listen first events new_proxy)
        | not_updated _ _ ↦ process_exits 1
        | update_exits ↦ process_exits 1
        | update_panics ↦ process_panics
      ]

  -- `main`, with whether a signal has come and what the loop of the controller does in the end.
  unfoldable pub run_main : Environment → Bool → ControllerRest → First → List Event → ProcessState
  run_main environment signal rest first events = elim (read_environment environment.getenv) [
    | none ↦ process_exits 1
    | some env ↦
        if not environment.manager_starts
        then process_exits 1
        else if not environment.setup_succeeds
        then process_exits 1
        else run_controller signal rest first events (new_proxy_controller env)
  ]
