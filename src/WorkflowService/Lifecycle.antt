-- ===== src/WorkflowService/Lifecycle.antt =====
-- `WorkflowServiceApp.initialize`, the beginning of `start`, and `shutdown` of
-- services/workflow_service/main.py. `shutdown` runs here with no other task between its steps; what
-- passes in the world during its pause is an argument.
use taskforge_platform.Common.{ℕ, true, false, String, Option, none, is_nil, if◌then◌else◌}
use taskforge_platform.Common.Dict.{values}
use taskforge_platform.WorkflowService.{WorkflowServiceApp}
use taskforge_platform.Observability.{ObservabilityManager}
use taskforge_platform.Observability

-- The service with the telemetry of its process and the world.
pub record Process (W : Type 0) : Type 0 where
  pub app : WorkflowServiceApp W
  pub manager : ObservabilityManager
  pub world : W

module _ {W : Type 0} (getenv : String → Option String) where
  unfoldable pub initialize : Process W → Process W
  unfolding Observability.initialize
  initialize p = record p {
    manager = Observability.initialize getenv "workflow-service" none p.manager;
  }

  -- `start` up to its loop.
  unfoldable pub begin : Process W → Process W
  unfolding initialize
  begin p = record (initialize p) { app = record p.app { is_running = true } }

module _ {W : Type 0} (sleep : ℕ → W → W) where
  -- `shutdown` behind its guard: if a saga runs it waits five seconds, not for its end.
  unfoldable pub stop : Process W → Process W
  unfolding Observability.shutdown values
  stop p = record {
    app = record p.app { is_running = false };
    manager = Observability.shutdown p.manager;
    world =
        if is_nil (values p.app.orchestrator.running_instances)
        then p.world
        else sleep 5000 p.world;
  }

  -- `shutdown`
  unfoldable pub shutdown : Process W → Process W
  unfolding stop
  shutdown p = if p.app.is_running then stop p else p
