-- ===== src/Observability.antt =====
-- libs/common/observability.py: `ObservabilityManager`, a class that holds its state. The OpenTelemetry
-- objects that it makes have numbers, and what it asks of the library is listed in order; these
-- calls are taken to return.
use taskforge_platform.Common.{
  ℕ, ◌+◌, Bool, true, false, String, Option, none, some, List, [], ◌∷◌, ◌++◌, is_empty,
  if◌then◌else◌,
}

pub data Call : Type 0 where
  -- A provider with its number, the name of the service, the environment, and the endpoint of its
  -- exporter.
  tracer_provider_made meter_provider_made : ℕ → String → String → String → Call
  instrumented_server instrumented_client : Call
  tracer_provider_shut meter_provider_shut : ℕ → Call

pub record ObservabilityManager : Type 0 where
  pub initialized : Bool
  pub tracer_provider : Option ℕ
  pub meter_provider : Option ℕ
  pub made : ℕ  -- the number of the next provider
  pub calls : List Call

unfoldable pub new_manager : ObservabilityManager
new_manager = record {
  initialized = false;
  tracer_provider = none;
  meter_provider = none;
  made = 0;
  calls = [];
}

-- `otlp_endpoint or os.getenv("OTEL_EXPORTER_OTLP_ENDPOINT", …)`
abbrev pub endpoint_of : Option String → Option String → String
endpoint_of (some e) (some v) = if is_empty e then v else e
endpoint_of (some e) none = if is_empty e then "http://localhost:4317" else e
endpoint_of none (some v) = v
endpoint_of none none = "http://localhost:4317"

-- `os.getenv("ENVIRONMENT", "development")`
abbrev pub environment_of : Option String → String
environment_of none = "development"
environment_of (some v) = v

-- `initialize` behind the test of `_initialized`.
unfoldable pub set_up : String → String → String → ObservabilityManager → ObservabilityManager
set_up service_name environment endpoint m = record {
  initialized = true;
  tracer_provider = some m.made;
  meter_provider = some (m.made + 1);
  made = m.made + 2;
  calls =
      m.calls
      ++ tracer_provider_made m.made service_name environment endpoint
        ∷ meter_provider_made (m.made + 1) service_name environment endpoint
        ∷ instrumented_server
        ∷ instrumented_client
        ∷ [];
}

module _ (env : String → Option String) where
  -- `initialize`, in an environment.
  unfoldable pub initialize : String → Option String → ObservabilityManager → ObservabilityManager
  unfolding set_up
  initialize service_name otlp_endpoint m =
      if m.initialized
      then m
      else set_up service_name (environment_of (env "ENVIRONMENT"))
          (endpoint_of otlp_endpoint (env "OTEL_EXPORTER_OTLP_ENDPOINT")) m

  -- What `get_tracer` and `get_meter` do before they ask the library.
  unfoldable pub ensure : String → ObservabilityManager → ObservabilityManager
  unfolding initialize
  ensure name m = if m.initialized then m else initialize name none m

-- `if cls._tracer_provider: cls._tracer_provider.shutdown()`, and the same for the other.
abbrev pub shut_tracer : Option ℕ → List Call
shut_tracer none = []
shut_tracer (some n) = tracer_provider_shut n ∷ []

abbrev pub shut_meter : Option ℕ → List Call
shut_meter none = []
shut_meter (some n) = meter_provider_shut n ∷ []

-- `ObservabilityManager.shutdown`, which keeps the providers.
unfoldable pub shutdown : ObservabilityManager → ObservabilityManager
shutdown m = record m {
  initialized = false;
  calls = m.calls ++ shut_tracer m.tracer_provider ++ shut_meter m.meter_provider;
}
