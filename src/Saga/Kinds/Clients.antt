-- ===== src/Saga/Kinds/Clients.antt =====
-- `GrpcStep` and `HttpStep` of libs/saga_framework/step.py: steps that call a client library, whose
-- calls are arguments. A step takes the defaults of the dataclass for its other fields.
use taskforge_platform.Common.{String, Option, none, some, [], ◌∷◌, is_empty, if◌then◌else◌}
use taskforge_platform.Common.Dict.{Dict}
use taskforge_platform.Common.Value.{str}
use taskforge_platform.Common.Result.{Result, ok, err}
use taskforge_platform.Saga.Step.{Context, Failure, Action, Handler, SagaStep}
use taskforge_platform.Saga.Kinds.{new_step, attempt_of}

-- A method of a stub: it answers or raises.
abbrev pub Stub : Type 0 → Type 0 → Type 0 → Type 0
Stub Q R W = Q → W → Result Failure R × W

-- The exception that a call ends with, if any.
abbrev pub raised_by : {A : Type 0} → Result Failure A → Option Failure
raised_by (ok _) = none
raised_by (err x) = some x

module _ {R : Type 0} (message_to_dict : R → Option Context) (text_of : R → String) where
  -- `_response_to_dict`, where `none` is a conversion that raises.
  unfoldable pub response_to_dict : R → Context
  response_to_dict r = elim (message_to_dict r) [
    | none ↦ ("response", str (text_of r)) ∷ []
    | some d ↦ d
  ]

  abbrev pub answered : Result Failure R → Result Failure Context
  unfolding response_to_dict
  answered (ok r) = ok (response_to_dict r)
  answered (err x) = err x

-- The compensation, with what its request factory gives.
abbrev pub undo_stub : {Q R W : Type 0} → Stub Q R W → Result Failure Q → Handler W
undo_stub stub (err x) c w = (some x, c, w)
undo_stub stub (ok q) c w = let (r, w') = stub q w in (raised_by r, c, w')

-- `compensation_request_factory … if compensation_request_factory else request_factory …`
abbrev pub undo_factory :
    {Q : Type 0}
    → Option (Context → Result Failure Q)
    → (Context → Result Failure Q)
    → Context
    → Result Failure Q
undo_factory none factory = factory
undo_factory (some f) factory = f

module _ {Q R W : Type 0} (message_to_dict : R → Option Context) (text_of : R → String) where
  -- The action, with what the request factory gives.
  abbrev pub call_stub : Stub Q R W → Result Failure Q → Action W
  unfolding answered
  call_stub stub (err x) c w = (attempt_of (err x), c, w)
  call_stub stub (ok q) c w =
      let (r, w') = stub q w in (attempt_of (answered message_to_dict text_of r), c, w')

  -- `GrpcStep(name, stub_method, request_factory, compensation_stub_method, …)`
  unfoldable pub grpc_step :
      String
      → String
      → Stub Q R W
      → (Context → Result Failure Q)
      → Option (Stub Q R W)
      → Option (Context → Result Failure Q)
      → SagaStep W
  unfolding new_step
  grpc_step id name stub factory undo undo_request =
      record (new_step id name (λ c w. call_stub stub (factory c) c w)) {
        compensation = elim undo [
          | none ↦ none
          | some u ↦ some (λ c w. undo_stub u (undo_factory undo_request factory c) c w)
        ];
      }

-- The arguments of `session.request`.
pub record HttpRequest : Type 0 where
  pub method : String
  pub url : String
  pub json : Context
  pub headers : Option (Dict String)

-- `raise_for_status()` and `json()` of a response.
pub record HttpResponse : Type 0 where
  pub status_error : Option Failure
  pub body : Result Failure Context

abbrev pub Session : Type 0 → Type 0
Session W = HttpRequest → W → Result Failure HttpResponse × W

module _ {W : Type 0} (session : Session W) where
  abbrev pub received : Result Failure HttpResponse → Result Failure Context
  received (err x) = err x
  received (ok r) = elim r.status_error [ none ↦ r.body | some x ↦ err x ]

  -- The action behind `request_body`.
  abbrev pub request : String → String → Option (Dict String) → Result Failure Context → Action W
  request method url headers (err x) c w = (attempt_of (err x), c, w)
  request method url headers (ok body) c w =
      let (r, w') =
        session
          (record {
            method = method;
            url = url;
            json = body;
            headers = elim headers [ none ↦ some [] | some h ↦ some h ];
          })
          w in
      (attempt_of (received r), c, w')

  -- `body_factory(context) if body_factory else context`
  abbrev pub request_body :
      Option (Context → Result Failure Context) → Context → Result Failure Context
  request_body none c = ok c
  request_body (some f) c = f c

  abbrev pub status_of : Result Failure HttpResponse → Option Failure
  status_of (err x) = some x
  status_of (ok r) = r.status_error

  abbrev pub undo_request : String → String → Handler W
  undo_request method url c w =
      let (r, w') = session (record { method = method; url = url; json = c; headers = none }) w in
      (status_of r, c, w')

  -- `if compensation_url:`
  abbrev pub undo_at : String → Option String → Option (Handler W)
  undo_at method none = none
  undo_at method (some url) = if is_empty url then none else some (undo_request method url)

  -- `HttpStep(name, url, method, body_factory, headers, compensation_url, compensation_method)`
  unfoldable pub http_step :
      String
      → String
      → String
      → String
      → Option (Context → Result Failure Context)
      → Option (Dict String)
      → Option String
      → String
      → SagaStep W
  unfolding new_step
  http_step id name url method body_factory headers compensation_url compensation_method =
      record (new_step id name
        (λ c w. request method url headers (request_body body_factory c) c w)) {
          compensation = undo_at compensation_method compensation_url;
        }
