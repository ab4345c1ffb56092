-- ===== src/TaskService/Signals/Orderly.antt =====
-- What the tasks that run `shutdown` do together.
use taskforge_platform.Common.{
  ℕ, ◌+◌, ◌≤◌, ◌≡◌, refl, sym, ap, ◌∙◌, arith, Bool, true, false, ◌⊎◌, inl, inr, Option, none, some,
  List, [], ◌∷◌, ◌++◌,
}
use taskforge_platform.Common.Result.{⊤, Result, ok, err}
use taskforge_platform.Common.Method.{when, for_some}
use taskforge_platform.EventBus.Publisher.{EventPublisher}
use taskforge_platform.EventBus.Publisher
use taskforge_platform.Observability
use taskforge_platform.TaskService.{
  Waited, terminated, was_cancelled, broken, Outside, TaskGrpcServer, TaskServiceApp, ask,
  on_publisher, stop_server, stop_grpc, stop_publisher, dispose, stop_telemetry, start_server,
  waited,
}
use taskforge_platform.TaskService.Signals.{
  Place, starting, serving, guard, at_server, at_publisher, at_engine, at_telemetry, skipped,
  stopped, next, served, System, Move, starts_server, server_ends, passes_guard, returns,
  stops_server, stops_publisher, disposes, is_cancelled, shuts_telemetry, Step, happens, signal,
  turn, Reachable, begun, later,
}

-- The tasks that have been through the guard.
abbrev pub is_past : Place → ℕ
is_past starting = 0
is_past serving = 0
is_past guard = 0
is_past p = 1

-- Those that have gone past it into the parts of `shutdown`.
abbrev pub is_in : Place → ℕ
is_in starting = 0
is_in serving = 0
is_in guard = 0
is_in skipped = 0
is_in p = 1

-- Those that have gone through all parts.
abbrev pub is_done : Place → ℕ
is_done stopped = 1
is_done p = 0

abbrev pub total : (Place → ℕ) → List Place → ℕ
total f [] = 0
total f (p ∷ l) = f p + total f l

total-append : (f : Place → ℕ) (l m : List Place) → total f (l ++ m) ≡ total f l + total f m
total-append f [] m = omega arith
total-append f (p ∷ l) m = omega (arith, total-append f l m)

is_done_le : (p : Place) → is_done p ≤ is_in p
is_done_le p = ground arith

is_in_le : (p : Place) → is_in p ≤ is_past p
is_in_le p = ground arith

total_le : (f g : Place → ℕ) → ((p : Place) → f p ≤ g p) → (l : List Place) → total f l ≤ total g l
total_le f g h [] = omega arith
total_le f g h (p ∷ l) = omega (arith, h p, total_le f g h l)

-- Either no task has been through the guard, the flag is set and the telemetry is on; or the flag is
-- cleared, one task has gone past the guard, and the telemetry is off exactly if it has done all.
abbrev pub Orders : (running on : Bool) (past within done : ℕ) → Type 0
Orders running on past within done =
    (running ≡ true) × (past ≡ 0) × (on ≡ true)
    ⊎ (running ≡ false) × (within ≡ 1) × ((done ≡ 0) × (on ≡ true) ⊎ (done ≡ 1) × (on ≡ false))

abbrev pub IsOrderly : {W : Type 0} → System W → Type 0
IsOrderly s =
    Orders s.app.is_running s.app.manager.initialized (total is_past s.tasks) (total is_in s.tasks)
      (total is_done s.tasks)

-- The flag and the telemetry are the same.
abbrev Same : {W : Type 0} → TaskServiceApp W → TaskServiceApp W → Type 0
Same a b = (b.is_running ≡ a.is_running) × (b.manager.initialized ≡ a.manager.initialized)

Orders-Same :
    {W : Type 0} (a b : TaskServiceApp W) {P I D : ℕ}
    → Same a b
    → Orders a.is_running a.manager.initialized P I D
    → Orders b.is_running b.manager.initialized P I D
Orders-Same a b (run, on) (inl (r, p, t)) = inl (run ∙ r, p, on ∙ t)
Orders-Same a b (run, on) (inr (r, i, inl (d, t))) = inr (run ∙ r, i, inl (d, on ∙ t))
Orders-Same a b (run, on) (inr (r, i, inr (d, t))) = inr (run ∙ r, i, inr (d, on ∙ t))

module _ {X W : Type 0} (out : Outside X W) where
  stop_server-Same :
      (o : Option TaskGrpcServer) (a : TaskServiceApp W) → Same a (for_some o (stop_server out) a).1
  unfolding stop_server
  stop_server-Same none a = (refl, refl)
  stop_server-Same (some s) a = go s.has_server
    where
      go : (b : Bool) → Same a (when b (ask out out.stop_server) a).1
      go true = (refl, refl)
      go false = (refl, refl)

  stop_grpc-Same : (a : TaskServiceApp W) → Same a (stop_grpc out a).1
  unfolding stop_grpc
  stop_grpc-Same a = stop_server-Same a.grpc_server a

  stop_publisher-Same : (a : TaskServiceApp W) → Same a (stop_publisher out a).1
  unfolding stop_publisher
  stop_publisher-Same a = go a.event_publisher
    where
      go :
          (o : Option (EventPublisher W))
          → Same a (for_some o (on_publisher out (Publisher.stop out.bus)) a).1
      go none = (refl, refl)
      go (some p) = (refl, refl)

  dispose-Same : (a : TaskServiceApp W) → Same a (dispose out a).1
  unfolding dispose
  dispose-Same a = go a.has_engine
    where
      go : (b : Bool) → Same a (when b (ask out out.dispose_engine) a).1
      go true = (refl, refl)
      go false = (refl, refl)

  waited-Same : (x : Waited X) (a : TaskServiceApp W) → Same a (waited out x a).1
  unfolding waited
  waited-Same terminated a = (refl, refl)
  waited-Same was_cancelled a = stop_server-Same a.grpc_server a
  waited-Same (broken x) a = (refl, refl)

  -- A part that does not shut the telemetry down, in front of a place `p`.
  part-Orders :
      (r : Result X ⊤) (p : Place) {run on : Bool} (P I D : ℕ)
      → is_past p ≡ 1
      → is_in p ≡ 1
      → is_done p ≡ 0
      → Orders run on (1 + P) (1 + I) (0 + D)
      → Orders run on (is_past (next r p) + P) (is_in (next r p) + I) (is_done (next r p) + D)
  part-Orders (ok _) p P I D a b c o = rw (a, b, c) o
  part-Orders (err x) p P I D a b c o = o

  starts-Orders :
      (a : TaskServiceApp W) (P I D : ℕ)
      → Orders a.is_running a.manager.initialized (0 + P) (0 + I) (0 + D)
      → let (r, b) = start_server out a in
        let q = served r in
        Orders b.is_running b.manager.initialized (is_past q + P) (is_in q + I) (is_done q + D)
  unfolding start_server
  starts-Orders a P I D o = go (out.start_server a.world).0
    where
      go :
          (r : Result X ⊤)
          → let q = served r in
            Orders a.is_running a.manager.initialized (is_past q + P) (is_in q + I) (is_done q + D)
      go (ok _) = o
      go (err x) = o

  -- One turn, where the other tasks count `P`, `I` and `D`.
  Move-Orders :
      {a b : TaskServiceApp W} {p q : Place} (P I D : ℕ)
      → I ≤ P
      → D ≤ I
      → Move out a p b q
      → Orders a.is_running a.manager.initialized (is_past p + P) (is_in p + I) (is_done p + D)
      → Orders b.is_running b.manager.initialized (is_past q + P) (is_in q + I) (is_done q + D)
  unfolding stop_telemetry Observability.shutdown
  Move-Orders {a} P I D ip di starts_server o = starts-Orders a P I D o
  Move-Orders {a} P I D ip di (server_ends x) o =
      Orders-Same a (waited out x a).1 (waited-Same x a) o
  Move-Orders P I D ip di (passes_guard h) (inl (r, p, t)) =
      inr (refl, omega (arith, p), inl (omega (arith, p), t))
  Move-Orders P I D ip di (passes_guard h) (inr (r, i, d)) = absurd (cc (h, r))
  Move-Orders P I D ip di (returns h) (inl (r, p, t)) = absurd (cc (h, r))
  Move-Orders P I D ip di (returns h) (inr o) = inr o
  Move-Orders {a} P I D ip di stops_server o =
      part-Orders (stop_grpc out a).0 at_publisher P I D refl refl refl
        (Orders-Same a (stop_grpc out a).1 (stop_grpc-Same a) o)
  Move-Orders {a} P I D ip di stops_publisher o =
      part-Orders (stop_publisher out a).0 at_engine P I D refl refl refl
        (Orders-Same a (stop_publisher out a).1 (stop_publisher-Same a) o)
  Move-Orders {a} P I D ip di disposes o =
      part-Orders (dispose out a).0 at_telemetry P I D refl refl refl
        (Orders-Same a (dispose out a).1 (dispose-Same a) o)
  Move-Orders P I D ip di (is_cancelled at_server h) o = o
  Move-Orders P I D ip di (is_cancelled at_publisher h) o = o
  Move-Orders P I D ip di (is_cancelled at_engine h) o = o
  Move-Orders P I D ip di (is_cancelled at_telemetry h) o = o
  Move-Orders P I D ip di (is_cancelled p h) o = cc h
  Move-Orders P I D ip di shuts_telemetry (inl (r, p, t)) = absurd (omega (arith, p))
  Move-Orders P I D ip di shuts_telemetry (inr (r, i, inl (d, t))) =
      inr (r, i, inr (omega (arith, d), refl))
  Move-Orders P I D ip di shuts_telemetry (inr (r, i, inr (d, t))) = absurd (omega (arith, i, d))

  -- The counts around one task.
  total-around :
      (f : Place → ℕ) (front back : List Place) (p : Place)
      → total f (front ++ p ∷ back) ≡ f p + (total f front + total f back)
  total-around f front back p = omega (arith, total-append f front (p ∷ back))

  total-guard :
      (f : Place → ℕ) (l : List Place) → f guard ≡ 0 → total f (l ++ guard ∷ []) ≡ total f l
  total-guard f l h = omega (arith, total-append f l (guard ∷ []), h)

  -- The same service and the same counts.
  Orders-counts :
      (run on : Bool) {P I D Q J E : ℕ}
      → P ≡ Q
      → I ≡ J
      → D ≡ E
      → Orders run on P I D
      → Orders run on Q J E
  Orders-counts run on p i d o = rw (sym p, sym i, sym d) o

  others_le :
      (f g : Place → ℕ)
      → ((p : Place) → f p ≤ g p)
      → (front back : List Place) → total f front + total f back ≤ total g front + total g back
  others_le f g h front back = omega (arith, total_le f g h front, total_le f g h back)

  Step-IsOrderly : {s t : System W} → Step out s t → IsOrderly s → IsOrderly t
  Step-IsOrderly {s} (happens w) o = o
  Step-IsOrderly {s} signal o =
      Orders-counts s.app.is_running s.app.manager.initialized
        (sym (total-guard is_past s.tasks refl)) (sym (total-guard is_in s.tasks refl))
        (sym (total-guard is_done s.tasks refl)) o
  Step-IsOrderly {s} (turn front back {p} {q} {b} e m) o =
      Orders-counts b.is_running b.manager.initialized (sym (total-around is_past front back q))
        (sym (total-around is_in front back q)) (sym (total-around is_done front back q))
        (Move-Orders (others is_past) (others is_in) (others is_done)
          (others_le is_in is_past is_in_le front back)
          (others_le is_done is_in is_done_le front back) m
          (Orders-counts s.app.is_running s.app.manager.initialized (around is_past) (around is_in)
            (around is_done) o))
    where
      others : (Place → ℕ) → ℕ
      others f = total f front + total f back

      around : (f : Place → ℕ) → total f s.tasks ≡ f p + others f
      around f = ap (total f) e ∙ total-around f front back p

  -- For a service that `initialize` has left with the telemetry on, any number of signals at any time,
  -- and turns of `start` and of the signals' tasks in any order, cancellations included:
  -- as long as the flag is set, no task has been through the guard of `shutdown` and the telemetry is
  -- on; once it is cleared, exactly one task has gone past the guard into the parts of `shutdown`, all
  -- others return at the guard, and the telemetry is off exactly if that task has gone through all
  -- four parts.
  pub Reachable-IsOrderly :
      (a : TaskServiceApp W)
      → a.manager.initialized ≡ true
      → {s : System W} → Reachable out a s
      → IsOrderly s
  Reachable-IsOrderly a h begun = inl (refl, refl, h)
  Reachable-IsOrderly a h (later r t) = Step-IsOrderly t (Reachable-IsOrderly a h r)
