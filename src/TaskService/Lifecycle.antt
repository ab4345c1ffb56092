-- ===== src/TaskService/Lifecycle.antt =====
-- Without a signal: the service is stopped once, unless it could not be initialized.
use taskforge_platform.Common.{◌≡◌, refl, ap, ◌∙◌, Bool, true, false, some, if◌then◌else◌}
use taskforge_platform.Common.Result.{⊤, Result, ok, err}
use taskforge_platform.Common.Method.{continue}
use taskforge_platform.TaskService.Keeps.{Post, Keeps-for_some}
use taskforge_platform.TaskService.{
  Waited, terminated, was_cancelled, broken, Outside, TaskServiceApp, start_server, stop_server,
  initialize, stop_all, shutdown, waited, serve_forever, finally_shutdown, serve, start,
}
use taskforge_platform.TaskService.Stops.{
  IsStopped, Keeps-stop_server, stop_all-is_running, stop_all-IsStopped, Keeps-initialize,
}

module _ {X W : Type 0} (out : Outside X W) where
  -- The service `a` was running, and what follows the guard of `shutdown` has made `b` of it.
  abbrev pub StoppedFrom : TaskServiceApp W → TaskServiceApp W → Type 0
  unfolding stop_all
  StoppedFrom a b =
      (a.is_running ≡ true)
      × (b ≡ (stop_all out a).1)
      × (b.is_running ≡ false)
      × Post IsStopped (stop_all out a)

  shutdown-StoppedFrom :
      (a : TaskServiceApp W) → a.is_running ≡ true → StoppedFrom a (shutdown out a).1
  unfolding shutdown StoppedFrom
  shutdown-StoppedFrom a h =
      (h, rw h refl, rw h (stop_all-is_running out a), stop_all-IsStopped out a)

  shutdown-idle : (a : TaskServiceApp W) → a.is_running ≡ false → shutdown out a ≡ (ok tt, a)
  unfolding shutdown
  shutdown-idle a h = ap (λ (b : Bool). if b then stop_all out a else (ok tt, a)) h

  waited-is_running :
      (x : Waited X) (a : TaskServiceApp W) → (waited out x a).1.is_running ≡ a.is_running
  unfolding waited
  waited-is_running terminated a = refl
  waited-is_running was_cancelled a =
      Keeps-for_some a.grpc_server (stop_server out) (Keeps-stop_server out) a
  waited-is_running (broken x) a = refl

  serve_forever-is_running :
      (a : TaskServiceApp W) → (serve_forever out a).1.is_running ≡ a.is_running
  unfolding serve_forever start_server
  serve_forever-is_running a = go (out.start_server a.world).0
    where
      w : W
      w = (out.start_server a.world).1

      b : TaskServiceApp W
      b = record a { grpc_server = some (record { has_server = true }); world = w }

      go :
          (r : Result X ⊤)
          → (continue r
              (λ _ (c : TaskServiceApp W).
                let (x, v) = out.wait_for_termination c.world in
                waited out x (record c { world = v }))
              b).1.is_running
            ≡ a.is_running
      go (ok _) =
          waited-is_running (out.wait_for_termination w).0
            (record b { world = (out.wait_for_termination w).1 })
      go (err x) = refl

  -- `initialize` raised, or it returned and the service has run.
  abbrev pub Ran : Result X ⊤ × TaskServiceApp W → Result X ⊤ × TaskServiceApp W → Type 0
  unfolding StoppedFrom shutdown serve_forever
  Ran (err x, a) p = (p ≡ (err x, a)) × (shutdown out a ≡ (ok tt, a))
  Ran (ok _, a) (r, c) =
      StoppedFrom (serve_forever out (record a { is_running = true })).1 c
      × (shutdown out c ≡ (ok tt, c))

  -- For a service that is not running, and a run of `start` in which no signal comes: if
  -- `initialize` raises, so does `start`, which leaves the service as `initialize` has left it, and a
  -- call of `shutdown` changes nothing. If `initialize` returns, then however the server ends, `start`
  -- leaves what `shutdown`, past its guard, makes of the service as `serve_forever` has left it, and
  -- a further call of `shutdown` changes nothing; if no part of it has raised, the publisher has no
  -- producer left and the telemetry is shut down.
  pub start_lem :
      (a : TaskServiceApp W) → a.is_running ≡ false → Ran (initialize out a) (start out a)
  unfolding start serve finally_shutdown StoppedFrom
  start_lem a h = go (initialize out a).0 (initialize out a).1 (Keeps-initialize out a)
    where
      go :
          (r : Result X ⊤) (b : TaskServiceApp W)
          → b.is_running ≡ a.is_running
          → Ran (r, b) (continue r (λ _. serve out) b)
      go (ok _) b e =
          let c = (serve_forever out (record b { is_running = true })).1 in
          let s =
            shutdown-StoppedFrom c (serve_forever-is_running (record b { is_running = true })) in
          let (run, same, off, all) = s in (s, shutdown-idle (shutdown out c).1 off)
      go (err x) b e = (refl, shutdown-idle b (e ∙ h))
