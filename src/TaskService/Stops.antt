-- ===== src/TaskService/Stops.antt =====
-- What the parts of `initialize` and `shutdown` keep of the flag `_running`, and what holds when
-- `shutdown` has gone through.
use taskforge_platform.Common.{◌≡◌, refl, Bool, true, false, Option, none, some, if◌then◌else◌}
use taskforge_platform.Common.Result.{⊤, Result, ok, err}
use taskforge_platform.Common.Method.{modify, when, for_some, ◌>>◌}
use taskforge_platform.EventBus.Publisher.{EventPublisher, stopped}
use taskforge_platform.EventBus.Publisher
use taskforge_platform.Observability
use taskforge_platform.TaskService.Keeps.{
  Post, Ensures, Ensures->>, Keeps, Keeps->>, Keeps-when, Keeps-for_some,
}
use taskforge_platform.TaskService.{
  Outside, TaskGrpcServer, TaskServiceApp, ask, on_publisher, stop_server, set_up_telemetry,
  make_engine, start_publisher, make_server, initialize, stop_grpc, stop_publisher, dispose,
  stop_telemetry, stop_all,
}

-- The producer of the publisher was given up and the telemetry was shut down.
abbrev pub NoProducer : {W : Type 0} → Option (EventPublisher W) → Type 0
NoProducer none = Unit
NoProducer (some p) = p.has_producer ≡ false

abbrev pub IsStopped : {W : Type 0} → TaskServiceApp W → Type 0
IsStopped a = NoProducer a.event_publisher × (a.manager.initialized ≡ false)

module _ {X W : Type 0} (out : Outside X W) where
  pub Keeps-stop_server : (s : TaskGrpcServer) → Keeps (stop_server out s)
  unfolding stop_server
  Keeps-stop_server s = Keeps-when s.has_server (ask out out.stop_server) (λ a. refl)

  Keeps-stop : Keeps (stop_grpc out >> stop_publisher out >> dispose out >> stop_telemetry out)
  unfolding stop_grpc stop_publisher dispose stop_telemetry
  Keeps-stop =
      Keeps->> (stop_grpc out >> stop_publisher out >> dispose out) (stop_telemetry out)
        (Keeps->> (stop_grpc out >> stop_publisher out) (dispose out)
          (Keeps->> (stop_grpc out) (stop_publisher out)
            (λ a. Keeps-for_some a.grpc_server (stop_server out) Keeps-stop_server a)
            (λ a.
              Keeps-for_some a.event_publisher (on_publisher out (Publisher.stop out.bus))
                (λ p b. refl) a))
          (λ a. Keeps-when a.has_engine (ask out out.dispose_engine) (λ b. refl) a))
        (λ a. refl)

  pub stop_all-is_running : (a : TaskServiceApp W) → (stop_all out a).1.is_running ≡ false
  unfolding stop_all
  stop_all-is_running a = Keeps-stop (record a { is_running = false })

  abbrev Quiet : Result X ⊤ × EventPublisher W → Type 0
  Quiet (ok _, q) = q.has_producer ≡ false
  Quiet (err x, q) = Unit

  stop-Quiet : (p : EventPublisher W) → Quiet (Publisher.stop out.bus p)
  unfolding Publisher.stop
  stop-Quiet p = go p.has_producer refl (out.bus.stop_producer p.world)
    where
      go :
          (b : Bool)
          → p.has_producer ≡ b
          → (e : Result X ⊤ × W)
          → Quiet (if b then stopped out.bus e.0 (record p { world = e.1 }) else (ok tt, p))
      go true h (ok _, w) = refl
      go true h (err x, w) = tt
      go false h e = h

  abbrev PublisherStopped : TaskServiceApp W → Type 0
  PublisherStopped a = NoProducer a.event_publisher

  stop-PublisherStopped :
      (r : Result X ⊤) (q : EventPublisher W) (a : TaskServiceApp W)
      → Quiet (r, q)
      → Post PublisherStopped (r, record a { event_publisher = some q; world = q.world })
  stop-PublisherStopped (ok _) q a h = h
  stop-PublisherStopped (err x) q a h = tt

  stop_publisher-PublisherStopped : Ensures (stop_publisher out) PublisherStopped
  unfolding stop_publisher
  stop_publisher-PublisherStopped a = go a.event_publisher refl
    where
      go :
          (o : Option (EventPublisher W))
          → a.event_publisher ≡ o
          → Post PublisherStopped (for_some o (on_publisher out (Publisher.stop out.bus)) a)
      go none h = rw h tt
      go (some p) h =
          let q = record p { world = a.world } in
          stop-PublisherStopped (Publisher.stop out.bus q).0 (Publisher.stop out.bus q).1 a
            (stop-Quiet q)

  dispose-PublisherStopped :
      (a : TaskServiceApp W) → PublisherStopped a → Post PublisherStopped (dispose out a)
  unfolding dispose
  dispose-PublisherStopped a h = go a.has_engine
    where
      ran :
          (r : Result X ⊤)
          → Post PublisherStopped (r, record a { world = (out.dispose_engine a.world).1 })
      ran (ok _) = h
      ran (err x) = tt

      go : (b : Bool) → Post PublisherStopped (when b (ask out out.dispose_engine) a)
      go true = ran (out.dispose_engine a.world).0
      go false = h

  pub stop_all-IsStopped : Ensures (stop_all out) IsStopped
  unfolding stop_all stop_telemetry Observability.shutdown
  stop_all-IsStopped a =
      Ensures->> (stop_grpc out >> stop_publisher out >> dispose out) (stop_telemetry out)
        PublisherStopped IsStopped
        (Ensures->> (stop_grpc out >> stop_publisher out) (dispose out) PublisherStopped
          PublisherStopped
          (Ensures->> (stop_grpc out) (stop_publisher out) (λ b. Unit) PublisherStopped
            (λ b. anyhow (stop_grpc out b)) (λ b h. stop_publisher-PublisherStopped b))
          dispose-PublisherStopped)
        closed (record a { is_running = false })
    where
      anyhow : (r : Result X ⊤ × TaskServiceApp W) → Post (λ b. Unit) r
      anyhow (ok _, b) = tt
      anyhow (err x, b) = tt

      closed : (b : TaskServiceApp W) → PublisherStopped b → Post IsStopped (stop_telemetry out b)
      closed b h = (h, refl)

  pub Keeps-initialize : Keeps (initialize out)
  unfolding initialize set_up_telemetry make_engine start_publisher make_server
  Keeps-initialize =
      Keeps->>
        (set_up_telemetry out
          >> make_engine out
          >> ask out out.create_schema
          >> start_publisher out)
        (make_server out)
        (Keeps->> (set_up_telemetry out >> make_engine out >> ask out out.create_schema)
          (start_publisher out)
          (Keeps->> (set_up_telemetry out >> make_engine out) (ask out out.create_schema)
            (Keeps->> (set_up_telemetry out) (make_engine out) (λ a. refl)
              (Keeps->> (ask out out.create_engine) (modify (λ a. record a { has_engine = true }))
                (λ a. refl) (λ a. refl)))
            (λ a. refl))
          (λ a. refl))
        (λ a. refl)
