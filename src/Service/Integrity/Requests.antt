-- ===== src/Service/Integrity/Requests.antt =====
-- What each handler keeps.
use taskforge_platform.Common.{
  ℕ, ◌+◌, ◌≡◌, refl, sym, ap, ◌∙◌, subst, arith, Bool, true, String, Option, none, some, List, [],
  ◌∷◌, length, Bool-cases, inl, inr, Runtime, Datetime,
}
use taskforge_platform.Common.Integer.{ℤ}
use taskforge_platform.Common.Dict.{lookup, insert}
use taskforge_platform.Common.Result.{⊤, Result, ok, err}
use taskforge_platform.Common.Method.{continue}
use taskforge_platform.EventSourcing.Replay.{Numbered}
use taskforge_platform.Task.Errors.{Error, aborted_transaction}
use taskforge_platform.Task.Events.{TaskEventData, TaskEvent}
use taskforge_platform.Task.Aggregate.{TaskAggregate}
use taskforge_platform.Task.Aggregate.Methods.{Fresh, create, from_events}
use taskforge_platform.Task.Aggregate.Methods.Commands.{Command, execute}
use taskforge_platform.Persistence.Store.{Session}
use taskforge_platform.Persistence.Reads.{get_events}
use taskforge_platform.Persistence.Reads.Streams.{stream, reload, get_events-stream}
use taskforge_platform.Persistence.Tasks.{TaskRepository, cache_task, load, get_cached, get_by_id}
use taskforge_platform.Persistence.Integrity.{Kept, Kept-refl}
use taskforge_platform.Persistence.Integrity.Units.{IsQueued}
use taskforge_platform.Persistence.Integrity.Commands.{
  settled-IsQueued, execute-IsQueued, create-IsQueued, from_events_settled,
}
use taskforge_platform.Service.{
  CreateTaskRequest, create_command, share, save_task, store_created, create_task, after_call,
  on_found, on_task,
}
use taskforge_platform.Service.Integrity.{
  Fits, IsSound, insert-IsSound, share-IsSound, share-session, save_task-Saved, Loaded,
}

module _ ⦃rt : Runtime⦄ (iso : (d : Datetime) → rt.fromisoformat (rt.isoformat d) ≡ some d)
    (clock : ℕ → Datetime) where
  length-reload : (n : ℕ) (es : List TaskEvent) → length (reload iso clock n es) ≡ length es
  length-reload n [] = refl
  length-reload n (e ∷ es) = omega (arith, length-reload (n + 1) es)

  Numbered-reload :
      (id : String) (n k : ℕ) (es : List TaskEvent)
      → Numbered id k es
      → Numbered id k (reload iso clock n es)
  Numbered-reload id n k [] h = tt
  Numbered-reload id n k (e ∷ es) h = (h.0, h.1, Numbered-reload id (n + 1) (k + 1) es h.2)

  abbrev task_or : TaskAggregate → Result Error (Option TaskAggregate) → TaskAggregate
  task_or a (ok (some b)) = b
  task_or a (ok none) = a
  task_or a (err x) = a

  nothing-Loaded :
      (id : String) (x : Error) (r : TaskRepository) → IsSound r → Loaded id r (err x, r)
  nothing-Loaded id x r h = record { sound = h; same = refl; fits = λ a e. absurd (cc e) }

  cache_task-Loaded :
      (id : String) (y : Result Error TaskAggregate) (r : TaskRepository)
      → IsSound r
      → ((a : TaskAggregate) → y ≡ ok a → Fits id a r)
      → Loaded id r (cache_task id y r)
  unfolding cache_task
  cache_task-Loaded id (err x) r h f = nothing-Loaded id x r h
  cache_task-Loaded id (ok a) r h f = elim (Bool-cases a.state.is_deleted) [
    | inl gone ↦ simp gone (record { sound = h; same = refl; fits = λ b e. absurd (cc e) })
    | inr live ↦ simp live (record {
      sound =
          subst (λ j. IsSound (record r { cache = insert j a r.cache })) (f a refl).0
            (insert-IsSound a r (f a refl).1 h);
      same = refl;
      fits = λ b e. subst (λ c. Fits id c r) (ap (task_or a) e) (f a refl);
    })
  ]

  load-Loaded :
      (id : String) (es : List TaskEvent) (r : TaskRepository)
      → IsSound r
      → Numbered id 0 es
      → length es ≡ length (stream id r.session.rows)
      → Loaded id r (load id es r)
  unfolding load
  load-Loaded id [] r h num l = record { sound = h; same = refl; fits = λ b e. absurd (cc e) }
  load-Loaded id (e ∷ es) r h num l = cache_task-Loaded id (from_events (e ∷ es)) r h (λ a built.
      let (i, v, none_left) = from_events_settled id e es a num built in
      (
        i,
        settled-IsQueued a r.session none_left
            (omega (arith, v, l, ap (λ j. length (stream j r.session.rows)) i)),
      ))

  get_events_aborted :
      (id : String) (s : Session TaskEventData)
      → s.aborted ≡ true
      → get_events clock id 0 s ≡ (err aborted_transaction, s)
  unfolding get_events
  get_events_aborted id s gone = simp gone

  pub get_by_id-Loaded :
      (id : String) (r : TaskRepository) → IsSound r → Loaded id r (get_by_id clock id r)
  unfolding get_by_id
  get_by_id-Loaded id r h = go (lookup id r.cache) refl
    where
      behind :
          Result Error (List TaskEvent) × Session TaskEventData
          → Result Error (Option TaskAggregate) × TaskRepository
      behind (x, s) = continue x (load id) (record r { session = s })

      go :
          (o : Option TaskAggregate) → lookup id r.cache ≡ o → Loaded id r (get_cached clock id o r)
      go (some a) there = record {
        sound = h;
        same = refl;
        fits = λ b e. subst (λ c. Fits id c r) (ap (task_or a) e) (h.cached id a there);
      }
      go none missing = elim (Bool-cases r.session.aborted) [
        | inl gone ↦
            subst (λ p. Loaded id r (behind p)) (sym (get_events_aborted id r.session gone))
              (nothing-Loaded id aborted_transaction r h)
        | inr sound ↦
            subst (λ p. Loaded id r (behind p))
              (sym (get_events-stream iso clock id r.session sound (h.gapless id)))
              (load-Loaded id (reload iso clock 0 (stream id r.session.rows)) r h
                (Numbered-reload id 0 0 (stream id r.session.rows) (h.gapless id))
                (length-reload 0 (stream id r.session.rows)))
      ]

  -- The body of the three handlers that change a task, for a command on it: it keeps the table and
  -- the cache sound, and if it answers a task, it has not written to the table.
  pub record Served (r : TaskRepository) (p : Result Error TaskAggregate × TaskRepository)
      : Type 0 where
    pub sound : IsSound p.1
    pub kept : Kept r.session p.1.session
    pub idle : (b : TaskAggregate) → p.0 ≡ ok b → p.1.session ≡ r.session

  raised-Served : (x : Error) (r : TaskRepository) → IsSound r → Served r (err x, r)
  raised-Served x r h = record {
    sound = h;
    kept = Kept-refl r.session h.gapless;
    idle = λ b e. absurd (cc e);
  }

  after_call-Served :
      (z : ℤ) (x : Result Error ⊤) (a : TaskAggregate) (r : TaskRepository)
      → IsSound r
      → IsQueued a r.session
      → Served r (after_call clock z x a r)
  unfolding after_call
  after_call-Served z (err x) a r h q = record {
    sound = share-IsSound a r q h;
    kept = subst (λ s. Kept r.session s) (sym (share-session a r)) (Kept-refl r.session h.gapless);
    idle = λ b e. absurd (cc e);
  }
  after_call-Served z (ok _) a r h q =
      let same = sym (share-session a r) in
      let done =
        save_task-Saved a (some z) (share a r) (share-IsSound a r q h)
          (subst (λ s. IsQueued a s) same q) in
      record {
        sound = done.sound;
        kept =
            subst (λ s. Kept s (save_task a (some z) (share a r)).1.session) (sym same) done.kept;
        idle = λ b e. (done.idle b e).1 ∙ sym same;
      }

  on_found-Served :
      (id : String) (frozen : Bool) (f : Fresh) (c : Command) (z : ℤ)
      (y : Result Error (Option TaskAggregate)) (r : TaskRepository)
      → IsSound r
      → ((a : TaskAggregate) → y ≡ ok (some a) → Fits id a r)
      → Served r (on_found clock id (execute frozen f c) z y r)
  unfolding on_found
  on_found-Served id frozen f c z (err x) r h fits = raised-Served x r h
  on_found-Served id frozen f c z (ok none) r h fits = raised-Served _ r h
  on_found-Served id frozen f c z (ok (some a)) r h fits =
      after_call-Served z (execute frozen f c a).0 (execute frozen f c a).1 r h
        (execute-IsQueued frozen f c a r.session (fits a refl).1)

  pub on_task-Served :
      (id : String) (frozen : Bool) (f : Fresh) (c : Command) (z : ℤ) (r : TaskRepository)
      → IsSound r
      → Served r (on_task clock id (execute frozen f c) z r)
  unfolding on_task
  on_task-Served id frozen f c z r h =
      let found = get_by_id-Loaded id r h in
      let done =
        on_found-Served id frozen f c z (get_by_id clock id r).0 (get_by_id clock id r).1
          found.sound found.fits in
      record {
        sound = done.sound;
        kept =
            subst (λ s. Kept s (on_task clock id (execute frozen f c) z r).1.session) found.same
              done.kept;
        idle = λ b e. done.idle b e ∙ found.same;
      }

module _ ⦃rt : Runtime⦄ (frozen : Bool) (f : Fresh) where
  store_created-IsSound :
      (id : String) (q : CreateTaskRequest) (x : Result Error TaskAggregate) (r : TaskRepository)
      → IsSound r
      → create frozen f id (create_command q) ≡ x
      → IsSound (store_created frozen f x r).1
  unfolding store_created
  store_created-IsSound id q (err x) r h made = h
  store_created-IsSound id q (ok a) r h made =
      (save_task-Saved a none r h
        (create-IsQueued frozen f id (create_command q) a r.session made)).sound

  pub create_task-IsSound :
      (id : String) (q : CreateTaskRequest) (r : TaskRepository)
      → IsSound r
      → IsSound (create_task frozen f id q r).1
  unfolding create_task
  create_task-IsSound id q r h =
      store_created-IsSound id q (create frozen f id (create_command q)) r h refl
