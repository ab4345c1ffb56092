-- ===== src/Demo/Writers.antt =====
-- Two writers of one stream of the demo program's event store.
use taskforge_platform.Common.{
  ℕ, suc, ◌+◌, ◌≡◌, refl, sym, ap, ◌∙◌, subst, arith, Bool, true, false, not, ◌⊎◌, inl, inr, String,
  Option, none, some, List, [], ◌∷◌, ◌++◌, length, length-append, nat_beq, nat_beq_iff,
  if◌then◌else◌,
}
use taskforge_platform.Common.Dict.{get_or, insert, lookup-insert_self}
use taskforge_platform.Common.Result.{⊤, Result, ok, err}
use taskforge_platform.Demo.{
  ValueError, version_conflict, DomainEvent, EventStore, save_events, TaskAggregate,
  get_uncommitted,
}
use taskforge_platform.Demo.Numbers.{Command, perform_all, Numbered, perform_all-IsLog}

unfoldable pub stream : String → EventStore → List DomainEvent
unfolding get_or
stream id store = get_or id [] store

stream-insert :
    (id : String) (es : List DomainEvent) (store : EventStore) → stream id (insert id es store) ≡ es
unfolding stream get_or
stream-insert id es store =
    ap (λ (o : Option (List DomainEvent)). elim o [ none ↦ [] | some l ↦ l ])
      (lookup-insert_self id es store)

save_events-decided :
    (id : String) (es : List DomainEvent) (n : ℕ) (store : EventStore) (b : Bool)
    → nat_beq (length (stream id store)) n ≡ b
    → save_events id es n store ≡ (
        if not b
        then (err (version_conflict n (length (stream id store))), store)
        else (ok tt, insert id (stream id store ++ es) store))
unfolding save_events stream
save_events-decided id es n store b h =
    ap
      (λ (x : Bool).
        if not x
        then (err (version_conflict n (length (stream id store))), store)
        else (ok tt, insert id (stream id store ++ es) store))
      h

nat_beq-past : (m n k : ℕ) → m ≡ n + suc k → nat_beq m n ≡ false
nat_beq-past m n k h = ground arith

-- What a save leaves of a task that was at `a`, is at `b` and was saved into `store`.
abbrev pub SavedOnce :
    EventStore → TaskAggregate → TaskAggregate → Result ValueError ⊤ × EventStore → Type 0
unfolding stream
SavedOnce store a b (r, s) =
    let id = a.aggregate_id in
    (r ≡ ok tt)
    × (stream id s ≡ stream id store ++ b.uncommitted)
    × Numbered id a.version b.uncommitted
    × (length (stream id s) ≡ b.version)
    × ((b.version ≡ a.version)
        ⊎ ((es : List DomainEvent)
            → save_events id es a.version s ≡ (err (version_conflict a.version b.version), s)))

conflicts :
    (id : String) (n : ℕ) (b : TaskAggregate) (s : EventStore)
    → b.version ≡ n + length b.uncommitted
    → length (stream id s) ≡ b.version
    → (b.version ≡ n)
      ⊎ ((es : List DomainEvent) → save_events id es n s ≡ (err (version_conflict n b.version), s))
conflicts id n b s v k = go b.uncommitted v
  where
    go :
        (l : List DomainEvent)
        → b.version ≡ n + length l
        → (b.version ≡ n)
          ⊎ ((es : List DomainEvent)
              → save_events id es n s ≡ (err (version_conflict n b.version), s))
    go [] e = inl (omega (arith, e))
    go (f ∷ l) e = inr (λ es.
        save_events-decided id es n s false
          (nat_beq-past (length (stream id s)) n (length l) (k ∙ e))
        ∙ ap (λ m. (err (version_conflict n m), s)) k)

-- For a task without uncommitted events whose stream is as long as its version, and whatever calls
-- are made on it: saving its events with the version that it was at returns, appends them to the
-- stream, numbered on from there, and leaves the stream as long as the new version. If there were
-- any, a second writer that saves with the old version, whatever its events, is refused with that
-- version and the new one, and changes nothing.
pub save_events-SavedOnce :
    (cs : List Command) (a : TaskAggregate) (store : EventStore)
    → a.uncommitted ≡ []
    → length (stream a.aggregate_id store) ≡ a.version
    → let b = (perform_all cs a).1 in
      SavedOnce store a b (save_events a.aggregate_id (get_uncommitted b) a.version store)
unfolding get_uncommitted SavedOnce
save_events-SavedOnce cs a store none_left same =
    let b = (perform_all cs a).1 in
    let id = a.aggregate_id in
    let s : EventStore = insert id (stream id store ++ b.uncommitted) store in
    let (i, l, v) = perform_all-IsLog cs id a.version a (
      refl,
      subst (Numbered id a.version) (sym none_left) tt,
      subst (λ l. a.version ≡ a.version + length l) (sym none_left) (omega arith),
    ) in
    let saved = stream-insert id (stream id store ++ b.uncommitted) store in
    let long : length (stream id s) ≡ b.version =
      omega (arith, ap length saved, length-append (stream id store) b.uncommitted, same, v) in
    subst (SavedOnce store a b)
      (sym (save_events-decided id b.uncommitted a.version store true ((nat_beq_iff _ _).1 same)))
      (refl, saved, l, long, conflicts id a.version b s v long)
