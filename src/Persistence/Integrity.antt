-- ===== src/Persistence/Integrity.antt =====
-- The event streams of the table have no gaps, whatever is saved to it: what `save_events` keeps.
pub mod Units
pub mod Commands
use taskforge_platform.Common.{
  ℕ, ◌+◌, ◌≤◌, ◌<◌, ◌≡◌, ◌≢◌, refl, sym, ap, ◌∙◌, subst, arith, Bool, true, false, ◌&&◌, ◌||◌,
  String, List, [], ◌∷◌, ◌++◌, length, length-append, append-nil, ◌==◌, str_eq, eq_iff, nat_beq,
  Bool-cases, inl, inr, if◌then◌else◌,
}
use taskforge_platform.Common.Integer.{ℤ, is_pos}
use taskforge_platform.Common.Result.{⊤, Result, ok, err}
use taskforge_platform.Common.Method.{continue}
use taskforge_platform.EventSourcing.{DomainEvent}
use taskforge_platform.EventSourcing.Replay.{Numbered, Numbered-append}
use taskforge_platform.Task.Errors.{Error}
use taskforge_platform.Persistence.Store.{
  Row, Session, max_version, is_taken, insert_event, insert_events, get_current_version, save_some,
  save_events,
}
use taskforge_platform.Persistence.Store.Writes.{rows_of, save_events_appends}
use taskforge_platform.Persistence.Reads.Streams.{stream, stream-append, stream-rows_of}

module _ {B : Type 0} where
  -- The events of every aggregate are its own, and numbered from 1 without a gap.
  abbrev pub IsGapless : List (Row B) → Type 0
  IsGapless rows = (id : String) → Numbered id 0 (stream id rows)

  -- The events are of the aggregate, and none is numbered further on than by one.
  abbrev pub Climbs : String → ℕ → List (DomainEvent B) → Type 0
  Climbs id n [] = Unit
  Climbs id n (e ∷ es) =
      (0 < e.version) × (e.version ≤ n + 1) × (e.aggregate_id ≡ id) × Climbs id e.version es

  -- A version that the stream has is taken.
  is_taken-below :
      (id : String) (k : ℕ) (e : DomainEvent B) (rs : List (Row B))
      → Numbered id k (stream id rs)
      → k < e.version
      → e.version ≤ k + length (stream id rs)
      → is_taken id e rs ≡ true
  unfolding is_taken
  is_taken-below id k e [] num low high = absurd (omega arith)
  is_taken-below id k e (r ∷ rs) num low high = elim (Bool-cases (r.stored_under == id)) [
    | inl mine ↦
        let (here, _, later) = rw mine at num in
        let high' = rw mine at high in
        elim (Bool-cases (nat_beq r.event.version e.version)) [
          | inl same ↦ rw (mine, same) (ground arith)
          | inr differ ↦
              let next : k + 1 < e.version = ground (arith, here, differ, low) in
              rw (is_taken-below id (k + 1) e rs later next (omega (arith, high'))) (ground arith)
        ]
    | inr other ↦
        rw (is_taken-below id k e rs (rw other at num) low (rw other at high)) (ground arith)
  ]

  -- The table is gapless and every stream is as long as before, or longer.
  pub record Kept (s t : Session B) : Type 0 where
    pub gapless : IsGapless t.rows
    pub grown : (id : String) → length (stream id s.rows) ≤ length (stream id t.rows)

  pub Kept-refl : (s : Session B) → IsGapless s.rows → Kept s s
  Kept-refl s g = record { gapless = g; grown = λ id. omega arith }

  pub Kept-trans : (s t u : Session B) → Kept s t → Kept t u → Kept s u
  Kept-trans s t u h k = record {
    gapless = k.gapless;
    grown = λ id. omega (arith, h.grown id, k.grown id);
  }

  Numbered-own :
      (id j : String) (e : DomainEvent B) (rows : List (Row B))
      → Numbered j 0 (stream j rows)
      → e.aggregate_id ≡ id
      → e.version ≡ length (stream id rows) + 1
      → Numbered j 0 (stream j (rows ++ rows_of id (e ∷ [])))
  Numbered-own id j e rows num own v = elim (Bool-cases (id == j)) [
    | inl same ↦
        let here : id ≡ j = (eq_iff id j).0 same in
        rw (stream-append j rows (rows_of id (e ∷ [])), same)
          (Numbered-append j 0 (stream j rows) e num (rw here at v ∙ omega arith) (own ∙ here))
    | inr other ↦
        rw (stream-append j rows (rows_of id (e ∷ [])), other, append-nil (stream j rows)) num
  ]

  length-grown :
      (id j : String) (e : DomainEvent B) (rows : List (Row B))
      → length (stream j rows) ≤ length (stream j (rows ++ rows_of id (e ∷ [])))
  length-grown id j e rows =
      rw (stream-append j rows (rows_of id (e ∷ [])))
        (omega (arith, length-append (stream j rows) (stream j (rows_of id (e ∷ [])))))

  length-own :
      (id : String) (e : DomainEvent B) (rows : List (Row B))
      → length (stream id (rows ++ rows_of id (e ∷ []))) ≡ length (stream id rows) + 1
  length-own id e rows =
      rw (stream-append id rows (rows_of id (e ∷ [])), stream-rows_of id (e ∷ []))
        (length-append (stream id rows) (e ∷ []))

  -- What one insertion leaves: the table is kept, and the version is in it if the insertion returned.
  record Inserted (id : String) (v : ℕ) (s : Session B) (p : Result Error ⊤ × Session B)
      : Type 0 where
    kept : Kept s p.1
    stored : (p.0 ≡ ok tt) → v ≤ length (stream id p.1.rows)

  insert_event-Inserted :
      (id : String) (n : ℕ) (e : DomainEvent B) (s : Session B)
      → IsGapless s.rows
      → n ≤ length (stream id s.rows)
      → 0 < e.version
      → e.version ≤ n + 1
      → e.aggregate_id ≡ id
      → Inserted id e.version s (insert_event id e s)
  unfolding insert_event
  insert_event-Inserted id n e s g within low high own = elim (Bool-cases s.aborted) [
    | inl gone ↦ simp gone (record { kept = Kept-refl s g; stored = λ h. absurd (cc h) })
    | inr sound ↦ elim (Bool-cases (is_taken id e s.rows)) [
      | inl taken ↦
          simp (sound, taken)
            (record {
              kept = record { gapless = g; grown = λ j. omega arith };
              stored = λ h. absurd (cc h);
            })
      | inr free ↦
          simp (sound, free)
            (record {
              kept = record {
                gapless = λ j. Numbered-own id j e s.rows (g j) own (next free);
                grown = λ j. length-grown id j e s.rows;
              };
              stored = λ _. omega (arith, length-own id e s.rows, next free);
            })
    ]
  ]
    where
      next : is_taken id e s.rows ≡ false → e.version ≡ length (stream id s.rows) + 1
      next free = ground (arith, is_taken-below id 0 e s.rows (g id), within, low, high)

  -- What `insert_events` leaves, whether or not it returns.
  insert_events-Kept :
      (id : String) (n : ℕ) (es : List (DomainEvent B)) (s : Session B)
      → IsGapless s.rows
      → n ≤ length (stream id s.rows)
      → Climbs id n es
      → Kept s (insert_events id es s).1
  unfolding insert_events
  insert_events-Kept id n [] s g within c = Kept-refl s g
  insert_events-Kept id n (e ∷ es) s g within (low, high, own, later) =
      go (insert_event id e s).0 (insert_event id e s).1
        (insert_event-Inserted id n e s g within low high own)
        (λ t kept stored. insert_events-Kept id e.version es t kept stored later)
    where
      go :
          (x : Result Error ⊤) (t : Session B)
          → Inserted id e.version s (x, t)
          → ((t : Session B)
              → IsGapless t.rows
              → e.version ≤ length (stream id t.rows)
              → Kept t (insert_events id es t).1)
          → Kept s (continue x (λ _. insert_events id es) t).1
      go (err x) t h ih = h.kept
      go (ok _) t h ih = Kept-trans s t _ h.kept (ih t h.kept.gapless (h.stored refl))

  save_some-Kept :
      (id : String) (n : ℕ) (es : List (DomainEvent B)) (z : ℤ) (s : Session B)
      → IsGapless s.rows
      → n ≤ length (stream id s.rows)
      → Climbs id n es
      → Kept s (save_some id es z s).1
  unfolding save_some get_current_version
  save_some-Kept id n es z s g within c = elim (Bool-cases s.aborted) [
    | inl gone ↦ simp gone (Kept-refl s g)
    | inr sound ↦ elim (Bool-cases (is_pos (max_version id s.rows) z)) [
      | inl at ↦ simp (sound, at) (insert_events-Kept id n es s g within c)
      | inr off ↦ simp (sound, off) (Kept-refl s g)
    ]
  ]

  -- Whether or not `save_events` returns, and whatever version it is told to expect, it leaves a
  -- gapless table gapless if the events climb from a version that the aggregate has reached.
  pub save_events-Kept :
      (id : String) (n : ℕ) (es : List (DomainEvent B)) (z : ℤ) (s : Session B)
      → IsGapless s.rows
      → n ≤ length (stream id s.rows)
      → Climbs id n es
      → Kept s (save_events id es z s).1
  unfolding save_events
  save_events-Kept id n [] z s g within c = Kept-refl s g
  save_events-Kept id n (e ∷ es) z s g within c = save_some-Kept id n (e ∷ es) z s g within c

  pub Numbered-middle :
      (id : String) (n : ℕ) (xs es : List (DomainEvent B)) (e : DomainEvent B)
      → Numbered id n (xs ++ e ∷ es)
      → e.version ≡ n + length xs + 1
  Numbered-middle id n [] es e h = omega (arith, h.0)
  Numbered-middle id n (x ∷ xs) es e h = omega (arith, Numbered-middle id (n + 1) xs es e h.2)

  -- A `save_events` that returns starts at the next version, and adds to the stream.
  pub save_events_next :
      (id : String) (n : ℕ) (e : DomainEvent B) (es : List (DomainEvent B)) (z : ℤ)
      (s t : Session B)
      → IsGapless s.rows
      → n ≤ length (stream id s.rows)
      → Climbs id n (e ∷ es)
      → save_events id (e ∷ es) z s ≡ (ok tt, t)
      → (e.version ≡ length (stream id s.rows) + 1)
        × (length (stream id s.rows) < length (stream id t.rows))
  save_events_next id n e es z s t g within c h =
      let (_, rows, _) = save_events_appends id (e ∷ es) z s t (λ x. cc) h in
      let kept : Kept s t =
        subst (λ p. Kept s p.1) h (save_events-Kept id n (e ∷ es) z s g within c) in
      let whole : stream id t.rows ≡ stream id s.rows ++ (e ∷ es) =
        ap (stream id) rows
        ∙ (stream-append id s.rows (rows_of id (e ∷ es))
            ∙ ap (λ l. stream id s.rows ++ l) (stream-rows_of id (e ∷ es))) in
      (
        omega (
          arith,
          Numbered-middle id 0 (stream id s.rows) es e
              (subst (λ l. Numbered id 0 l) whole (kept.gapless id)),
        ),
        omega (arith, ap length whole, length-append (stream id s.rows) (e ∷ es)),
      )
