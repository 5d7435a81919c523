-- ===== src/Queue/Invariant.antt =====
-- What holds of the queue between two handlers: it is bounded, it never stalls, and what a
-- suspended `drain` holds is the head.
use outbound_freeswitch_dial.Prelude.{
  ◌≤◌, ◌≡◌, ◌⊎◌, true, false, Option, none, some, List, [], ◌∷◌, length, arith, is_some,
  length-concat,
}
use outbound_freeswitch_dial.Queue.{
  Queue, Entry, Options, Event, enqueued, waited, stopping, processed, fired, success, failure,
  construct, is_empty, step, run,
}

abbrev pub first : {A : Type 0} → List (Entry A) → Option (Entry A)
first [] = none
first (e ∷ es) = some e

module _ {A E : Type 0} where
  pub record Inv (o : Options E) (q : Queue A E) : Type 0 where
    pub bounded : length q.entries ≤ o.max_size
    pub held : q.processing ≡ is_some q.in_flight
    pub holds_head : q.processing ≡ true → (q.stopped ≡ true) ⊎ (q.in_flight ≡ first q.entries)
    pub one_reason : q.processing ≡ true → q.timer ≡ false
    pub busy : is_empty q.entries ≡ false → (q.processing ≡ true) ⊎ (q.timer ≡ true)
    pub timer_busy : q.timer ≡ true → is_empty q.entries ≡ false
    pub no_waiters_idle :
        q.stopped ≡ false → q.processing ≡ false → q.timer ≡ false → q.waiters ≡ []
    pub stopped_empty : q.stopped ≡ true → (q.entries ≡ []) × (q.timer ≡ false)

  -- Every handler keeps the invariant.
  pub step-Inv : (o : Options E) (q : Queue A E) (e : Event A E) → Inv o q → Inv o (step o q e)
  unfolding step
  step-Inv o q (enqueued a) h =
      ground (arith, length-concat q.entries (record { key = q.next_key; attempts = 0; item = a }))
  step-Inv o q (waited w) h = ground arith
  step-Inv o q stopping h = ground arith
  step-Inv o q (processed success) h = ground arith
  step-Inv o q (processed (failure x)) h = ground arith
  step-Inv o q fired h = ground arith

  pub run-Inv :
      (o : Options E) (q : Queue A E) (es : List (Event A E)) → Inv o q → Inv o (run o q es)
  unfolding run
  run-Inv o q [] h = h
  run-Inv o q (e ∷ es) h = run-Inv o (step o q e) es (step-Inv o q e h)

  pub construct-Inv : (o : Options E) {q : Queue A E} → construct o ≡ some q → Inv o q
  unfolding construct
  construct-Inv o e = ground arith

  -- Whatever is enqueued, awaited, settled or fired, and in whatever order, the queue never holds
  -- more than `maxSize` entries, and while it is not stopped it is waiting for `process` or for the
  -- retry timer, never for both, as long as an entry is left; when neither is pending no entry and
  -- no idle waiter is left.
  pub run_never_stalls :
      (o : Options E) (es : List (Event A E)) {q : Queue A E}
      → construct o ≡ some q
      → let r = run o q es in
        (length r.entries ≤ o.max_size)
        × (is_empty r.entries ≡ false → (r.processing ≡ true) ⊎ (r.timer ≡ true))
        × ¬ ((r.processing ≡ true) × (r.timer ≡ true))
        × (r.stopped ≡ false
            → r.processing ≡ false
            → r.timer ≡ false
            → (r.entries ≡ []) × (r.waiters ≡ []))
  run_never_stalls o es {q} e =
      let i = run-Inv o q es (construct-Inv o e) in
      (
        i.bounded,
        i.busy,
        (λ both. ground (arith, i.one_reason both.0)),
        λ s p t. (ground (arith, i.busy), i.no_waiters_idle s p t),
      )
