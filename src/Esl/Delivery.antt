-- ===== src/Esl/Delivery.antt =====
-- What the `data` handler of apps/api/src/esl-events.ts delivers to the queue, and the order of
-- what it writes.
use outbound_freeswitch_dial.Prelude.{
  ℕ, zero, suc, ◌+◌, ◌≤◌, ◌<◌, ◌≡◌, refl, sym, ap, ◌∙◌, Bool, true, false, ◌||◌, List, [], ◌∷◌,
  ◌++◌, map, length, take, leb, ltb, arith, append_assoc, append-nil, length-concat, Bool-cases,
  inl, inr,
}
use mathlib.Core.List.{map-append}
use outbound_freeswitch_dial.Queue.{
  Queue, Entry, emit, depth_changed, Options, enqueue, drain, take_head, resolve_idle_waiters,
  is_at_capacity,
}
use outbound_freeswitch_dial.Queue.Order.{items}
use outbound_freeswitch_dial.Esl.{EslFrame}
use outbound_freeswitch_dial.Esl.Listener.{
  events, ListenerEffect, destroyed, set_connected, fallback_handles, Connection, on_event,
  on_frame, at_stage, on_frames, does,
}

module _ {E : Type 0} where
  head_stays :
      (es : List (Entry EslFrame)) (q : Queue EslFrame E)
      → ((take_head es q).entries ≡ q.entries) × ((take_head es q).stopped ≡ q.stopped)
  unfolding take_head resolve_idle_waiters
  head_stays [] q = (ground arith, ground arith)
  head_stays (e ∷ es) q = (refl, refl)

  -- What `drain` leaves alone.
  drain-entries :
      (q : Queue EslFrame E) → ((drain q).entries ≡ q.entries) × ((drain q).stopped ≡ q.stopped)
  unfolding drain take_head resolve_idle_waiters
  drain-entries q = elim (Bool-cases (q.stopped || q.processing || q.timer)) [
    | inl waits ↦ rw waits (refl, refl)
    | inr runs ↦ rw runs (head_stays q.entries q)
  ]

  enqueue_pushes :
      (o : Options E) (f : EslFrame) (q : Queue EslFrame E)
      → q.stopped ≡ false
      → length q.entries < o.max_size
      → (p : Queue EslFrame E) × (enqueue o f q ≡ (drain p, true))
        × (p.entries ≡ q.entries ++ (record { key = q.next_key; attempts = 0; item = f }) ∷ [])
        × (p.stopped ≡ false)
  unfolding enqueue is_at_capacity
  enqueue_pushes o f q s h =
      let free : leb o.max_size (length q.entries) ≡ false = ground arith in
      let new : Entry EslFrame = record { key = q.next_key; attempts = 0; item = f } in
      (
        emit (depth_changed (length (q.entries ++ new ∷ [])))
            (record q { entries = q.entries ++ new ∷ []; next_key = q.next_key + 1 }),
        rw (s, free) refl,
        refl,
        s,
      )

  enqueue-taken :
      (o : Options E) (f : EslFrame) (q : Queue EslFrame E)
      → q.stopped ≡ false
      → length q.entries < o.max_size
      → (p : Queue EslFrame E) × (enqueue o f q ≡ (p, true))
        × (items p.entries ≡ items q.entries ++ f ∷ [])
        × (p.stopped ≡ false)
        × (length p.entries ≡ suc (length q.entries))
  enqueue-taken o f q s h =
      let (p, e, pushed, open_still) = enqueue_pushes o f q s h in
      let entries = (drain-entries p).0 ∙ pushed in
      (
        drain p,
        e,
        ap items entries ∙ map-append _ q.entries _,
        (drain-entries p).1 ∙ open_still,
        ap length entries ∙ length-concat q.entries _,
      )

  enqueue-refused :
      (o : Options E) (f : EslFrame) (q : Queue EslFrame E)
      → o.max_size ≤ length q.entries
      → enqueue o f q ≡ (q, false)
  unfolding enqueue is_at_capacity
  enqueue-refused o f q h =
      let full : (q.stopped || leb o.max_size (length q.entries)) ≡ true = ground arith in
      rw full refl

  taken_event :
      (o : Options E) (f : EslFrame) (c : Connection E) (p : Queue EslFrame E)
      → c.stage ≡ events
      → enqueue o f c.queue ≡ (p, true)
      → on_frame o f c ≡ (record (does (fallback_handles f ∷ []) c) { queue = p }, false)
  unfolding on_frame at_stage on_event
  taken_event o f c p e t = rw (e, t) refl

  refused_event :
      (o : Options E) (f : EslFrame) (c : Connection E)
      → c.stage ≡ events
      → enqueue o f c.queue ≡ (c.queue, false)
      → on_frame o f c
        ≡ (does (set_connected false ∷ destroyed ∷ []) (does (fallback_handles f ∷ []) c), true)
  unfolding on_frame at_stage on_event
  refused_event o f c e t = rw (e, t) refl

abbrev pub overflow : Bool → List ListenerEffect
overflow true = set_connected false ∷ destroyed ∷ []
overflow false = []

-- On a subscribed connection, with room for `room` more events in the queue, the frames of a chunk
-- are queued in order as long as there is room. Where one finds none, the connection is destroyed,
-- and the frames after it are neither queued nor handled; the effects tell the two cases apart.
pub subscribed_connection_queues_in_order :
    {E : Type 0} (room : ℕ) (o : Options E) (fs : List EslFrame) (c : Connection E)
    → c.stage ≡ events
    → c.queue.stopped ≡ false
    → room + length c.queue.entries ≡ o.max_size
    → (items (on_frames o fs c).queue.entries ≡ items c.queue.entries ++ take room fs)
      × ((on_frames o fs c).effects
          ≡ c.effects
            ++ (map fallback_handles (take (suc room) fs) ++ overflow (ltb room (length fs))))
unfolding on_frames
subscribed_connection_queues_in_order zero o [] c e s h = (sym (append-nil _), sym (append-nil _))
subscribed_connection_queues_in_order (suc room) o [] c e s h =
    let fits : ltb (suc room) 0 ≡ false = ground arith in
    (sym (append-nil _), rw fits (sym (append-nil c.effects)))
subscribed_connection_queues_in_order zero o (f ∷ fs) c e s h =
    let over : ltb 0 (suc (length fs)) ≡ true = ground arith in
    rw (refused_event o f c e (enqueue-refused o f c.queue (omega arith)), over)
      (
        sym (append-nil _),
        append_assoc c.effects (fallback_handles f ∷ []) (set_connected false ∷ destroyed ∷ []),
      )
subscribed_connection_queues_in_order (suc room) o (f ∷ fs) c e s h =
    let (p, t, queued, still, size) = enqueue-taken o f c.queue s (omega arith) in
    let d = record (does (fallback_handles f ∷ []) c) { queue = p } in
    let (order, told) =
      subscribed_connection_queues_in_order room o fs d e still (omega (arith, size, h)) in
    let same : ltb (suc room) (suc (length fs)) ≡ ltb room (length fs) = ground arith in
    rw (taken_event o f c p e t, same)
      (
        order
            ∙ ap (λ l. l ++ take room fs) queued
            ∙ append_assoc (items c.queue.entries) (f ∷ []) _,
        told ∙ append_assoc c.effects (fallback_handles f ∷ []) _,
      )
