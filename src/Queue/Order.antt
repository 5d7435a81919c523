-- ===== src/Queue/Order.antt =====
-- Items are processed in the order in which they were accepted, each until it is done with.
use outbound_freeswitch_dial.Prelude.{
  ℕ, zero, suc, ◌+◌, ◌-◌, ◌*◌, ◌^◌, ◌≤◌, ◌<◌, ap, min, max, ◌≡◌, Bool, true, false, not, ◌&&◌,
  Option, none, some, List, [], ◌∷◌, ◌++◌, map, arith, if◌then◌else◌, append-nil, append_assoc,
}
use mathlib.Core.List.{map-append}
use native.Mathlib.Nat.{pow-suc, mul_comm, mul_left_comm}
use outbound_freeswitch_dial.Queue.{
  Queue, Entry, Options, Event, enqueued, waited, stopping, processed, fired, Outcome, success,
  failure, construct, step, run, enqueue, retry_delay,
}
use outbound_freeswitch_dial.Queue.Invariant.{first, Inv, step-Inv, construct-Inv}

abbrev pub items : {A : Type 0} → List (Entry A) → List A
items = map (λ e. e.item)

abbrev item_of : {A : Type 0} → Option (Entry A) → List A
item_of none = []
item_of (some e) = e.item ∷ []

-- The first-in first-out contract: what the queue has accepted, and what it is done with.
pub record Ledger (A : Type 0) : Type 0 where
  pub accepted : List A
  pub finished : List A

-- An item is done with once `process` has succeeded on it, or has failed for good.
abbrev is_final : {E : Type 0} → Options E → Outcome E → Bool
is_final o success = true
is_final o (failure x) = not (o.is_transient x)

module _ {A : Type 0} where
  items-concat :
      (f : List A) (es : List (Entry A)) (e : Entry A)
      → f ++ items (es ++ e ∷ []) ≡ (f ++ items es) ++ e.item ∷ []
  items-concat f es e = rw (map-append, append_assoc)

  abbrev rest : List (Entry A) → List (Entry A)
  rest [] = []
  rest (e ∷ es) = es

  finish_head :
      (f : List A) (es : List (Entry A))
      → (f ++ item_of (first es)) ++ items (rest es) ≡ f ++ items es
  finish_head f [] = append-nil (f ++ [])
  finish_head f (e ∷ es) = append_assoc f (e.item ∷ []) (items es)

module _ {A E : Type 0} where
  abbrev pub account : Options E → Queue A E → Event A E → Ledger A → Ledger A
  account o q (enqueued a) l =
      if (enqueue o a q).1 then record l { accepted = l.accepted ++ a ∷ [] } else l
  account o q (processed r) l =
      if q.processing && is_final o r
      then record l { finished = l.finished ++ item_of q.in_flight }
      else l
  account o q _ l = l

  pub ledger : Options E → Queue A E → Ledger A → List (Event A E) → Ledger A
  ledger o q l [] = l
  ledger o q l (e ∷ es) = ledger o (step o q e) (account o q e l) es

  abbrev Balanced : Queue A E → Ledger A → Type 0
  Balanced q l = q.stopped ≡ false → l.accepted ≡ l.finished ++ items q.entries

  step-Balanced :
      (o : Options E) (q : Queue A E) (e : Event A E) (l : Ledger A)
      → Inv o q
      → Balanced q l
      → Balanced (step o q e) (account o q e l)
  unfolding step
  step-Balanced o q (enqueued a) l i h s = ground (
    arith,
    items-concat l.finished q.entries (record { key = q.next_key; attempts = 0; item = a }),
  )
  step-Balanced o q (waited w) l i h s = ground arith
  step-Balanced o q stopping l i h s = ground arith
  step-Balanced o q (processed success) l i h s = ground (arith, finish_head l.finished q.entries)
  step-Balanced o q (processed (failure x)) l i h s =
      ground (arith, finish_head l.finished q.entries)
  step-Balanced o q fired l i h s = ground arith

  stopped_step :
      (o : Options E) (q : Queue A E) (e : Event A E)
      → (step o q e).stopped ≡ false
      → q.stopped ≡ false
  unfolding step
  stopped_step o q (enqueued a) s = ground arith
  stopped_step o q (waited w) s = ground arith
  stopped_step o q stopping s = ground arith
  stopped_step o q (processed success) s = ground arith
  stopped_step o q (processed (failure x)) s = ground arith
  stopped_step o q fired s = ground arith

  run-Balanced :
      (o : Options E) (q : Queue A E) (l : Ledger A) (es : List (Event A E))
      → Inv o q
      → Balanced q l
      → Balanced (run o q es) (ledger o q l es)
  unfolding run ledger
  run-Balanced o q l [] i b = b
  run-Balanced o q l (e ∷ es) i b =
      run-Balanced o (step o q e) (account o q e l) es (step-Inv o q e i)
        (step-Balanced o q e l i b)

  construct-Balanced :
      (o : Options E) {q : Queue A E}
      → construct o ≡ some q
      → Balanced q (record { accepted = []; finished = [] })
  unfolding construct
  construct-Balanced o e s = ground arith

  -- From a new queue, over every sequence of events, as long as the queue is not stopped: the
  -- items that `enqueue` accepted, in order, are the items that `process` has finished with,
  -- succeeded or failed for good, in the order in which they finished, followed by the items that
  -- are still queued. None is lost, doubled or overtaken, whatever transient failures happened.
  pub run_first_in_first_out :
      (o : Options E) (es : List (Event A E)) {q : Queue A E}
      → construct o ≡ some q
      → (run o q es).stopped ≡ false
      → let l = ledger o q (record { accepted = []; finished = [] }) es in
        l.accepted ≡ l.finished ++ items (run o q es).entries
  run_first_in_first_out o es {q} e =
      run-Balanced o q _ es (construct-Inv o e) (construct-Balanced o e)

pow_mono : (m n : ℕ) → m ≤ n → 2 ^ m ≤ 2 ^ n
pow_mono zero zero h = omega arith
pow_mono zero (suc n) h = simp pow-suc (omega (arith, pow_mono zero n (omega arith)))
pow_mono (suc m) zero h = elim h [ ]
pow_mono (suc m) (suc n) h = simp pow-suc (omega (arith, pow_mono m n (omega arith)))

stays : (n : ℕ) → min (max (n + 31 - 1) 0) 30 ≡ 30
stays n = omega arith

-- Twice a delay that is cut at the maximum, cut again.
doubled_and_cut : (m i x : ℕ) → min m (i * (2 * x)) ≡ min m (2 * min m (i * x))
doubled_and_cut m i x =
    let same : i * (2 * x) ≡ 2 * (i * x) = omega (arith, mul_left_comm i 2 x) in omega (arith, same)

doubles :
    {E : Type 0} (o : Options E) (k : ℕ)
    → k < 30
    → retry_delay o (k + 2) ≡ min o.max_retry_ms (2 * retry_delay o (k + 1))
unfolding retry_delay
doubles o k h =
    let this : min (max (k + 2 - 1) 0) 30 ≡ suc k = omega arith in
    let last : min (max (k + 1 - 1) 0) 30 ≡ k = omega arith in
    rw (this, last, pow-suc, mul_comm (2 ^ k) 2)
      (doubled_and_cut o.max_retry_ms o.initial_retry_ms (2 ^ k))

-- The delays double: the first is the initial one, and for the next thirty retries each is twice
-- the one before, cut at the configured maximum; from then on the delay stays. So no delay is below
-- an earlier one or above the maximum.
pub retry_delay_backoff :
    {E : Type 0} (o : Options E) (n k : ℕ)
    → k < 30
    → (retry_delay o 1 ≡ min o.max_retry_ms o.initial_retry_ms)
      × (retry_delay o (k + 2) ≡ min o.max_retry_ms (2 * retry_delay o (k + 1)))
      × (retry_delay o (n + 31) ≡ retry_delay o 31)
      × (retry_delay o n ≤ retry_delay o (n + 1))
      × (retry_delay o n ≤ o.max_retry_ms)
unfolding retry_delay
retry_delay_backoff o n k h = (
  omega arith,
  doubles o k h,
  ap (λ e. min o.max_retry_ms (o.initial_retry_ms * 2 ^ e)) (stays n),
  grind (arith, pow_mono (min (max (n - 1) 0) 30) (min (max (n + 1 - 1) 0) 30) (omega arith)),
  omega arith,
)
