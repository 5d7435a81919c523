-- ===== src/Queue.antt =====
-- apps/api/src/ordered-retry-queue.ts: the `OrderedRetryQueue` that persists FreeSWITCH events.
-- JavaScript runs one handler at a time, so each method and each continuation is one step. An
-- entry object is known by its `key`: `this.entries[0] === entry` compares keys.
-- `in_flight` is the entry that the suspended `drain` holds; its attempts are written only by
-- that `drain`. Calls of the options are effects.
pub mod Invariant
pub mod Order
pub mod Lifecycle
pub mod Progress
mod Examples
use outbound_freeswitch_dial.Prelude.{
  ℕ, zero, suc, ◌+◌, ◌-◌, ◌*◌, ◌^◌, min, max, Bool, true, false, not, ◌&&◌, ◌||◌, Option, none,
  some, List, [], ◌∷◌, ◌++◌, map, length, leb, ◌==◌, if◌then◌else◌, is_some, is_none,
}

pub record Entry (A : Type 0) : Type 0 where
  pub key : ℕ
  pub attempts : ℕ
  pub item : A

-- What a step does outside the queue.
pub data Effect (A E : Type 0) : Type 0 where
  depth_changed : ℕ → Effect A E
  started : A → Effect A E
  retried : E → A → ℕ → ℕ → Effect A E
  failed : E → A → Effect A E
  timer_set : ℕ → Effect A E
  timer_cleared : Effect A E
  resolved : ℕ → Effect A E

-- `isTransientError` is a parameter of the queue.
pub record Options (E : Type 0) : Type 0 where
  pub initial_retry_ms : ℕ
  pub max_retry_ms : ℕ
  pub max_size : ℕ
  pub is_transient : E → Bool

-- `next_key` numbers the entry objects; a waiter is the number of its promise.
pub record Queue (A E : Type 0) : Type 0 where
  pub entries : List (Entry A)
  pub waiters : List ℕ
  pub processing : Bool
  pub in_flight : Option (Entry A)
  pub timer : Bool
  pub stopped : Bool
  pub next_key : ℕ
  pub effects : List (Effect A E)

-- How `options.process` ends.
pub data Outcome (E : Type 0) : Type 0 where
  success : Outcome E
  failure : E → Outcome E

unfoldable pub retry_delay : {E : Type 0} → Options E → ℕ → ℕ
retry_delay o attempt =
    let exponent = min (max (attempt - 1) 0) 30 in
    min o.max_retry_ms (o.initial_retry_ms * 2 ^ exponent)

module _ {A : Type 0} where
  abbrev pub is_empty : List (Entry A) → Bool
  is_empty [] = true
  is_empty (e ∷ es) = false

  -- `this.entries[0] === entry`.
  abbrev pub is_head : Option (Entry A) → List (Entry A) → Bool
  is_head none es = false
  is_head (some f) [] = false
  is_head (some f) (e ∷ es) = e.key == f.key

module _ {A E : Type 0} where
  abbrev pub emit : Effect A E → Queue A E → Queue A E
  emit e q = record q { effects = q.effects ++ e ∷ [] }

  -- The constructor: `none` where it throws.
  unfoldable pub construct : Options E → Option (Queue A E)
  construct o =
      if not (leb 1 o.max_size)
      then none
      else some (record {
        entries = [];
        waiters = [];
        processing = false;
        in_flight = none;
        timer = false;
        stopped = false;
        next_key = 0;
        effects = depth_changed 0 ∷ [];
      })

  unfoldable pub is_at_capacity : Options E → Queue A E → Bool
  is_at_capacity o q = leb o.max_size (length q.entries)

  -- `for (const resolve of this.idleWaiters) resolve()`, then `clear()`.
  abbrev pub resolve_all : Queue A E → Queue A E
  resolve_all q = record q { effects = q.effects ++ map resolved q.waiters; waiters = [] }

  unfoldable pub resolve_idle_waiters : Queue A E → Queue A E
  resolve_idle_waiters q =
      if not (is_empty q.entries) || q.processing || q.timer then q else resolve_all q

  -- `drain` from `const entry = this.entries[0]` up to the `await`.
  unfoldable pub take_head : List (Entry A) → Queue A E → Queue A E
  unfolding resolve_idle_waiters
  take_head [] q = resolve_idle_waiters q
  take_head (e ∷ es) q = emit (started e.item) (record q { processing = true; in_flight = some e })

  unfoldable pub drain : Queue A E → Queue A E
  unfolding take_head
  drain q = if q.stopped || q.processing || q.timer then q else take_head q.entries q

  unfoldable pub enqueue : Options E → A → Queue A E → Queue A E × Bool
  unfolding is_at_capacity drain
  enqueue o a q =
      if q.stopped || is_at_capacity o q
      then (q, false)
      else let pushed = record q {
        entries = q.entries ++ (record { key = q.next_key; attempts = 0; item = a }) ∷ [];
        next_key = q.next_key + 1;
      } in
        (drain (emit (depth_changed (length pushed.entries)) pushed), true)

  -- `Promise.resolve()` is the effect `resolved` at once.
  unfoldable pub wait_for_idle : ℕ → Queue A E → Queue A E
  wait_for_idle w q =
      if is_empty q.entries && not q.processing && not q.timer
      then emit (resolved w) q
      else record q { waiters = q.waiters ++ w ∷ [] }

  unfoldable pub stop : Queue A E → Queue A E × ℕ
  stop q =
      let marked = record q { stopped = true } in
      let cleared =
        if q.timer then emit timer_cleared (record marked { timer = false }) else marked in
      let emptied = emit (depth_changed 0) (record cleared { entries = [] }) in
      (resolve_all emptied, length q.entries)

  -- The rest of the `try` block after the `await`.
  unfoldable pub on_success : List (Entry A) → Queue A E → Queue A E
  on_success [] q = q
  on_success (e ∷ es) q =
      if not q.stopped && is_head q.in_flight (e ∷ es)
      then emit (depth_changed (length es)) (record q { entries = es })
      else q

  -- The branch of a transient error: the head counts the attempt and waits for the timer.
  retry_head : Options E → E → Entry A → List (Entry A) → Queue A E → Queue A E
  unfolding retry_delay
  retry_head o x e es q =
      let attempts = e.attempts + 1 in
      let delay = retry_delay o attempts in
      let told = emit (retried x e.item attempts delay) q in
      emit (timer_set delay)
        (record told { entries = record e { attempts = attempts } ∷ es; timer = true })

  -- The `catch` block.
  unfoldable pub on_failure : Options E → E → List (Entry A) → Queue A E → Queue A E
  unfolding retry_head
  on_failure o x [] q = q
  on_failure o x (e ∷ es) q =
      if q.stopped || not (is_head q.in_flight (e ∷ es))
      then q
      else if o.is_transient x
      then retry_head o x e es q
      else emit (failed x e.item) (emit (depth_changed (length es)) (record q { entries = es }))

  -- The `catch` block returns early exactly where `this.entries[0] !== entry` or it is stopped;
  -- `finally` runs on every path, the last `if` only where nothing returned.
  unfoldable pub returns_early : Queue A E → Outcome E → Bool
  returns_early q success = false
  returns_early q (failure x) = q.stopped || not (is_head q.in_flight q.entries)

  abbrev pub settled : Options E → Outcome E → Queue A E → Queue A E
  settled o success q = on_success q.entries q
  settled o (failure x) q = on_failure o x q.entries q

  -- The continuation of `drain` once `options.process(entry.item)` has settled.
  unfoldable pub resume : Options E → Outcome E → Queue A E → Queue A E
  unfolding on_success on_failure returns_early drain
  resume o r q =
      let done = record (settled o r q) { processing = false; in_flight = none } in
      if returns_early q r || done.timer then done else drain done

  -- The callback of `setTimeout`.
  unfoldable pub timer_fires : Queue A E → Queue A E
  unfolding drain
  timer_fires q = drain (record q { timer = false })

-- What can happen to a queue, one handler at a time. A continuation runs only while a `process`
-- is in flight, and the callback only while the timer is set.
pub data Event (A E : Type 0) : Type 0 where
  enqueued : A → Event A E
  waited : ℕ → Event A E
  stopping : Event A E
  processed : Outcome E → Event A E
  fired : Event A E

module _ {A E : Type 0} where
  unfoldable pub step : Options E → Queue A E → Event A E → Queue A E
  unfolding enqueue wait_for_idle stop resume timer_fires
  step o q (enqueued a) = (enqueue o a q).0
  step o q (waited w) = wait_for_idle w q
  step o q stopping = (stop q).0
  step o q (processed r) = if q.processing then resume o r q else q
  step o q fired = if q.timer then timer_fires q else q

  unfoldable pub run : Options E → Queue A E → List (Event A E) → Queue A E
  run o q [] = q
  run o q (e ∷ es) = run o (step o q e) es
