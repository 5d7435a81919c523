-- ===== src/Coalesced.antt =====
-- apps/api/src/coalesced-task.ts: `CoalescedTask`, which runs the reconciliation of active calls.
-- Each method, and the continuation of `await this.task()`, is one step; calls of the task, of
-- `onError` and of the waiters' resolvers are effects.
pub mod Laws
mod Examples
use outbound_freeswitch_dial.Prelude.{
  ℕ, Bool, true, false, not, ◌&&◌, ◌||◌, List, [], ◌∷◌, ◌++◌, map, if◌then◌else◌,
}

pub data Effect (E : Type 0) : Type 0 where
  task_started : Effect E
  error_reported : E → Effect E
  resolved : ℕ → Effect E

pub record Task (E : Type 0) : Type 0 where
  pub waiters : List ℕ
  pub requested : Bool
  pub running : Bool
  pub stopped : Bool
  pub effects : List (Effect E)

pub data Outcome (E : Type 0) : Type 0 where
  success : Outcome E
  failure : E → Outcome E

module _ {E : Type 0} where
  abbrev pub idle_task : Task E
  idle_task = record {
    waiters = [];
    requested = false;
    running = false;
    stopped = false;
    effects = [];
  }

  abbrev pub emit : Effect E → Task E → Task E
  emit e t = record t { effects = t.effects ++ e ∷ [] }

  unfoldable pub resolve_idle_waiters : Task E → Task E
  resolve_idle_waiters t = record t { effects = t.effects ++ map resolved t.waiters; waiters = [] }

  -- One round of `while (this.requested && !this.stopped)`, up to its `await`, and the `finally`
  -- block where the loop ends. There `requested && !stopped` is the test that just failed, so its
  -- call of `run` is never reached. `onError` is taken to return: where it throws, the source leaves
  -- the loop through `finally`.
  unfoldable pub loop : Task E → Task E
  unfolding resolve_idle_waiters
  loop t =
      if t.requested && not t.stopped
      then emit task_started (record t { requested = false })
      else resolve_idle_waiters (record t { running = false })

  unfoldable pub start : Task E → Task E
  unfolding loop
  start t = if t.running || t.stopped then t else loop (record t { running = true })

  unfoldable pub request : Task E → Task E
  unfolding start
  request t = if t.stopped then t else start (record t { requested = true })

  unfoldable pub wait_for_idle : ℕ → Task E → Task E
  wait_for_idle w t =
      if not t.requested && not t.running
      then emit (resolved w) t
      else record t { waiters = t.waiters ++ w ∷ [] }

  unfoldable pub stop : Task E → Task E
  unfolding resolve_idle_waiters
  stop t =
      let halted = record t { stopped = true; requested = false } in
      if not halted.running then resolve_idle_waiters halted else halted

  unfoldable pub report : Outcome E → Task E → Task E
  report success t = t
  report (failure x) t = emit (error_reported x) t

  -- The rest of `run` once the task has settled.
  unfoldable pub settle : Outcome E → Task E → Task E
  unfolding report loop
  settle r t = loop (report r t)

pub data Event (E : Type 0) : Type 0 where
  requesting : Event E
  waited : ℕ → Event E
  stopping : Event E
  settled : Outcome E → Event E

module _ {E : Type 0} where
  unfoldable pub step : Task E → Event E → Task E
  unfolding request wait_for_idle stop settle
  step t requesting = request t
  step t (waited w) = wait_for_idle w t
  step t stopping = stop t
  step t (settled r) = if t.running then settle r t else t

  unfoldable pub run : Task E → List (Event E) → Task E
  run t [] = t
  run t (e ∷ es) = run (step t e) es
