-- ===== src/Calls/Retention.antt =====
-- apps/api/src/dashboard/retention.ts: the deletion of old calls by `runRetention`. Recordings and
-- captures are files; `keeps_file` says of which calls one is left, and `created_at` when a call was
-- created, columns that nothing else here reads.
use outbound_freeswitch_dial.Prelude.{ℕ, Bool, not, ◌&&◌, Option, none, some, any, filter, ltb}
use outbound_freeswitch_dial.Calls.Schema.{Call, Leg, CallEvent, Db, is_terminal, has_id}

-- `coalesce(ended_at, created_at)`.
abbrev age_of : ℕ → Option ℕ → ℕ
age_of created none = created
age_of created (some at) = at

abbrev pub is_expired : ℕ → (ℕ → ℕ) → (ℕ → Bool) → Call → Bool
is_expired cutoff created_at keeps_file c =
    ltb (age_of (created_at c.id) c.ended_at) cutoff && is_terminal c.state && not (keeps_file c.id)

-- `delete from calls where ...`; the legs, events and captures of a call go with it.
unfoldable pub delete_expired_calls : ℕ → (ℕ → ℕ) → (ℕ → Bool) → Db → Db
delete_expired_calls cutoff created_at keeps_file db =
    let expired = is_expired cutoff created_at keeps_file in
    let is_deleted = λ (n : ℕ). any (λ c. has_id n c && expired c) db.calls in
    record db {
      calls = filter (λ c. not (expired c)) db.calls;
      legs = filter (λ (l : Leg). not (is_deleted l.call_id)) db.legs;
      events = filter (λ (e : CallEvent). not (is_deleted e.call_id)) db.events;
      pcaps = filter (λ n. not (is_deleted n)) db.pcaps;
    }
