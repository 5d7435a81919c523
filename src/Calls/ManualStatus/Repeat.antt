-- ===== src/Calls/ManualStatus/Repeat.antt =====
-- A correction by hand: what it writes, and what a repeated one does.
use outbound_freeswitch_dial.Prelude.{
  ℕ, ◌≡◌, inl, inr, refl, sym, subst, ap, ◌∙◌, Bool, true, false, ◌&&◌, ◌||◌, not, ◌⊎◌, Option,
  none, some, List, [], ◌∷◌, find, arith, is_some, is_none, Text, Bool-cases,
}
use mathlib.Core.Option.{some-injective}
use outbound_freeswitch_dial.Calls.Schema.{
  CallOutcome, Call, CallEvent, Agent, Db, has_id, is_terminal, find_call, insert_event,
  bind-eq-some,
}
use outbound_freeswitch_dial.Calls.Progression.{enforce-cases, same_state, update_calls}
use outbound_freeswitch_dial.Calls.Rows.{
  Rows, Rows-map, Rows-find, Guarded, update_calls-Rows, All-find, All_any,
}
use outbound_freeswitch_dial.Calls.Finalization.{lock_call_owner_agent, owned_by, owner_of}
use outbound_freeswitch_dial.Calls.ManualStatus.{
  ManualResult, ManualResponse, updated, already_set, active, locked, missing, response_of,
  lock_status, agrees, terminal_state_for_outcome, write_status, set_status_of_row,
  set_manual_call_status,
}

abbrev owns : ℕ → ℕ → Db → Call → Bool
owns n user db c = has_id n c && owned_by (some user) db.agents c

owner-found : (o : Option Call) → (owner_of o).found ≡ is_some o
owner-found none = refl
owner-found (some c) = refl

-- A test that rows keep is met after an update if it was met before.
Rows-some :
    (p : Call → Bool) (cs cs' : List Call)
    → Rows (λ c c'. p c' ≡ p c) cs cs'
    → is_some (find p cs') ≡ is_some (find p cs)
Rows-some p [] [] r = refl
Rows-some p [] (y ∷ ys) r = absurd r.0
Rows-some p (x ∷ xs) [] r = absurd r.0
Rows-some p (x ∷ xs) (y ∷ ys) r = ground (arith, r.0, Rows-some p xs ys r.1)

lock-owned :
    (clock n user : ℕ) (o : CallOutcome) (agents : List Agent) (c c' : Call)
    → Guarded (has_id n) (lock_status clock user o) c c'
    → (c'.id ≡ c.id) × (c'.agent_id ≡ c.agent_id)
lock-owned clock n user o agents c c' g =
    ground (arith, enforce-cases c (lock_status clock user o c) c')

agrees-locked :
    (clock user : ℕ) (o : CallOutcome) (c : Call) → agrees o (lock_status clock user o c) ≡ true
unfolding terminal_state_for_outcome same_state
agrees-locked clock user o c = ground arith

-- The row of a correction that was written, after it.
record Written (n : ℕ) (o : CallOutcome) (db db' : Db) (r : ManualResponse) : Type 0 where
  call : Call
  found : find (has_id n) db'.calls ≡ some call
  response : r ≡ response_of n call
  lock : is_some call.manual_status_locked_at ≡ true
  same : agrees o call ≡ true
  ids : Rows (λ c c'. (c'.id ≡ c.id) × (c'.agent_id ≡ c.agent_id)) db.calls db'.calls
  agents : db'.agents ≡ db.agents

event-keeps :
    (e : CallEvent) (db : Db)
    → ((insert_event e db).calls ≡ db.calls) × ((insert_event e db).agents ≡ db.agents)
unfolding insert_event
event-keeps e db = (ground arith, ground arith)

updated-injective : (a b : ManualResponse) → updated a ≡ updated b → a ≡ b
updated-injective a b e = cc

-- The row that is found after the update is the locked one.
written-row :
    (clock n user : ℕ) (o : CallOutcome) (c y : Call) (cs cs' : List Call)
    → find (has_id n) cs ≡ some c
    → is_none c.manual_status_locked_at ≡ true
    → Rows (Guarded (has_id n) (lock_status clock user o)) cs cs'
    → find (has_id n) cs' ≡ some y
    → y ≡ lock_status clock user o c
written-row clock n user o c y cs cs' f free rows there =
    let (z, at_z, g) =
      Rows-find (Guarded (has_id n) (lock_status clock user o))
        (λ x x' h. (lock-owned clock n user o [] x x' h).0) n cs cs' rows f in
    let hit = (All-find (λ d. Unit {0}) (has_id n) cs (All_any cs) f).1 in
    some-injective y z (sym there ∙ at_z)
    ∙ ground (arith, enforce-cases c (lock_status clock user o c) z)

update-Written :
    (clock n user : ℕ) (o : CallOutcome) (event : CallEvent) (c y : Call) (db db1 : Db)
    → find (has_id n) db.calls ≡ some c
    → is_none c.manual_status_locked_at ≡ true
    → update_calls (has_id n) (lock_status clock user o) db ≡ some db1
    → find (has_id n) db1.calls ≡ some y
    → Written n o db (insert_event event db1) (response_of n y)
update-Written clock n user o event c y db db1 f free done there =
    let (rows, kept) = update_calls-Rows (has_id n) (lock_status clock user o) db db1 done in
    let wrote = written-row clock n user o c y db.calls db1.calls f free rows there in
    let keeps = event-keeps event db1 in
    record {
      call = y;
      found = ap (find (has_id n)) keeps.0 ∙ there;
      response = refl;
      lock = ap (λ (x : Call). is_some x.manual_status_locked_at) wrote;
      same = ap (agrees o) wrote ∙ agrees-locked clock user o c;
      ids = subst (Rows _ db.calls) (sym keeps.0) (
          Rows-map (Guarded (has_id n) (lock_status clock user o))
            (λ c c'. (c'.id ≡ c.id) × (c'.agent_id ≡ c.agent_id))
            (λ x x' h. lock-owned clock n user o [] x x' h) db.calls db1.calls rows);
      agents = keeps.1 ∙ ap (λ (x : Db). x.agents) kept;
    }

write-Written :
    (clock n : ℕ) (a : Option ℕ) (user : ℕ) (o : CallOutcome) (raw : Text) (c : Call) (db db' : Db)
    (r : ManualResponse)
    → find (has_id n) db.calls ≡ some c
    → is_none c.manual_status_locked_at ≡ true
    → write_status clock n a user o raw db ≡ some (db', updated r)
    → Written n o db db' r
unfolding write_status find_call
write-Written clock n a user o raw c db db' r f free e =
    let (db1, done, more) =
      bind-eq-some (update_calls (has_id n) (lock_status clock user o) db) _ e in
    let (y, there, last) = bind-eq-some (find (has_id n) db1.calls) _ more in
    let end = some-injective _ (db', updated r) last in
    subst (λ (x : ManualResponse). Written n o db db' x)
      (updated-injective (response_of n y) r (ap (λ (x : Db × ManualResult). x.1) end))
      (subst (λ (x : Db). Written n o db x (response_of n y))
        (ap (λ (x : Db × ManualResult). x.0) end)
        (update-Written clock n user o _ c y db db1 f free done there))

row-Written :
    (clock n : ℕ) (a : Option ℕ) (user : ℕ) (o : CallOutcome) (raw : Text) (row : Option Call)
    (db db' : Db) (r : ManualResponse)
    → find (has_id n) db.calls ≡ row
    → set_status_of_row clock n a user o raw row db ≡ some (db', updated r)
    → Written n o db db' r
unfolding set_status_of_row
row-Written clock n a user o raw none db db' r f e = absurd (ground arith)
row-Written clock n a user o raw (some c) db db' r f e =
    ground (arith, write-Written clock n a user o raw c db db' r f)

still_owned :
    (n user : ℕ) (agents : List Agent) (c c' : Call)
    → c'.id ≡ c.id
    → c'.agent_id ≡ c.agent_id
    → (has_id n c' && owned_by (some user) agents c')
      ≡ (has_id n c && owned_by (some user) agents c)
still_owned n user agents c c' i a = rw (i, a)

owned_again :
    (n user : ℕ) (db db' : Db)
    → Rows (λ c c'. (c'.id ≡ c.id) × (c'.agent_id ≡ c.agent_id)) db.calls db'.calls
    → db'.agents ≡ db.agents
    → (lock_call_owner_agent n (some user) db').found
      ≡ (lock_call_owner_agent n (some user) db).found
unfolding lock_call_owner_agent
owned_again n user db db' rows same =
    owner-found (find (owns n user db') db'.calls)
    ∙ ap (λ agents. is_some (find (λ c. has_id n c && owned_by (some user) agents c) db'.calls))
        same
    ∙ Rows-some (owns n user db) db.calls db'.calls (
        Rows-map _ (λ c c'. owns n user db c' ≡ owns n user db c)
          (λ c c' e. still_owned n user db.agents c c' e.0 e.1) db.calls db'.calls rows)
    ∙ sym (owner-found (find (owns n user db) db.calls))

set_again :
    (clock n : ℕ) (a : Option ℕ) (user : ℕ) (o : CallOutcome) (raw : Text) {db : Db} (db' : Db)
    (r : ManualResponse)
    → (w : Written n o db db' r)
    → set_status_of_row clock n a user o raw (some w.call) db' ≡ some (db', already_set r)
unfolding set_status_of_row
set_again clock n a user o raw db' r w = rw (w.lock, w.same, w.response) refl

-- A correction that was written can be asked for again: the second request, at any time, reports
-- the same result as already set and changes no table.
pub repeated_correction_changes_nothing :
    (clock later n user : ℕ) (o : CallOutcome) (raw raw' : Text) (db : Db) {db' : Db}
    {r : ManualResponse}
    → set_manual_call_status clock n user o raw db ≡ some (db', updated r)
    → set_manual_call_status later n user o raw' db' ≡ some (db', already_set r)
unfolding set_manual_call_status find_call
repeated_correction_changes_nothing clock later n user o raw raw' db {db'} {r} e =
    elim (Bool-cases (lock_call_owner_agent n (some user) db).found) [
      | inr lost ↦ absurd (ground arith)
      | inl held ↦
          let w =
            row-Written clock n (lock_call_owner_agent n (some user) db).agent_id user o raw
              (find (has_id n) db.calls) db db' r refl (rw held at e) in
          let again = owned_again n user db db' w.ids w.agents ∙ held in
          rw (again, w.found)
            (set_again later n (lock_call_owner_agent n (some user) db').agent_id user o raw' db' r
              w)
    ]

-- The call that an answer is about.
pub record Corrects (n user : ℕ) (db : Db) (lock : Bool) : Type 0 where
  pub call : Call
  pub found : find (has_id n) db.calls ≡ some call
  pub owned : (lock_call_owner_agent n (some user) db).found ≡ true
  pub is_locked : is_some call.manual_status_locked_at ≡ lock

-- What each answer says of the call and of the tables.
abbrev pub Corresponds : ℕ → ℕ → CallOutcome → Db → Db → ManualResult → Type 0
Corresponds n user o db db' (updated r) =
    (x : Corrects n user db false) × (is_some x.call.ended_at ≡ true)
    × (is_terminal x.call.state ≡ true)
Corresponds n user o db db' (already_set r) =
    (db' ≡ db)
    × (x : Corrects n user db true) × (x.call.outcome ≡ some o)
    × (x.call.state ≡ terminal_state_for_outcome o)
Corresponds n user o db db' active =
    (db' ≡ db)
    × (x : Corrects n user db false) × ((x.call.ended_at ≡ none)
        ⊎ (is_terminal x.call.state ≡ false))
Corresponds n user o db db' locked =
    (db' ≡ db)
    × (x : Corrects n user db true) × ¬ (
        (x.call.outcome ≡ some o) × (x.call.state ≡ terminal_state_for_outcome o))
Corresponds n user o db db' missing =
    (db' ≡ db)
    × (((lock_call_owner_agent n (some user) db).found ≡ false) ⊎ (find (has_id n) db.calls ≡ none))

agrees-same :
    (o : CallOutcome) (c : Call)
    → agrees o c ≡ true
    → (c.outcome ≡ some o) × (c.state ≡ terminal_state_for_outcome o)
unfolding same_state terminal_state_for_outcome
agrees-same o c h = ground arith

same-agrees :
    (o : CallOutcome) (c : Call)
    → c.outcome ≡ some o
    → c.state ≡ terminal_state_for_outcome o
    → agrees o c ≡ true
unfolding same_state terminal_state_for_outcome
same-agrees o c h k = ground (arith, h, k)

-- An answer that comes without a write.
unwritten :
    (n user : ℕ) (o : CallOutcome) (db db' : Db) (q r : ManualResult)
    → ◌≡◌ {A = Option (Db × ManualResult)} (some (db, q)) (some (db', r))
    → Corresponds n user o db db q
    → Corresponds n user o db db' r
unwritten n user o db db' q r e t =
    let same : ◌≡◌ {A = Db × ManualResult} (db, q) (db', r) = some-injective (db, q) (db', r) e in
    subst (λ (x : Db × ManualResult). Corresponds n user o db x.0 x.1) same t

write_status-updates :
    (clock n : ℕ) (a : Option ℕ) (user : ℕ) (o : CallOutcome) (raw : Text) (db db' : Db)
    (r : ManualResult)
    → write_status clock n a user o raw db ≡ some (db', r)
    → (x : ManualResponse) × (updated x ≡ r)
unfolding write_status find_call
write_status-updates clock n a user o raw db db' r e =
    let (db1, done, more) =
      bind-eq-some (update_calls (has_id n) (lock_status clock user o) db) _ e in
    let (y, there, last) = bind-eq-some (find (has_id n) db1.calls) _ more in
    (response_of n y, ap (λ (x : Db × ManualResult). x.1) (some-injective _ (db', r) last))

row_tells :
    (clock n : ℕ) (a : Option ℕ) (user : ℕ) (o : CallOutcome) (raw : Text) (row : Option Call)
    (db db' : Db) (r : ManualResult)
    → find (has_id n) db.calls ≡ row
    → (lock_call_owner_agent n (some user) db).found ≡ true
    → set_status_of_row clock n a user o raw row db ≡ some (db', r)
    → Corresponds n user o db db' r
unfolding set_status_of_row
row_tells clock n a user o raw none db db' r f own e =
    unwritten n user o db db' missing r e (refl, inr f)
row_tells clock n a user o raw (some c) db db' r f own e =
    elim (Bool-cases (is_some c.manual_status_locked_at)) [
      | inl lock ↦
          let x : Corrects n user db true = record {
            call = c;
            found = f;
            owned = own;
            is_locked = lock;
          } in
          (elim (Bool-cases (agrees o c)) [
            | inl same ↦
                let (a, b) = agrees-same o c same in
                unwritten n user o db db' (already_set (response_of n c)) r (rw (lock, same) at e)
                  (refl, x, a, b)
            | inr other ↦
                unwritten n user o db db' locked r (rw (lock, other) at e)
                  (refl, x, λ k. ground (arith, other, same-agrees o c k.0 k.1))
          ])
      | inr free ↦
          let x : Corrects n user db false = record {
            call = c;
            found = f;
            owned = own;
            is_locked = free;
          } in
          (elim (Bool-cases (is_none c.ended_at || not (is_terminal c.state))) [
            | inl going ↦
                unwritten n user o db db' active r (rw (free, going) at e) (refl, x, ground arith)
            | inr over ↦
                let (y, same) =
                  write_status-updates clock n a user o raw db db' r (rw (free, over) at e) in
                subst (Corresponds n user o db db') same (x, ground arith, ground arith)
          ])
    ]

-- What a correction answers tells how the call stood, and any answer but an update changes no
-- table: an update is of the user's call that had ended and was not locked; `already_set` of one
-- that was locked with the result that is asked for, `locked` of one with another result; `active`
-- of one that had not ended and was not locked; and `missing` is no call, or not the user's.
pub answer_tells_the_call :
    (clock n user : ℕ) (o : CallOutcome) (raw : Text) (db : Db) {db' : Db} {r : ManualResult}
    → set_manual_call_status clock n user o raw db ≡ some (db', r)
    → Corresponds n user o db db' r
unfolding set_manual_call_status find_call
answer_tells_the_call clock n user o raw db {db'} {r} e =
    elim (Bool-cases (lock_call_owner_agent n (some user) db).found) [
      | inr lost ↦ unwritten n user o db db' missing r (rw lost at e) (refl, inl lost)
      | inl held ↦
          row_tells clock n (lock_call_owner_agent n (some user) db).agent_id user o raw
            (find (has_id n) db.calls) db db' r refl held (rw held at e)
    ]
