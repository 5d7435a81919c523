-- ===== src/Calls/Repair/Loop.antt =====
-- The repair of all calls that the query finds.
use outbound_freeswitch_dial.Prelude.{
  ℕ, ◌≡◌, inl, inr, refl, ap, ◌∙◌, ◌+◌, Bool, true, false, none, some, List, [], ◌∷◌, All, find,
  filter, map, take, zero, suc, length, arith, is_some, ==_iff, leb, Bool-cases,
}
use outbound_freeswitch_dial.Calls.Schema.{Call, Db, has_id, find_call}
use outbound_freeswitch_dial.Calls.Finalization.{
  decide, is_finalized, finalize_call_transaction, finalize_row, persist_finalization,
}
use outbound_freeswitch_dial.Calls.Finalization.Laws.{lock-found, persist-Finalized}
use outbound_freeswitch_dial.Calls.Finalization.Decisions.{IsLockValid}
use outbound_freeswitch_dial.Calls.History.{IsConsistent, IsValid, Distinct}
use outbound_freeswitch_dial.Calls.History.Table.{Sound, Rows-Sound, none_with}
use outbound_freeswitch_dial.Calls.History.Handlers.{finalization-step}
use outbound_freeswitch_dial.Calls.Rows.{All-find, All-map}
use outbound_freeswitch_dial.Calls.History.Totality.{persist-returns}
use outbound_freeswitch_dial.Calls.Hangup.Ending.{returned}
use outbound_freeswitch_dial.Calls.Repair.{
  repair_order, repair_input, repair_finalized_call_transaction, needs_repair, insert_in_order,
  in_repair_order, repair_each, candidates, repair_finalized_call_consistency,
}
use outbound_freeswitch_dial.Calls.Repair.Settled.{
  repair-Resolves, persist-through, IsSettled, Finalized-IsSettled,
}

-- The call with the id has ended.
record HasEnded (db : Db) (n : ℕ) : Type 0 where
  call : Call
  found : find (has_id n) db.calls ≡ some call
  ended : is_some call.ended_at ≡ true

ended_decides :
    (n : ℕ) (c : Call)
    → IsConsistent c
    → is_some c.ended_at ≡ true
    → decide (repair_input n) c ≡ none
    → is_finalized c ≡ true
unfolding decide
ended_decides n c v h e = ground arith

repairs_ended_row :
    (now clock n : ℕ) (c : Call) (db : Db)
    → find_call n db ≡ some c
    → IsConsistent c
    → is_some c.ended_at ≡ true
    → finalize_call_transaction now clock (repair_input n) db
      ≡ persist_finalization now clock (repair_input n) c db
unfolding finalize_call_transaction finalize_row
repairs_ended_row now clock n c db there v h =
    ground (arith, lock-found n db there, ended_decides n c v h)

-- One repair commits, counts, and leaves valid tables.
repair-Sound :
    (now clock n : ℕ) (db : Db)
    → IsValid db
    → HasEnded db n
    → (db' : Db) × (repair_finalized_call_transaction now clock n db ≡ some (db', true))
      × Sound db db'
      × IsSettled n db'
unfolding repair_finalized_call_transaction
repair-Sound now clock n db v e =
    let c = e.call in
    let input = repair_input n in
    let (r, done) =
      returned (persist_finalization now clock input c db)
        (persist-returns now clock input c db v (repair-Resolves n) e.found) in
    let k = (All-find IsConsistent (has_id n) db.calls v.consistent e.found).0 in
    let lock = All-map IsConsistent IsLockValid (λ x g l. ground arith) db.calls v.consistent in
    let row = repairs_ended_row now clock n c db (unfold find_call in e.found) k e.ended in
    (
      r.0,
      rw (row, done, persist-through now clock n c db r.0 r.1 done) refl,
      Rows-Sound db r.0 v (
          finalization-step now clock input db r.0 {r = r.1} (repair-Resolves n) v.consistent
            (row ∙ done)),
      Finalized-IsSettled n r.0 r.1 (
          persist-Finalized now clock input c db r.0 r.1 (repair-Resolves n) lock e.found
            (ended_decides n c k e.ended) done),
    )

HasEnded-Sound : (db db' : Db) (n : ℕ) → Sound db db' → HasEnded db n → HasEnded db' n
HasEnded-Sound db db' n s e =
    let (c', found, later) = s.1.later n e.call e.found in
    record { call = c'; found = found; ended = ap is_some (later.same_end e.ended) ∙ e.ended }

All-HasEnded :
    (db db' : Db) (ns : List ℕ) → Sound db db' → All (HasEnded db) ns → All (HasEnded db') ns
All-HasEnded db db' [] s a = tt
All-HasEnded db db' (n ∷ ns) s a = (HasEnded-Sound db db' n s a.0, All-HasEnded db db' ns s a.1)

-- The repairs of a round, one transaction after another: each commits and settles its call.
abbrev pub RepairsEach : ℕ → ℕ → List ℕ → Db → Db → Type 0
RepairsEach now clock [] db db' = db ≡ db'
RepairsEach now clock (n ∷ ns) db db' =
    (d : Db) × (repair_finalized_call_transaction now clock n db ≡ some (d, true))
    × IsSettled n d
    × RepairsEach now clock ns d db'

repair_each-counts :
    (now clock : ℕ) (ns : List ℕ) (k : ℕ) (db : Db)
    → IsValid db
    → All (HasEnded db) ns
    → (db' : Db) × (repair_each now clock ns k db ≡ some (db', k + length ns))
      × RepairsEach now clock ns db db'
      × IsValid db'
unfolding repair_each
repair_each-counts now clock [] k db v a = (db, ground arith, refl, v)
repair_each-counts now clock (n ∷ ns) k db v a =
    let (db1, done, s, settled) = repair-Sound now clock n db v a.0 in
    let (db', more, each, w) =
      repair_each-counts now clock ns (k + 1) db1 s.0 (All-HasEnded db db1 ns s a.1) in
    (db', rw done (more ∙ ap (λ m. some (db', m)) (omega arith)), (db1, done, settled, each), w)

module _ {ℓ} (P : Call → Type ℓ) where
  All-filter :
      (p : Call → Bool) (cs : List Call) → All P cs → All (λ c. P c × (p c ≡ true)) (filter p cs)
  All-filter p [] a = tt
  All-filter p (c ∷ cs) a = elim (Bool-cases (p c)) [
    | inl hit ↦ rw hit ((a.0, hit), All-filter p cs a.1)
    | inr miss ↦ rw miss (All-filter p cs a.1)
  ]

  All-insert : (c : Call) (cs : List Call) → P c → All P cs → All P (insert_in_order c cs)
  unfolding insert_in_order
  All-insert c [] h a = (h, tt)
  All-insert c (d ∷ ds) h a = elim (Bool-cases (leb (repair_order c) (repair_order d))) [
    | inl before ↦ rw before (h, (a.0, a.1))
    | inr behind ↦ rw behind (a.0, All-insert c ds h a.1)
  ]

  All-order : (cs : List Call) → All P cs → All P (in_repair_order cs)
  unfolding in_repair_order
  All-order [] a = tt
  All-order (c ∷ cs) a = All-insert c (in_repair_order cs) a.0 (All-order cs a.1)

  All-take : (n : ℕ) (cs : List Call) → All P cs → All P (take n cs)
  All-take zero cs a = tt
  All-take (suc n) [] a = tt
  All-take (suc n) (c ∷ cs) a = (a.0, All-take n cs a.1)

All-ids :
    (Q : ℕ → Type 0) (cs : List Call) → All (λ c. Q c.id) cs → All Q (map (λ (c : Call). c.id) cs)
All-ids Q [] a = tt
All-ids Q (c ∷ cs) a = (a.0, All-ids Q cs a.1)

-- With distinct ids, each row is the one that its id finds.
found_by_id :
    (x : Call) (ds cs : List Call)
    → All (λ d. has_id x.id d ≡ false) ds
    → All (λ d. find (has_id d.id) cs ≡ some d) ds
    → All (λ d. find (has_id d.id) (x ∷ cs) ≡ some d) ds
found_by_id x [] cs a b = tt
found_by_id x (d ∷ ds) cs a b =
    (ground (arith, a.0, b.0, ==_iff x.id d.id, ==_iff d.id x.id), found_by_id x ds cs a.1 b.1)

each_is_found : (cs : List Call) → Distinct cs → All (λ c. find (has_id c.id) cs ≡ some c) cs
each_is_found [] u = tt
each_is_found (c ∷ cs) u = (
  ground (arith, ==_iff c.id c.id),
  found_by_id c cs cs (none_with c.id cs u.0) (each_is_found cs u.1),
)

needs_repair-ended :
    (db : Db) (c : Call) → IsConsistent c → needs_repair db c ≡ true → is_some c.ended_at ≡ true
unfolding needs_repair
needs_repair-ended db c v h = ground arith

All-both {ℓ κ} :
    (P : Call → Type ℓ) (Q : Call → Type κ) (cs : List Call)
    → All P cs
    → All Q cs
    → All (λ c. P c × Q c) cs
All-both P Q [] a b = tt
All-both P Q (c ∷ cs) a b = ((a.0, b.0), All-both P Q cs a.1 b.1)

candidates-HasEnded : (limit : ℕ) (db : Db) → IsValid db → All (HasEnded db) (candidates limit db)
candidates-HasEnded limit db v =
    let known =
      All-both (λ c. find (has_id c.id) db.calls ≡ some c) IsConsistent db.calls
        (each_is_found db.calls v.distinct) v.consistent in
    let chosen =
      All-filter (λ c. (find (has_id c.id) db.calls ≡ some c) × IsConsistent c) (needs_repair db)
        db.calls known in
    let P : Call → Type 0 =
      λ c. ((find (has_id c.id) db.calls ≡ some c) × IsConsistent c) × (needs_repair db c ≡ true) in
    All-ids (HasEnded db) (take limit (in_repair_order (filter (needs_repair db) db.calls))) (
      All-map P (λ c. HasEnded db c.id)
        (λ c k. record { call = c; found = k.0.0; ended = needs_repair-ended db c k.0.1 k.1 })
        (take limit (in_repair_order (filter (needs_repair db) db.calls)))
        (All-take P limit (in_repair_order (filter (needs_repair db) db.calls))
          (All-order P (filter (needs_repair db) db.calls) chosen)))

-- Over valid tables, a round of repairs commits, whatever its limit: one transaction for each call
-- that the query finds, each of which commits and leaves its call settled, with its end, its legs
-- ended and its contact and agent released; their number is returned, and the tables that come out
-- are valid.
pub repair_round_settles_every_call :
    (now clock limit : ℕ) (db : Db)
    → IsValid db
    → (db' : Db) × (repair_finalized_call_consistency now clock limit db
        ≡ some (db', length (candidates limit db)))
      × RepairsEach now clock (candidates limit db) db db'
      × IsValid db'
unfolding repair_finalized_call_consistency
repair_round_settles_every_call now clock limit db v =
    let (db', done, each, w) =
      repair_each-counts now clock (candidates limit db) 0 db v (candidates-HasEnded limit db v) in
    (db', done ∙ ap (λ m. some (db', m)) (omega arith), each, w)
