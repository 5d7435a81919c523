-- ===== src/Calls/History/Single.antt =====
-- An update of the call with one id, in tables where ids are distinct.
use outbound_freeswitch_dial.Prelude.{
  ℕ, ◌≡◌, inl, inr, refl, sym, subst, ap, Bool, true, false, Option, none, some, List, [], ◌∷◌, All,
  find, arith, is_some, Bool-cases,
}
use outbound_freeswitch_dial.Calls.Schema.{Call, Db, has_id}
use outbound_freeswitch_dial.Calls.Progression.{
  update_calls, guard_rows, enforce_call_state_progression,
}
use outbound_freeswitch_dial.Calls.Rows.{All-map, guard_rows-allowed}
use outbound_freeswitch_dial.Calls.History.{IsValid}
use outbound_freeswitch_dial.Calls.History.Table.{IsOnly, found-IsOnly}

-- A narrower condition than the id finds the same row.
pub narrower_finds :
    (p : Call → Bool) (n : ℕ) (c : Call)
    → ((d : Call) → p d ≡ true → has_id n d ≡ true)
    → p c ≡ true
    → (cs : List Call) → All (IsOnly n c) cs
    → find (has_id n) cs ≡ some c
    → find p cs ≡ some c
narrower_finds p n c h hit [] a e = cc
narrower_finds p n c h hit (x ∷ xs) a e = elim (Bool-cases (has_id n x)) [
  | inl mine ↦ rw (a.0 mine, hit) refl
  | inr other ↦
      let skip : p x ≡ false = ground (arith, h x) in
      ground (arith, narrower_finds p n c h hit xs a.1 (rw other at e), skip)
]

some_value {ℓ} : {A : Type ℓ} → (o : Option A) → is_some o ≡ true → (a : A) × (o ≡ some a)
some_value none h = absurd (ground arith)
some_value (some a) h = (a, refl)

-- `p` holds of rows with the id `n` only, and the trigger writes `c'` for the one row `c`.
module _ (p : Call → Bool) (f : Call → Call) (n : ℕ) (c c' : Call)
    (h : (d : Call) → p d ≡ true → has_id n d ≡ true)
    (written : enforce_call_state_progression c (f c) ≡ some c') (same : has_id n c' ≡ true)
    (hit : p c ≡ true) where
  allowed :
      (d : Call)
      → IsOnly n c d
      → p d ≡ true
      → is_some (enforce_call_state_progression d (f d)) ≡ true
  allowed d only q =
      subst (λ x. is_some (enforce_call_state_progression x (f x)) ≡ true) (sym (only (h d q)))
        (ap is_some written)

  rows_written :
      (cs : List Call)
      → All (IsOnly n c) cs
      → find (has_id n) cs ≡ some c
      → (cs' : List Call) × (guard_rows p f cs ≡ some cs') × (find (has_id n) cs' ≡ some c')
  unfolding guard_rows
  rows_written [] a e = absurd (ground arith)
  rows_written (x ∷ xs) a e = elim (Bool-cases (has_id n x)) [
    | inl mine ↦
        let is_c = a.0 mine in
        let more = guard_rows-allowed p f xs (
          All-map (IsOnly n c)
            (λ d. p d ≡ true → is_some (enforce_call_state_progression d (f d)) ≡ true) allowed xs
            a.1) in
        let (ys, done) = some_value (guard_rows p f xs) more in
        (c' ∷ ys, rw (is_c, done, hit, written) refl, rw same refl)
    | inr other ↦
        let (ys, done, found) = rows_written xs a.1 (rw other at e) in
        let skip : p x ≡ false = ground (arith, h x) in
        (x ∷ ys, ground (arith, done, skip), ground (arith, found))
  ]

  pub only_row_is_written :
      (db : Db)
      → IsValid db
      → find (has_id n) db.calls ≡ some c
      → (db' : Db) × (update_calls p f db ≡ some db') × (find (has_id n) db'.calls ≡ some c')
  unfolding update_calls
  only_row_is_written db v at =
      let (cs, done, found) =
        rows_written db.calls (found-IsOnly n (has_id n) db.calls (λ d k. k) v.distinct at) at in
      (record db { calls = cs }, rw done refl, found)
