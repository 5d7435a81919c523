-- ===== src/Calls/History/Table.antt =====
-- The table of calls from one handler to the next: its keys, and what is found of a row later.
use outbound_freeswitch_dial.Prelude.{
  ℕ, ◌≡◌, inl, inr, refl, sym, ap, subst, ◌∙◌, Bool, true, false, ◌||◌, some, List, [], ◌∷◌, ◌++◌,
  All, any, filter, find, arith, ◌==◌, ==_iff, Bool-cases,
}
use mathlib.Core.Option.{some-injective}
use outbound_freeswitch_dial.Calls.Schema.{Call, Db, has_id}
use outbound_freeswitch_dial.Calls.Availability.{occupies}
use outbound_freeswitch_dial.Calls.Creation.{holds_contact}
use outbound_freeswitch_dial.Calls.Rows.{Rows, Rows-All, Rows-map, Rows-and_All, Rows-find, KeepsId}
use outbound_freeswitch_dial.Calls.History.{
  IsConsistent, Later, Later-refl, Later-trans, Evolves, IsValid, Distinct, AtMostOne,
}

-- A row is found again, as a later version of itself.
pub record Onward (db db' : Db) : Type 0 where
  pub later :
      (n : ℕ) (c : Call)
      → find (has_id n) db.calls ≡ some c
      → (c' : Call) × (find (has_id n) db'.calls ≡ some c') × Later c c'

pub Onward-trans : (a b c : Db) → Onward a b → Onward b c → Onward a c
Onward-trans a b c p q = record {
  later = λ n x f.
      let (y, g, r) = p.later n x f in
      let (z, h, s) = q.later n y g in (z, h, Later-trans x y z r s);
}

any-KeepsId :
    (n : ℕ) (cs cs' : List Call) → Rows KeepsId cs cs' → any (has_id n) cs' ≡ any (has_id n) cs
any-KeepsId n [] [] r = refl
any-KeepsId n [] (y ∷ ys) r = absurd r.0
any-KeepsId n (x ∷ xs) [] r = absurd r.0
any-KeepsId n (x ∷ xs) (y ∷ ys) r = ground (arith, r.0, any-KeepsId n xs ys r.1)

Rows-Distinct : (cs cs' : List Call) → Rows KeepsId cs cs' → Distinct cs → Distinct cs'
Rows-Distinct [] [] r d = tt
Rows-Distinct [] (y ∷ ys) r d = absurd r.0
Rows-Distinct (x ∷ xs) [] r d = absurd r.0
Rows-Distinct (x ∷ xs) (y ∷ ys) r d = (
  ap (λ n. any (has_id n) ys) r.0 ∙ any-KeepsId x.id xs ys r.1 ∙ d.0,
  Rows-Distinct xs ys r.1 d.1,
)

any-falls :
    (p : Call → Bool) (cs cs' : List Call)
    → Rows (λ c c'. p c' ≡ true → p c ≡ true) cs cs'
    → any p cs ≡ false
    → any p cs' ≡ false
any-falls p [] [] r h = refl
any-falls p [] (y ∷ ys) r h = absurd r.0
any-falls p (x ∷ xs) [] r h = absurd r.0
any-falls p (x ∷ xs) (y ∷ ys) r h = ground (arith, r.0, any-falls p xs ys r.1)

-- A test that later versions pass only where earlier ones did is passed by one row at most.
AtMostOne-falls :
    (p : Call → Bool) (cs cs' : List Call)
    → Rows (λ c c'. p c' ≡ true → p c ≡ true) cs cs'
    → AtMostOne p cs
    → AtMostOne p cs'
AtMostOne-falls p [] [] r h = tt
AtMostOne-falls p [] (y ∷ ys) r h = absurd r.0
AtMostOne-falls p (x ∷ xs) [] r h = absurd r.0
AtMostOne-falls p (x ∷ xs) (y ∷ ys) r h =
    ((λ e. any-falls p xs ys r.1 (h.0 (r.0 e))), AtMostOne-falls p xs ys r.1 h.1)

any-add : (p : Call → Bool) (cs : List Call) (c : Call) → any p (cs ++ c ∷ []) ≡ (any p cs || p c)
any-add p [] c = ground arith
any-add p (x ∷ xs) c = ground (arith, any-add p xs c)

AtMostOne-add :
    (p : Call → Bool) (cs : List Call) (c : Call)
    → (p c ≡ true → any p cs ≡ false)
    → AtMostOne p cs
    → AtMostOne p (cs ++ c ∷ [])
AtMostOne-add p [] c h a = ((λ e. refl), tt)
AtMostOne-add p (x ∷ xs) c h a = (
  (λ e. ground (arith, any-add p xs c, a.0 e)),
  AtMostOne-add p xs c (λ e. ground (arith, h e)) a.1,
)

occupies-falls : (a : ℕ) (c c' : Call) → Evolves c c' → occupies a c' ≡ true → occupies a c ≡ true
occupies-falls a c c' e h = ground arith

holds-falls :
    (k : ℕ) (c c' : Call)
    → IsConsistent c
    → Evolves c c'
    → holds_contact (some k) c' ≡ true
    → holds_contact (some k) c ≡ true
holds-falls k c c' v e h = ground arith

-- What a handler does to the table.
abbrev pub Sound : Db → Db → Type 0
Sound db db' = IsValid db' × Onward db db'

pub Sound-refl : (db : Db) → IsValid db → Sound db db
Sound-refl db v = (v, record { later = λ n c f. (c, f, Later-refl c) })

pub Rows-Sound : (db db' : Db) → IsValid db → Rows Evolves db.calls db'.calls → Sound db db'
Rows-Sound db db' v r =
    let ids = Rows-map Evolves KeepsId (λ c c' e. e.1.same_id) db.calls db'.calls r in
    (
      record {
        consistent =
            Rows-All Evolves IsConsistent IsConsistent (λ c c' k e. e.0) db.calls db'.calls r
              v.consistent;
        distinct = Rows-Distinct db.calls db'.calls ids v.distinct;
        one_per_agent = λ a.
            AtMostOne-falls (occupies a) db.calls db'.calls
              (Rows-map Evolves (λ c c'. occupies a c' ≡ true → occupies a c ≡ true)
                (occupies-falls a) db.calls db'.calls r)
              (v.one_per_agent a);
        one_per_contact = λ k.
            AtMostOne-falls (holds_contact (some k)) db.calls db'.calls
              (Rows-map (λ c c'. IsConsistent c × Evolves c c')
                (λ c c'. holds_contact (some k) c' ≡ true → holds_contact (some k) c ≡ true)
                (λ c c' e. holds-falls k c c' e.0 e.1) db.calls db'.calls
                (Rows-and_All Evolves IsConsistent db.calls db'.calls r v.consistent))
              (v.one_per_contact k);
      },
      record {
        later = λ n c f.
            let (c', g, e) = Rows-find Evolves (λ x y s. s.1.same_id) n db.calls db'.calls r f in
            (c', g, e.1);
      },
    )

pub none_with :
    (n : ℕ) (cs : List Call) → any (has_id n) cs ≡ false → All (λ c. has_id n c ≡ false) cs
none_with n [] h = tt
none_with n (c ∷ cs) h = (ground arith, none_with n cs (ground arith))

other_ids :
    (n m : ℕ) (c : Call) (cs : List Call)
    → (m == n) ≡ true
    → All (λ d. has_id m d ≡ false) cs
    → All (λ d. has_id n d ≡ true → d ≡ c) cs
other_ids n m c [] e a = tt
other_ids n m c (d ∷ ds) e a =
    ((λ h. ground (arith, ==_iff m n, ==_iff d.id m, ==_iff d.id n)), other_ids n m c ds e a.1)

find-any :
    (p : Call → Bool) (q : Call → Bool) (cs : List Call) {c : Call}
    → ((d : Call) → p d ≡ true → q d ≡ true)
    → find p cs ≡ some c
    → any q cs ≡ true
find-any p q [] {c} h f = cc
find-any p q (x ∷ xs) {c} h f = ground (arith, h x, find-any p q xs {c = c} h)

-- What is known of a row, where the row with the id `n` is `c`.
abbrev pub IsOnly : ℕ → Call → Call → Type 0
IsOnly n c d = has_id n d ≡ true → d ≡ c

-- With distinct ids, a row with the id of the one that was found is that one.
pub found-IsOnly :
    (n : ℕ) (p : Call → Bool) (cs : List Call) {c : Call}
    → ((d : Call) → p d ≡ true → has_id n d ≡ true)
    → Distinct cs
    → find p cs ≡ some c
    → All (IsOnly n c) cs
found-IsOnly n p [] h u f = tt
found-IsOnly n p (x ∷ xs) {c} h u f = elim (Bool-cases (p x)) [
  | inl hit ↦ (
    (λ k. some-injective x c (rw hit at f)),
    other_ids n x.id c xs (h x hit) (none_with x.id xs u.0),
  )
  | inr miss ↦
      let more = rw miss at f in
      (
        (λ k. absurd (
            ground (
              arith,
              ==_iff x.id n,
              find-any p (has_id x.id) xs
                  (λ d e. ground (arith, h d e, ==_iff d.id n, ==_iff x.id n, ==_iff d.id x.id))
                  more,
            ))),
        found-IsOnly n p xs h u.1 more,
      )
]

find-append :
    (n : ℕ) (cs ds : List Call) {c : Call}
    → find (has_id n) cs ≡ some c
    → find (has_id n) (cs ++ ds) ≡ some c
find-append n [] ds {c} f = cc
find-append n (x ∷ xs) ds {c} f = ground (arith, find-append n xs ds {c = c})

any-append :
    (n : ℕ) (cs : List Call) (c : Call)
    → any (has_id n) (cs ++ c ∷ []) ≡ (any (has_id n) cs || has_id n c)
any-append n [] c = ground arith
any-append n (x ∷ xs) c = ground (arith, any-append n xs c)

append-Distinct :
    (cs : List Call) (c : Call)
    → any (has_id c.id) cs ≡ false
    → Distinct cs
    → Distinct (cs ++ c ∷ [])
append-Distinct [] c h d = (refl, tt)
append-Distinct (x ∷ xs) c h d = (
  ground (arith, any-append x.id xs c, ==_iff x.id c.id, ==_iff c.id x.id),
  append-Distinct xs c (ground arith) d.1,
)

append-All : (P : Call → Type 0) (cs : List Call) (c : Call) → All P cs → P c → All P (cs ++ c ∷ [])
append-All P [] c a k = (k, tt)
append-All P (x ∷ xs) c a k = (a.0, append-All P xs c a.1 k)

-- A fresh row at the end.
pub append-Sound :
    (db db' : Db) (c : Call)
    → IsValid db
    → IsConsistent c
    → any (has_id c.id) db.calls ≡ false
    → ((a : ℕ) → occupies a c ≡ true → any (occupies a) db.calls ≡ false)
    → ((k : ℕ) → holds_contact (some k) c ≡ true → any (holds_contact (some k)) db.calls ≡ false)
    → db'.calls ≡ db.calls ++ c ∷ []
    → Sound db db'
append-Sound db db' c v k fresh alone unheld e = (
  record {
    consistent =
        subst (All IsConsistent) (sym e) (append-All IsConsistent db.calls c v.consistent k);
    distinct = subst Distinct (sym e) (append-Distinct db.calls c fresh v.distinct);
    one_per_agent = λ a.
        subst (AtMostOne (occupies a)) (sym e)
          (AtMostOne-add (occupies a) db.calls c (alone a) (v.one_per_agent a));
    one_per_contact = λ n.
        subst (AtMostOne (holds_contact (some n))) (sym e)
          (AtMostOne-add (holds_contact (some n)) db.calls c (unheld n) (v.one_per_contact n));
  },
  record {
    later = λ n d f. (
      d,
      subst (λ cs. find (has_id n) cs ≡ some d) (sym e) (find-append n db.calls (c ∷ []) f),
      Later-refl d,
    );
  },
)

-- Deleted rows leave valid tables.
module _ (p : Call → Bool) where
  filter-All {κ} : (P : Call → Type κ) (cs : List Call) → All P cs → All P (filter p cs)
  filter-All P [] a = tt
  filter-All P (c ∷ cs) a = elim (Bool-cases (p c)) [
    | inl kept ↦ rw kept (a.0, filter-All P cs a.1)
    | inr gone ↦ rw gone (filter-All P cs a.1)
  ]

  filter-any : (q : Call → Bool) (cs : List Call) → any q cs ≡ false → any q (filter p cs) ≡ false
  filter-any q [] h = refl
  filter-any q (c ∷ cs) h = ground (arith, filter-any q cs)

  filter-Distinct : (cs : List Call) → Distinct cs → Distinct (filter p cs)
  filter-Distinct [] d = tt
  filter-Distinct (c ∷ cs) d = elim (Bool-cases (p c)) [
    | inl kept ↦ rw kept (filter-any (has_id c.id) cs d.0, filter-Distinct cs d.1)
    | inr gone ↦ rw gone (filter-Distinct cs d.1)
  ]

  filter-AtMostOne : (q : Call → Bool) (cs : List Call) → AtMostOne q cs → AtMostOne q (filter p cs)
  filter-AtMostOne q [] a = tt
  filter-AtMostOne q (c ∷ cs) a = elim (Bool-cases (p c)) [
    | inl kept ↦ rw kept ((λ h. filter-any q cs (a.0 h)), filter-AtMostOne q cs a.1)
    | inr gone ↦ rw gone (filter-AtMostOne q cs a.1)
  ]

  pub filter-IsValid : (db db' : Db) → IsValid db → db'.calls ≡ filter p db.calls → IsValid db'
  filter-IsValid db db' v e = record {
    consistent = subst (All IsConsistent) (sym e) (filter-All IsConsistent db.calls v.consistent);
    distinct = subst Distinct (sym e) (filter-Distinct db.calls v.distinct);
    one_per_agent = λ a.
        subst (AtMostOne (occupies a)) (sym e)
          (filter-AtMostOne (occupies a) db.calls (v.one_per_agent a));
    one_per_contact = λ k.
        subst (AtMostOne (holds_contact (some k))) (sym e)
          (filter-AtMostOne (holds_contact (some k)) db.calls (v.one_per_contact k));
  }
