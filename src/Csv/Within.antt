-- ===== src/Csv/Within.antt =====
-- What the limits of apps/api/src/dashboard/csv.ts keep: the sizes of a file that `parseCsv` takes.
use outbound_freeswitch_dial.Prelude.{
  if-cases, ℕ, suc, ◌+◌, ◌-◌, ◌≤◌, ◌≡◌, refl, Bool, true, false, not, ◌&&◌, ◌||◌, Option, List, [],
  ◌∷◌, ◌++◌, Text, trim, trim_start, trim_end, trim_end_cons, ltb, ◌==◌, length, any, All, arith,
}
use outbound_freeswitch_dial.Csv.{
  Limits, CsvImportError, Result, ok, thrown, ◌>>=◌, ◌>>◌, throw_if, Turn, go, skip, stop, fail,
  is_at, each_unit, take_turn, head,
}
use outbound_freeswitch_dial.Csv.Parse.{
  Reader, is_filled, add_unit, push_cell, push_row, end_cell, end_row, turn, read_unit, start,
  finish, read_rows, detect_csv_delimiter,
}

-- A property of the state that a loop's body keeps.
abbrev pub Holds {ℓ} : {S : Type ℓ} → (S → Type 0) → Result S → Type 0
Holds P (ok s) = P s
Holds P (thrown e) = Unit

abbrev HoldsAfter {ℓ} : {S : Type ℓ} → (S → Type 0) → Turn S → Type 0
HoldsAfter P (go s) = P s
HoldsAfter P (skip s) = P s
HoldsAfter P (stop s) = P s
HoldsAfter P (fail e) = Unit

pub throw_if-Holds {ℓ} :
    {S : Type ℓ} (P : S → Type 0) (b : Bool) (e : CsvImportError) (m : Result S)
    → (b ≡ false → Holds P m)
    → Holds P (throw_if b e >> m)
throw_if-Holds P true e m h = tt
throw_if-Holds P false e m h = h refl

module _ {ℓ κ} {S : Type ℓ} {T : Type κ} (P : S → Type 0) (Q : T → Type 0) where
  pub Holds-bind :
      (m : Result S) (f : S → Result T)
      → Holds P m
      → ((s : S) → P s → Holds Q (f s))
      → Holds Q (m >>= f)
  Holds-bind (ok s) f h k = k s h
  Holds-bind (thrown e) f h k = tt

module _ {ℓ} {S : Type ℓ} (P : S → Type 0) where
  take_turn-Holds :
      (u : Turn S) (rest : Bool → S → Result S)
      → HoldsAfter P u
      → ((b : Bool) (s : S) → P s → Holds P (rest b s))
      → Holds P (take_turn u rest)
  take_turn-Holds (go s) rest h k = k false s h
  take_turn-Holds (skip s) rest h k = k true s h
  take_turn-Holds (stop s) rest h k = h
  take_turn-Holds (fail e) rest h k = tt

  each_unit-Holds :
      (body : ℕ → Option ℕ → S → Turn S) (skipped : Bool) (t : Text) (s : S)
      → ((c : ℕ) (n : Option ℕ) (s : S) → P s → HoldsAfter P (body c n s))
      → P s
      → Holds P (each_unit body skipped t s)
  unfolding each_unit
  each_unit-Holds body skipped [] s keeps h = h
  each_unit-Holds body true (c ∷ t) s keeps h = each_unit-Holds body false t s keeps h
  each_unit-Holds body false (c ∷ t) s keeps h =
      take_turn-Holds _ _ (keeps c (head t) s h) (λ b u k. each_unit-Holds body b t u keeps k)

pub length-trim_start : (t : Text) → length (trim_start t) ≤ length t
unfolding trim_start
length-trim_start [] = omega arith
length-trim_start (c ∷ t) = ground (arith, length-trim_start t)

length-trim_end_cons : (c : ℕ) (t : Text) → length (trim_end_cons c t) ≤ suc (length t)
unfolding trim_end_cons
length-trim_end_cons c [] = ground arith
length-trim_end_cons c (d ∷ t) = omega arith

pub length-trim_end : (t : Text) → length (trim_end t) ≤ length t
unfolding trim_end
length-trim_end [] = omega arith
length-trim_end (c ∷ t) = omega (arith, length-trim_end_cons c (trim_end t), length-trim_end t)

pub length-trim : (t : Text) → length (trim t) ≤ length t
unfolding trim
length-trim t = omega (arith, length-trim_end (trim_start t), length-trim_start t)

-- What the loop keeps of the sizes.
abbrev pub cells_of : List (List Text) → ℕ
cells_of [] = 0
cells_of (r ∷ rs) = length r + cells_of rs

abbrev pub CellFits : Limits → Text → Type 0
CellFits l c = length c ≤ l.cell_characters

abbrev pub RowFits : Limits → List Text → Type 0
RowFits l r = All (CellFits l) r × (length r ≤ l.columns)

abbrev TableFits : Limits → Reader → Type 0
TableFits l r =
    All (RowFits l) r.rows
    × (length r.rows - 1 ≤ l.data_rows)
    × (r.cell_count ≡ cells_of r.rows)
    × (cells_of r.rows ≤ l.cells)

abbrev Fits : Limits → Reader → Type 0
Fits l r = CellFits l r.field × RowFits l r.row × TableFits l r

module _ {ℓ} {A : Type ℓ} (P : A → Type 0) where
  All-concat : (xs : List A) (x : A) → All P xs → P x → All P (xs ++ x ∷ [])
  All-concat [] x h p = (p, tt)
  All-concat (y ∷ xs) x h p = (h.0, All-concat xs x h.1 p)

cells_of-concat :
    (rs : List (List Text)) (r : List Text) → cells_of (rs ++ r ∷ []) ≡ cells_of rs + length r
cells_of-concat [] r = omega arith
cells_of-concat (s ∷ rs) r = omega (arith, cells_of-concat rs r)

module _ (l : Limits) where
  add_unit-Fits : (c : ℕ) (r : Reader) → Fits l r → Holds (Fits l) (add_unit l c r)
  add_unit-Fits c r (f, row, table) =
      throw_if-Holds (Fits l) _ _ (ok (record r { field = r.field ++ c ∷ [] }))
        (λ short. (ground arith, row, table))

  push_cell-Fits : (r : Reader) → Fits l r → Holds (Fits l) (push_cell l r)
  push_cell-Fits r (f, row, table) =
      throw_if-Holds (Fits l) _ _ (ok (record r { row = r.row ++ trim r.field ∷ [] })) (λ fits. (
        f,
        (All-concat (CellFits l) r.row _ row.0 (omega (arith, length-trim r.field)), ground arith),
        table,
      ))

  push_row-Fits : (r : Reader) → Fits l r → Holds (Fits l) (push_row l r)
  push_row-Fits r (f, row, (rows, count, same, bound)) =
      if-cases (Holds (Fits l)) (any is_filled r.row) _ _
        (λ filled. throw_if-Holds (Fits l) (ltb l.cells (r.cell_count + length r.row)) _ _ (λ few.
          throw_if-Holds (Fits l) (ltb l.data_rows (length (r.rows ++ r.row ∷ []) - 1)) _
            (ok
              (record r { cell_count = r.cell_count + length r.row; rows = r.rows ++ r.row ∷ [] }))
            (λ short. (
              f,
              row,
              (
                All-concat (RowFits l) r.rows r.row rows row,
                ground arith,
                omega (arith, cells_of-concat r.rows r.row),
                ground (arith, cells_of-concat r.rows r.row),
              ),
            ))))
        (λ blank. (f, row, (rows, count, same, bound)))

  end_cell-Fits : (r : Reader) → Fits l r → Holds (Fits l) (end_cell l r)
  end_cell-Fits r h =
      Holds-bind (Fits l) (Fits l) (push_cell l r) _ (push_cell-Fits r h)
        (λ s k. (omega arith, k.1, k.2))

  end_row-Fits : (r : Reader) → Fits l r → Holds (Fits l) (end_row l r)
  end_row-Fits r h = Holds-bind (Fits l) (Fits l) (push_cell l r) _ (push_cell-Fits r h) (λ s k.
      Holds-bind (Fits l) (Fits l) (push_row l s) _ (push_row-Fits s k)
        (λ u m. (omega arith, (tt, omega arith), m.2)))

  turn-Fits : (b : Bool) (m : Result Reader) → Holds (Fits l) m → HoldsAfter (Fits l) (turn b m)
  turn-Fits true (ok r) h = h
  turn-Fits false (ok r) h = h
  turn-Fits true (thrown e) h = tt
  turn-Fits false (thrown e) h = tt

  read_unit-Fits :
      (d c : ℕ) (n : Option ℕ) (r : Reader) → Fits l r → HoldsAfter (Fits l) (read_unit l d c n r)
  unfolding read_unit
  read_unit-Fits d c n r h =
      let P = HoldsAfter (Fits l) in
      if-cases P (c == b'"' && r.in_quotes && is_at b'"' n) _ _
        (λ _. turn-Fits true _ (add_unit-Fits b'"' r h))
        (λ _.
          if-cases P (c == b'"') _ _ (λ _. h)
            (λ _.
              if-cases P (c == d && not r.in_quotes) _ _
                (λ _. turn-Fits false _ (end_cell-Fits r h))
                (λ _.
                  if-cases P ((c == b'\n' || c == b'\r') && not r.in_quotes) _ _
                    (λ _. turn-Fits _ _ (end_row-Fits r h))
                    (λ _. turn-Fits false _ (add_unit-Fits c r h)))))

  -- The rows that the loop leaves, the last one among them.
  unfoldable pub RowsFit : List (List Text) → Type 0
  RowsFit rows = All (RowFits l) rows × (length rows - 1 ≤ l.data_rows) × (cells_of rows ≤ l.cells)

  finish-Fits : (r : Reader) → Fits l r → Holds RowsFit (finish l r)
  unfolding finish RowsFit
  finish-Fits r h = throw_if-Holds RowsFit r.in_quotes _ _ (λ outside.
      Holds-bind (Fits l) RowsFit (push_cell l r) _ (push_cell-Fits r h) (λ s k.
        Holds-bind (Fits l) RowsFit (push_row l s) _ (push_row-Fits s k)
          (λ u m. (m.2.0, m.2.1, omega (arith, m.2.3, m.2.2)))))

  pub read_rows-Fits : (input : Text) → Holds RowsFit (read_rows l input)
  unfolding read_rows
  read_rows-Fits input =
      Holds-bind (Fits l) RowsFit
        (each_unit (read_unit l (detect_csv_delimiter input)) false input start) _
        (each_unit-Holds (Fits l) _ false input start (read_unit-Fits (detect_csv_delimiter input))
          (omega arith, (tt, omega arith), (tt, omega arith, refl, omega arith)))
        finish-Fits
