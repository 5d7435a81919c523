-- ===== src/Csv/Stored.antt =====
-- What the inserts of `importContactsFromCsv` of apps/api/src/dashboard/csv.ts store and return.
use outbound_freeswitch_dial.Prelude.{
  ℕ, zero, suc, ◌+◌, ◌≤◌, ◌≡◌, refl, sym, ap, ap₂, ◌∙◌, Bool, true, false, not, ◌||◌, List, [], ◌∷◌,
  ◌++◌, Text, text_eq, text_eq_iff, text_eq_refl, length, any, filter, map, take, drop, arith,
  Bool-cases, inl, inr, if◌then◌else◌, take-append-drop, length-drop, length-concat,
}
use outbound_freeswitch_dial.Csv.Import.{
  ValidRow, Contact, has_number, is_contact, with_returned, and_returned, over_chunks,
  insert_contacts, insert_chunks, chunks_on,
}

pub text_eq_sym : (a b : Text) → text_eq a b ≡ text_eq b a
text_eq_sym a b = elim (Bool-cases (text_eq a b)) [
  | inl e ↦
      let same = (text_eq_iff a b).0 e in ap (λ t. text_eq t b) same ∙ ap (text_eq b) (sym same)
  | inr e ↦ elim (Bool-cases (text_eq b a)) [
    | inl f ↦
        let back = ap (text_eq a) ((text_eq_iff b a).0 f) ∙ text_eq_refl a in
        absurd (ground (arith, e, back))
    | inr f ↦ e ∙ sym f
  ]
]

-- Rows with numbers of their own.
abbrev pub Apart : List ValidRow → Type 0
Apart [] = Unit
Apart (v ∷ vs) = (any (has_number v.normalized_phone_number) vs ≡ false) × Apart vs

module _ (campaign : ℕ) where
  -- A number that is not in the campaign yet.
  abbrev pub is_fresh : List Contact → Text → Bool
  is_fresh cs n = not (any (is_contact campaign n) cs)

  abbrev pub row_is_fresh : List Contact → ValidRow → Bool
  row_is_fresh cs v = is_fresh cs v.normalized_phone_number

  any-concat :
      (p : Contact → Bool) (cs : List Contact) (c : Contact)
      → any p (cs ++ c ∷ []) ≡ (any p cs || p c)
  any-concat p [] c = ground arith
  any-concat p (d ∷ cs) c = ground (arith, any-concat p cs c)

  fresh_beside :
      (cs : List Contact) (c : Contact) (n : Text)
      → text_eq n c.contact_number ≡ false
      → is_fresh (cs ++ c ∷ []) n ≡ is_fresh cs n
  fresh_beside cs c n e =
      ground (arith, any-concat (is_contact campaign n) cs c, text_eq_sym n c.contact_number)

  -- A contact with another number leaves the fresh rows fresh.
  same_fresh :
      (cs : List Contact) (c : Contact) (vs : List ValidRow)
      → any (has_number c.contact_number) vs ≡ false
      → filter (row_is_fresh (cs ++ c ∷ [])) vs ≡ filter (row_is_fresh cs) vs
  same_fresh cs c [] e = refl
  same_fresh cs c (v ∷ vs) e =
      let here = fresh_beside cs c v.normalized_phone_number (ground arith) in
      let later = same_fresh cs c vs (ground arith) in
      ap₂ (λ b ws. if b then v ∷ ws else ws) here later

  added : ValidRow → Contact
  added v = record {
    campaign_id = campaign;
    contact_number = v.normalized_phone_number;
    contact_name = v.display_name;
  }

  insert-there :
      (v : ValidRow) (vs : List ValidRow) (cs : List Contact)
      → any (is_contact campaign v.normalized_phone_number) cs ≡ true
      → insert_contacts campaign (v ∷ vs) cs ≡ insert_contacts campaign vs cs
  unfolding insert_contacts
  insert-there v vs cs e = rw (e, insert_contacts) refl

  insert-new :
      (v : ValidRow) (vs : List ValidRow) (cs : List Contact)
      → any (is_contact campaign v.normalized_phone_number) cs ≡ false
      → insert_contacts campaign (v ∷ vs) cs
        ≡ with_returned v.normalized_phone_number (insert_contacts campaign vs (cs ++ added v ∷ []))
  unfolding insert_contacts added
  insert-new v vs cs e = rw (e, insert_contacts) refl

  -- The numbers that are returned are those of the fresh rows, and so many contacts are new.
  pub insert_contacts-fresh :
      (vs : List ValidRow) (cs : List Contact)
      → Apart vs
      → ((insert_contacts campaign vs cs).1
          ≡ map (λ v. v.normalized_phone_number) (filter (row_is_fresh cs) vs))
        × (length (insert_contacts campaign vs cs).0
            ≡ length cs + length (insert_contacts campaign vs cs).1)
  unfolding insert_contacts added
  insert_contacts-fresh [] cs h = (refl, omega arith)
  insert_contacts-fresh (v ∷ vs) cs h =
      let n = v.normalized_phone_number in
      elim (Bool-cases (any (is_contact campaign n) cs)) [
        | inl there ↦ rw (insert-there v vs cs there, there) (insert_contacts-fresh vs cs h.1)
        | inr new ↦
            let (returned, size) = insert_contacts-fresh vs (cs ++ added v ∷ []) h.1 in
            rw (insert-new v vs cs new, new)
              (
                ap (◌∷◌ n) (
                    returned
                    ∙ ap (map (λ w. w.normalized_phone_number)) (same_fresh cs (added v) vs h.0)),
                omega (arith, size, length-concat cs (added v)),
              )
      ]

  insert_contacts-append :
      (xs ys : List ValidRow) (cs : List Contact)
      → insert_contacts campaign (xs ++ ys) cs
        ≡ over_chunks (insert_contacts campaign xs cs) (insert_contacts campaign ys)
  unfolding insert_contacts
  insert_contacts-append [] ys cs = refl
  insert_contacts-append (v ∷ xs) ys cs =
      let n = v.normalized_phone_number in
      elim (Bool-cases (any (is_contact campaign n) cs)) [
        | inl there ↦
            insert-there v (xs ++ ys) cs there
            ∙ insert_contacts-append xs ys cs
            ∙ ap (λ r. over_chunks r (insert_contacts campaign ys))
                (sym (insert-there v xs cs there))
        | inr new ↦
            insert-new v (xs ++ ys) cs new
            ∙ ap (with_returned n) (insert_contacts-append xs ys (cs ++ added v ∷ []))
            ∙ ap (λ r. over_chunks r (insert_contacts campaign ys)) (sym (insert-new v xs cs new))
      ]

  -- The chunks are stored as the whole list would be.
  pub insert_chunks-whole :
      (fuel size : ℕ) (vs : List ValidRow) (cs : List Contact)
      → 1 ≤ size
      → length vs ≤ fuel
      → insert_chunks campaign (chunks_on fuel size vs) cs ≡ insert_contacts campaign vs cs
  unfolding insert_chunks chunks_on
  insert_chunks-whole zero size [] cs one h = refl
  insert_chunks-whole (suc fuel) size [] cs one h = refl
  insert_chunks-whole zero size (v ∷ vs) cs one h = absurd (omega (arith, h))
  insert_chunks-whole (suc fuel) size (v ∷ vs) cs one h =
      let first = insert_contacts campaign (take size (v ∷ vs)) cs in
      let rest = drop size (v ∷ vs) in
      ap (λ f. and_returned first.1 f)
        (insert_chunks-whole fuel size rest first.0 one (omega (arith, length-drop size (v ∷ vs))))
      ∙ sym (insert_contacts-append (take size (v ∷ vs)) rest cs)
      ∙ ap (λ l. insert_contacts campaign l cs) (take-append-drop size (v ∷ vs))
