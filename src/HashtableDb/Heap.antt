-- ===== src/HashtableDb/Heap.antt =====
-- The tables of fields that db/hashtable_db.cc writes to, and whose they are.
use ycsb_c_cloud.Base.{
  ℕ, ◌≡◌, ◌≢◌, refl, sym, ap, ◌∙◌, arith, Option, none, some, Str, ==-refl, ne→==, str_eq,
  str_eq_iff, str_eq_refl, str_eq_ne, Bool-cases, Option-cases, ◌⊎◌, inl, inr,
}
use ycsb_c_cloud.HashtableDb.{StringHashtable, HashtableDb, write_at, allocate}
use ycsb_c_cloud.HashtableDb.Fields.{Writes, FieldMap}
use ycsb_c_cloud.HashtableDb.Requests.{Records, no_fields, Matches, Represents}

module _ (F : StringHashtable Str) (K : StringHashtable ℕ) (new_fields : F.Table)
    (copy : Str → Str) where
  -- An entry whose table was not written to.
  moved-Matches :
      (heap heap' : ℕ → F.Table) (x : Option ℕ) (y : Option FieldMap)
      → ((address : ℕ) → x ≡ some address → heap' address ≡ heap address)
      → Matches F K new_fields copy heap x y
      → Matches F K new_fields copy heap' x y
  moved-Matches heap heap' none none same h = tt
  moved-Matches heap heap' none (some g) same h = absurd h
  moved-Matches heap heap' (some address) none same h = absurd h
  moved-Matches heap heap' (some address) (some g) same h = λ j. rw (same address refl) (h j)

  -- A write to the table of a key.
  pub write_at-Represents :
      (db : HashtableDb F K new_fields copy) (m m' : Records) (index : Str) (address : ℕ)
      (fields : F.Table) (g : FieldMap)
      → Represents F K new_fields copy db m
      → K.get db.key_table index ≡ some address
      → ((j : Str) → F.get fields j ≡ g j)
      → m' index ≡ some g
      → ((j : Str) → index ≢ j → m' j ≡ m j)
      → Represents F K new_fields copy (write_at F K new_fields copy db address fields) m'
  write_at-Represents db m m' index address fields g rep found holds here others = record {
    at_index = λ j. elim (Bool-cases (str_eq index j)) [
      | inl same ↦ rw (← (str_eq_iff index j).0 same) (rw (found, here, ==-refl address) holds)
      | inr other ↦
          let ne = str_eq_ne index j other in
          rw (others j ne) (
            moved-Matches db.heap (write_at F K new_fields copy db address fields).heap
              (K.get db.key_table j) (m j)
              (λ b at.
                rw
                  (ne→== address b
                    (λ e. ne (rep.apart index j address found (at ∙ ap some (sym e)))))
                  refl)
              (rep.at_index j))
    ];
    apart = rep.apart;
    known = rep.known;
  }

  module _ (writes : Writes K) where
    -- Whose table an address is behind the new entry.
    owner :
        (db : HashtableDb F K new_fields copy) (index i : Str) (address : ℕ)
        → K.get db.key_table index ≡ none
        → K.get (K.insert db.key_table index db.fresh).1 i ≡ some address
        → ((index ≡ i) × (address ≡ db.fresh)) ⊎ (K.get db.key_table i ≡ some address)
    owner db index i address gone h = elim (Bool-cases (str_eq index i)) [
      | inl same ↦
          let new : some db.fresh ≡ some address = rw (writes.get-insert, same, gone) at h in
          inl ((str_eq_iff index i).0 same, cc)
      | inr other ↦ inr (rw (writes.get-insert, other) at h)
    ]

    -- A new table for a key that has none.
    pub allocate-Represents :
        (db : HashtableDb F K new_fields copy) (m m' : Records) (index : Str)
        → Represents F K new_fields copy db m
        → K.get db.key_table index ≡ none
        → ((j : Str) → F.get new_fields j ≡ none)
        → m' index ≡ some no_fields
        → ((j : Str) → index ≢ j → m' j ≡ m j)
        → Represents F K new_fields copy (allocate F K new_fields copy db index).1 m'
          × (K.get (allocate F K new_fields copy db index).1.key_table index ≡ some db.fresh)
    unfolding allocate
    allocate-Represents db m m' index rep gone empty here others =
        let at_new : K.get (K.insert db.key_table index db.fresh).1 index ≡ some db.fresh =
          rw (writes.get-insert, str_eq_refl index, gone) refl in
        (
          record {
            at_index = λ j. elim (Bool-cases (str_eq index j)) [
              | inl same ↦
                  rw (← (str_eq_iff index j).0 same) (rw (at_new, here, ==-refl db.fresh) empty)
              | inr other ↦
                  rw (writes.get-insert, other, others j (str_eq_ne index j other))
                    (moved-Matches db.heap
                      (write_at F K new_fields copy db db.fresh new_fields).heap
                      (K.get db.key_table j) (m j)
                      (λ b at. rw (ne→== db.fresh b (λ e. omega (arith, e, rep.known j b at))) refl)
                      (rep.at_index j))
            ];
            apart = λ i j address hi hj. elim (owner db index i address gone hi) [
              | inl (i_same, i_new) ↦ elim (owner db index j address gone hj) [
                | inl (j_same, j_new) ↦ sym i_same ∙ j_same
                | inr old ↦ absurd (omega (arith, i_new, rep.known j address old))
              ]
              | inr i_old ↦ elim (owner db index j address gone hj) [
                | inl (j_same, j_new) ↦ absurd (omega (arith, j_new, rep.known i address i_old))
                | inr j_old ↦ rep.apart i j address i_old j_old
              ]
            ];
            known = λ i address hi. elim (owner db index i address gone hi) [
              | inl (same, new) ↦ omega (arith, new)
              | inr old ↦ omega (arith, rep.known i address old)
            ];
          },
          at_new,
        )

    -- The map has an entry where the table of keys has one.
    pub entry :
        (db : HashtableDb F K new_fields copy) (m : Records) (index : Str) (address : ℕ)
        → Represents F K new_fields copy db m
        → K.get db.key_table index ≡ some address
        → (g : FieldMap) × (m index ≡ some g) × ((j : Str) → F.get (db.heap address) j ≡ g j)
    entry db m index address rep found = elim (Option-cases (m index)) [
      | inl gone ↦ let h = rep.at_index index in absurd (rw (found, gone) at h)
      | inr (g, at) ↦ let h = rep.at_index index in (g, at, rw (found, at) at h)
    ]

    pub no_entry :
        (db : HashtableDb F K new_fields copy) (m : Records) (index : Str)
        → Represents F K new_fields copy db m
        → K.get db.key_table index ≡ none
        → m index ≡ none
    no_entry db m index rep gone = elim (Option-cases (m index)) [
      | inl none_there ↦ none_there
      | inr (g, at) ↦ let h = rep.at_index index in absurd (rw (gone, at) at h)
    ]
