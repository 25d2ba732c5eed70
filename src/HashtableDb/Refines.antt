-- ===== src/HashtableDb/Refines.antt =====
-- HashtableDB of db/hashtable_db.cc as a map from joined keys to records: a sequence of requests.
use ycsb_c_cloud.Base.{
  ℕ, ◌≡◌, refl, sym, ap, ◌∙◌, none, some, Str, List, [], ◌∷◌, ==-refl, str_eq, str_eq_refl,
  Bool-cases, Option-cases, inl, inr,
}
use mathlib.Core.Path.{ap₂}
use ycsb_c_cloud.Values.{KvPair}
use ycsb_c_cloud.HashtableDb.{
  StringHashtable, HashtableDb, key_index, allocate, read, record_of, update, insert, remove,
  insert_all, update_all, insert_new,
}
use ycsb_c_cloud.HashtableDb.Removal.{Removes}
use ycsb_c_cloud.HashtableDb.Fields.{
  Writes, overlay, fill, fill_new, insert_all-Holds, update_all-Holds, insert_new-Holds,
  get_fields-picked,
}
use ycsb_c_cloud.HashtableDb.Requests.{
  Records, set_record, no_fields, HashRequest, reads, updates, inserts, deletes, map_answer,
  map_answers, hash_answer, hash_answers, Represents, Agrees, set_record-others,
}
use ycsb_c_cloud.HashtableDb.Heap.{write_at-Represents, allocate-Represents, entry, no_entry}

module _ (F : StringHashtable Str) (K : StringHashtable ℕ) (new_fields : F.Table) (copy : Str → Str)
    (writes : Writes K) (field_writes : Writes F) (removes : Removes K)
    (empty : (j : Str) → F.get new_fields j ≡ none) where
  read-Agrees :
      (db : HashtableDb F K new_fields copy) (m : Records) (table key : Str) (names : List Str)
      (result : List KvPair)
      → Represents F K new_fields copy db m
      → Agrees F K new_fields copy
          (hash_answer F K new_fields copy db (reads table key names result))
          (map_answer copy m (reads table key names result))
  unfolding read record_of
  read-Agrees db m table key names result rep =
      elim (Option-cases (K.get db.key_table (key_index table key))) [
        | inl gone ↦
            rw (read, gone, no_entry F K new_fields copy writes db m (key_index table key) rep gone)
              (refl, rep)
        | inr (address, found) ↦
            let (g, at, holds) =
              entry F K new_fields copy writes db m (key_index table key) address rep found in
            rw (read, found, at)
              (
                ap (λ pairs. (0, pairs))
                    (get_fields-picked F K new_fields copy field_writes names (db.heap address) g
                      holds),
                rep,
              )
      ]

  -- The table that Update and Insert write to: the one of the key, or a new one.
  update-Agrees :
      (db : HashtableDb F K new_fields copy) (m : Records) (table key : Str) (values : List KvPair)
      → Represents F K new_fields copy db m
      → Agrees F K new_fields copy
          (hash_answer F K new_fields copy db (updates table key values))
          (map_answer copy m (updates table key values))
  unfolding update allocate
  update-Agrees db m table key values rep =
      let index = key_index table key in
      elim (Option-cases (K.get db.key_table index)) [
        | inl gone ↦
            let m1 = set_record m index (some no_fields) in
            let (rep1, found1) =
              allocate-Represents F K new_fields copy writes db m m1 index rep gone empty
                (rw (str_eq_refl index) refl) (set_record-others m index (some no_fields)) in
            let nothing = no_entry F K new_fields copy writes db m index rep gone in
            let after = fill copy values no_fields in
            rw (update, gone, nothing)
              (
                refl,
                write_at-Represents F K new_fields copy (allocate F K new_fields copy db index).1 m1
                    (set_record m index (some after)) index db.fresh
                    (insert_all F K new_fields copy
                      ((allocate F K new_fields copy db index).1.heap db.fresh) values)
                    after rep1 found1
                    (insert_all-Holds F K new_fields copy field_writes values
                      ((allocate F K new_fields copy db index).1.heap db.fresh) no_fields
                      (rw (==-refl db.fresh) empty))
                    (rw (str_eq_refl index) refl)
                    (λ j ne.
                      set_record-others m index (some after) j ne
                      ∙ sym (set_record-others m index (some no_fields) j ne)),
              )
        | inr (address, found) ↦
            let (g, at, holds) = entry F K new_fields copy writes db m index address rep found in
            let after = overlay copy values g in
            rw (update, found, at)
              (
                refl,
                write_at-Represents F K new_fields copy db m (set_record m index (some after)) index
                    address (update_all F K new_fields copy (db.heap address) values) after rep
                    found
                    (update_all-Holds F K new_fields copy field_writes values (db.heap address) g
                      holds)
                    (rw (str_eq_refl index) refl) (set_record-others m index (some after)),
              )
      ]

  insert-Agrees :
      (db : HashtableDb F K new_fields copy) (m : Records) (table key : Str) (values : List KvPair)
      → Represents F K new_fields copy db m
      → Agrees F K new_fields copy
          (hash_answer F K new_fields copy db (inserts table key values))
          (map_answer copy m (inserts table key values))
  unfolding insert allocate
  insert-Agrees db m table key values rep =
      let index = key_index table key in
      elim (Option-cases (K.get db.key_table index)) [
        | inl gone ↦
            let m1 = set_record m index (some no_fields) in
            let (rep1, found1) =
              allocate-Represents F K new_fields copy writes db m m1 index rep gone empty
                (rw (str_eq_refl index) refl) (set_record-others m index (some no_fields)) in
            let nothing = no_entry F K new_fields copy writes db m index rep gone in
            let after = (fill_new copy values no_fields).1 in
            let fields = (allocate F K new_fields copy db index).1.heap db.fresh in
            let (status, holds) =
              insert_new-Holds F K new_fields copy field_writes values fields no_fields
                (rw (==-refl db.fresh) empty) in
            rw (insert, gone, nothing)
              (
                ap (λ code. (code, [])) status,
                write_at-Represents F K new_fields copy (allocate F K new_fields copy db index).1 m1
                    (set_record m index (some after)) index db.fresh
                    (insert_new F K new_fields copy fields values).1 after rep1 found1 holds
                    (rw (str_eq_refl index) refl)
                    (λ j ne.
                      set_record-others m index (some after) j ne
                      ∙ sym (set_record-others m index (some no_fields) j ne)),
              )
        | inr (address, found) ↦
            let (g, at, here) = entry F K new_fields copy writes db m index address rep found in
            let after = (fill_new copy values g).1 in
            let (status, holds) =
              insert_new-Holds F K new_fields copy field_writes values (db.heap address) g here in
            rw (insert, found, at)
              (
                ap (λ code. (code, [])) status,
                write_at-Represents F K new_fields copy db m (set_record m index (some after)) index
                    address (insert_new F K new_fields copy (db.heap address) values).1 after rep
                    found holds (rw (str_eq_refl index) refl)
                    (set_record-others m index (some after)),
              )
      ]

  -- What the table of keys has behind Remove, it had before.
  survivor :
      (t : K.Table) (index i : Str) (address : ℕ)
      → K.get (K.remove t index).1 i ≡ some address
      → K.get t i ≡ some address
  survivor t index i address h = elim (Bool-cases (str_eq index i)) [
    | inl same ↦
        let no : none ≡ some address = rw (removes.left, same) at h in
        let bad : ⊥ = cc in absurd bad
    | inr other ↦ rw (removes.left, other) at h
  ]

  remove-Agrees :
      (db : HashtableDb F K new_fields copy) (m : Records) (table key : Str)
      → Represents F K new_fields copy db m
      → Agrees F K new_fields copy
          (hash_answer F K new_fields copy db (deletes table key))
          (map_answer copy m (deletes table key))
  unfolding remove
  remove-Agrees db m table key rep =
      let index = key_index table key in
      let gone : Represents F K new_fields copy (remove F K new_fields copy db table key).1
          (set_record m index none) =
        record {
          at_index = λ j. elim (Bool-cases (str_eq index j)) [
            | inl same ↦ rw (removes.left, same) tt
            | inr other ↦ rw (removes.left, other) (rep.at_index j)
          ];
          apart = λ i j address hi hj.
              rep.apart i j address (survivor db.key_table index i address hi)
                (survivor db.key_table index j address hj);
          known = λ i address hi. rep.known i address (survivor db.key_table index i address hi);
        } in
      elim (Option-cases (K.get db.key_table index)) [
        | inl nothing ↦ (
          rw (removes.removed, nothing, no_entry F K new_fields copy writes db m index rep nothing)
              refl,
          gone,
        )
        | inr (address, found) ↦
            let (g, at, here) = entry F K new_fields copy writes db m index address rep found in
            (rw (removes.removed, found, at) refl, gone)
      ]

  request-Agrees :
      (db : HashtableDb F K new_fields copy) (m : Records) (request : HashRequest)
      → Represents F K new_fields copy db m
      → Agrees F K new_fields copy
          (hash_answer F K new_fields copy db request)
          (map_answer copy m request)
  request-Agrees db m (reads table key names result) rep =
      read-Agrees db m table key names result rep
  request-Agrees db m (updates table key values) rep = update-Agrees db m table key values rep
  request-Agrees db m (inserts table key values) rep = insert-Agrees db m table key values rep
  request-Agrees db m (deletes table key) rep = remove-Agrees db m table key rep

  -- Where Insert, Update and Remove of the hash tables do what their interface says, a sequence of
  -- Reads of named fields, Updates, Inserts and Deletes of HashtableDB answers as a map from tables
  -- and keys, joined, to maps from fields to values does, with the same statuses, and the database
  -- at the end stands for the map at the end, if it stands for the map at the start: an Update
  -- writes over the fields of a record that is there, an Insert ends with kErrorConflict at the
  -- first field that is there and keeps those before it, and no request touches another record.
  pub hash_answers-refines :
      (db : HashtableDb F K new_fields copy) (m : Records) (requests : List HashRequest)
      → Represents F K new_fields copy db m
      → ((hash_answers F K new_fields copy db requests).0 ≡ (map_answers copy m requests).0)
        × Represents F K new_fields copy
            (hash_answers F K new_fields copy db requests).1
            (map_answers copy m requests).1
  hash_answers-refines db m [] rep = (refl, rep)
  hash_answers-refines db m (request ∷ requests) rep =
      let (same, rep') = request-Agrees db m request rep in
      let (rest, rep'') =
        hash_answers-refines (hash_answer F K new_fields copy db request).1
          (map_answer copy m request).1 requests rep' in
      (ap₂ ◌∷◌ same rest, rep'')
