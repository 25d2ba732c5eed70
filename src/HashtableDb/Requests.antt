-- ===== src/HashtableDb/Requests.antt =====
-- Requests to HashtableDB of db/hashtable_db.cc, and to a map from joined keys to records.
use ycsb_c_cloud.Base.{
  ℕ, ◌<◌, ◌≡◌, ◌≢◌, refl, Option, none, some, Str, List, [], ◌∷◌, str_eq, str_eq_iff, if◌then◌else◌,
  Bool-cases, inl, inr,
}
use ycsb_c_cloud.Values.{KvPair}
use ycsb_c_cloud.HashtableDb.{
  StringHashtable, HashtableDb, k_error_no_data, key_index, read, update, insert, remove,
}
use ycsb_c_cloud.HashtableDb.Fields.{FieldMap, overlay, fill, fill_new, picked, value_or}

-- The abstract view: no addresses, no tables, and no tables' names.
abbrev pub Records : Type 0
Records = Str → Option FieldMap

abbrev pub set_record : Records → Str → Option FieldMap → Records
set_record m index record_map j = if str_eq index j then record_map else m j

abbrev pub no_fields : FieldMap
no_fields j = none

pub data HashRequest : Type 0 where
  reads : Str → Str → List Str → List KvPair → HashRequest
  updates inserts : Str → Str → List KvPair → HashRequest
  deletes : Str → Str → HashRequest

abbrev pub read_answer : Option FieldMap → List Str → List KvPair → ℕ × List KvPair
read_answer none names result = (k_error_no_data, result)
read_answer (some g) names result = (0, picked g names)

abbrev pub updated_record : (Str → Str) → List KvPair → Option FieldMap → FieldMap
updated_record copy values none = fill copy values no_fields
updated_record copy values (some g) = overlay copy values g

abbrev pub delete_answer : Option FieldMap → ℕ
delete_answer none = k_error_no_data
delete_answer (some g) = 0

-- The status with the result, and the map afterwards.
abbrev pub map_answer : (Str → Str) → Records → HashRequest → (ℕ × List KvPair) × Records
map_answer copy m (reads table key names result) =
    (read_answer (m (key_index table key)) names result, m)
map_answer copy m (updates table key values) = (
  (0, []),
  set_record m (key_index table key) (some (updated_record copy values (m (key_index table key)))),
)
map_answer copy m (inserts table key values) =
    let (status, g) = fill_new copy values (value_or (m (key_index table key)) no_fields) in
    ((status, []), set_record m (key_index table key) (some g))
map_answer copy m (deletes table key) =
    ((delete_answer (m (key_index table key)), []), set_record m (key_index table key) none)

abbrev pub map_answers : (Str → Str) → Records → List HashRequest → List (ℕ × List KvPair) × Records
map_answers copy m [] = ([], m)
map_answers copy m (request ∷ requests) =
    let (out, m') = map_answer copy m request in
    let (outs, m'') = map_answers copy m' requests in (out ∷ outs, m'')

pub set_record-others :
    (m : Records) (index : Str) (x : Option FieldMap)
    → (j : Str) → index ≢ j
    → set_record m index x j ≡ m j
set_record-others m index x j ne = elim (Bool-cases (str_eq index j)) [
  | inl same ↦ absurd (ne ((str_eq_iff index j).0 same))
  | inr other ↦ rw (other) refl
]

module _ (F : StringHashtable Str) (K : StringHashtable ℕ) (new_fields : F.Table)
    (copy : Str → Str) where
  abbrev pub hash_answer :
      HashtableDb F K new_fields copy
      → HashRequest
      → (ℕ × List KvPair) × HashtableDb F K new_fields copy
  hash_answer db (reads table key names result) =
      (read F K new_fields copy db table key (some names) result, db)
  hash_answer db (updates table key values) =
      let (status, db') = update F K new_fields copy db table key values in ((status, []), db')
  hash_answer db (inserts table key values) =
      let (status, db') = insert F K new_fields copy db table key values in ((status, []), db')
  hash_answer db (deletes table key) =
      let (status, db') = remove F K new_fields copy db table key in ((status, []), db')

  abbrev pub hash_answers :
      HashtableDb F K new_fields copy
      → List HashRequest
      → List (ℕ × List KvPair) × HashtableDb F K new_fields copy
  hash_answers db [] = ([], db)
  hash_answers db (request ∷ requests) =
      let (out, db') = hash_answer db request in
      let (outs, db'') = hash_answers db' requests in (out ∷ outs, db'')

  -- An entry of the table of keys and an entry of the map: nothing, or a table with the fields.
  abbrev pub Matches : (ℕ → F.Table) → Option ℕ → Option FieldMap → Type 0
  Matches heap none none = Unit
  Matches heap (some address) (some g) = (j : Str) → F.get (heap address) j ≡ g j
  Matches heap _ _ = ⊥

  -- Every table of fields belongs to one key, and is older than the next one.
  pub record Represents (db : HashtableDb F K new_fields copy) (m : Records) : Type 0 where
    pub at_index : (index : Str) → Matches db.heap (K.get db.key_table index) (m index)
    pub apart :
        (i j : Str) (address : ℕ)
        → K.get db.key_table i ≡ some address
        → K.get db.key_table j ≡ some address
        → i ≡ j
    pub known : (i : Str) (address : ℕ) → K.get db.key_table i ≡ some address → address < db.fresh

  -- Behind a request: the same answer, and the map afterwards.
  abbrev pub Agrees :
      (ℕ × List KvPair) × HashtableDb F K new_fields copy → (ℕ × List KvPair) × Records → Type 0
  Agrees (out, db) (out', m) = (out ≡ out') × Represents db m
