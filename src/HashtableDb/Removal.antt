-- ===== src/HashtableDb/Removal.antt =====
-- Read behind Delete in db/hashtable_db.cc.
use ycsb_c_cloud.Base.{
  ℕ, ◌≡◌, refl, ap, Option, none, Str, List, str_eq, if◌then◌else◌, Bool-cases, inl, inr,
}
use ycsb_c_cloud.Values.{KvPair}
use ycsb_c_cloud.HashtableDb.{
  StringHashtable, HashtableDb, k_error_no_data, key_index, remove_status, read, remove,
}

-- What Remove of a hash table does: it returns the value of the key, or NULL, and takes the key out.
pub record Removes {V : Type 0} (T : StringHashtable V) : Type 0 where
  pub removed : (t : T.Table) (k : Str) → (T.remove t k).0 ≡ T.get t k
  pub left :
      (t : T.Table) (k j : Str)
      → T.get (T.remove t k).1 j ≡ (if str_eq k j then none else T.get t j)

module _ (F : StringHashtable Str) (K : StringHashtable ℕ) (new_fields : F.Table)
    (copy_string : Str → Str) (law : Removes K) where
  -- Where Remove of a hash table takes out the key and returns its value, Delete returns kErrorNoData
  -- just where its table and key, joined, have no entry, and kOK otherwise. Behind it, a Read whose
  -- table and key join to the same string returns kErrorNoData and leaves its result alone, and any
  -- other Read returns what it returned before.
  pub read-remove_joined :
      (db : HashtableDb F K new_fields copy_string) (table key table' key' : Str)
      (names : Option (List Str)) (result : List KvPair)
      → ((remove F K new_fields copy_string db table key).0
          ≡ remove_status (K.get db.key_table (key_index table key)))
        × (read F K new_fields copy_string
              (remove F K new_fields copy_string db table key).1
              table'
              key'
              names
              result
            ≡ (if str_eq (key_index table key) (key_index table' key')
                then (k_error_no_data, result)
                else read F K new_fields copy_string db table' key' names result))
  unfolding read remove
  read-remove_joined db table key table' key' names result = (
    ap remove_status (law.removed db.key_table (key_index table key)),
    elim (Bool-cases (str_eq (key_index table key) (key_index table' key'))) [
      | inl same ↦ rw (read, remove, law.left, same) refl
      | inr other ↦ rw (read, remove, law.left, other) refl
    ],
  )
