-- ===== src/HashtableDb.antt =====
-- HashtableDB of db/hashtable_db.h and db/hashtable_db.cc, over the hash tables of
-- lib/string_hashtable.h, which has the interface only.
pub mod Removal
pub mod Fields
pub mod Requests
pub mod Heap
pub mod Refines
pub mod Tables
mod Runs
use ycsb_c_cloud.Base.{
  ℕ, suc, ◌+◌, Bool, true, false, Option, none, some, Str, List, [], ◌∷◌, ◌++◌, ◌==◌, if◌then◌else◌,
}
use ycsb_c_cloud.Values.{KvPair}

-- The class StringHashtable: NULL is `none`, and a call returns the table behind it. `entries` are
-- those from a key on, or all, and as many as a bound says, if there is one.
pub record StringHashtable (V : Type 0) : Type 1 where
  pub Table : Type 0
  pub get : Table → Str → Option V
  pub insert : Table → Str → V → Bool × Table
  pub update : Table → Str → V → Option V × Table
  pub remove : Table → Str → Option V × Table
  pub entries : Table → Option Str → Option ℕ → List (Str × V)

-- `c_str()`, read up to its first NUL.
unfoldable pub c_str : Str → Str
c_str [] = []
c_str (c ∷ s) = let rest = c ∷ c_str s in if c == 0 then [] else rest

abbrev pub k_error_no_data : ℕ
k_error_no_data = 1

abbrev pub k_error_conflict : ℕ
k_error_conflict = 2

-- `string key_index(table + key)`, and its `c_str()`.
unfoldable pub key_index : Str → Str → Str
key_index table key = c_str (table ++ key)

abbrev pub remove_status : Option ℕ → ℕ
remove_status none = k_error_no_data
remove_status (some address) = 0

-- The tables of keys hold addresses of tables of fields. `new_fields` is NewFieldHashtable, and
-- `copy_string` the string behind the pointer that CopyString returns.
module _ (F : StringHashtable Str) (K : StringHashtable ℕ) (new_fields : F.Table)
    (copy_string : Str → Str) where
  pub record HashtableDb : Type 0 where
    pub key_table : K.Table
    pub heap : ℕ → F.Table
    pub fresh : ℕ

  abbrev pub write_at : HashtableDb → ℕ → F.Table → HashtableDb
  write_at db address fields = record db {
    heap = λ other. if address == other then fields else db.heap other;
  }

  -- The pairs of the fields that the table has.
  unfoldable pub get_fields : F.Table → List Str → List KvPair
  get_fields fields [] = []
  get_fields fields (field ∷ rest) = elim (F.get fields (c_str field)) [
    | none ↦ get_fields fields rest
    | some value ↦ (field, value) ∷ get_fields fields rest
  ]

  unfoldable pub record_of : F.Table → Option (List Str) → List KvPair
  record_of fields none = F.entries fields none none
  record_of fields (some names) = get_fields fields names

  -- The status and `result`; the database stays.
  unfoldable pub read : HashtableDb → Str → Str → Option (List Str) → List KvPair → ℕ × List KvPair
  read db table key names result = elim (K.get db.key_table (key_index table key)) [
    | none ↦ (k_error_no_data, result)
    | some address ↦ (0, record_of (db.heap address) names)
  ]

  records_of : HashtableDb → Option (List Str) → List (Str × ℕ) → List (List KvPair)
  records_of db names [] = []
  records_of db names ((key, address) ∷ rest) =
      record_of (db.heap address) names ∷ records_of db names rest

  unfoldable pub scan : HashtableDb → Str → Str → ℕ → Option (List Str) → ℕ × List (List KvPair)
  unfolding records_of
  scan db table key len names =
      (0, records_of db names (K.entries db.key_table (some (key_index table key)) (some len)))

  -- A table of fields that is new, at an address that no table had.
  unfoldable pub allocate : HashtableDb → Str → ℕ × HashtableDb
  allocate db index = (
    db.fresh,
    record (write_at db db.fresh new_fields) {
      key_table = (K.insert db.key_table index db.fresh).1;
      fresh = suc db.fresh;
    },
  )

  -- The loop of Update on a new table: what Insert returns is not looked at.
  pub insert_all : F.Table → List KvPair → F.Table
  insert_all fields [] = fields
  insert_all fields ((field, value) ∷ rest) =
      insert_all (F.insert fields (c_str field) (copy_string value)).1 rest

  -- The loop of Update on a table that was there.
  pub update_all : F.Table → List KvPair → F.Table
  update_all fields [] = fields
  update_all fields ((field, value) ∷ rest) =
      let (old, updated) = F.update fields (c_str field) (copy_string value) in
      let inserted = (F.insert updated (c_str field) (copy_string value)).1 in
      update_all (elim old [ none ↦ inserted | some string ↦ updated ]) rest

  unfoldable pub update : HashtableDb → Str → Str → List KvPair → ℕ × HashtableDb
  unfolding insert_all update_all
  update db table key values = elim (K.get db.key_table (key_index table key)) [
    | none ↦
        let (address, db') = allocate db (key_index table key) in
        (0, write_at db' address (insert_all (db'.heap address) values))
    | some address ↦ (0, write_at db address (update_all (db.heap address) values))
  ]

  -- The loop of Insert: it ends at the first field that is there already.
  pub insert_new : F.Table → List KvPair → ℕ × F.Table
  insert_new fields [] = (0, fields)
  insert_new fields ((field, value) ∷ rest) =
      let (ok, inserted) = F.insert fields (c_str field) (copy_string value) in
      let later = insert_new inserted rest in if ok then later else (k_error_conflict, inserted)

  unfoldable pub insert : HashtableDb → Str → Str → List KvPair → ℕ × HashtableDb
  unfolding insert_new
  insert db table key values =
      let (address, db') : ℕ × HashtableDb = elim (K.get db.key_table (key_index table key)) [
        | none ↦ allocate db (key_index table key)
        | some address ↦ (address, db)
      ] in
      let (status, fields) = insert_new (db'.heap address) values in
      (status, write_at db' address fields)

  -- The freed table of fields stays in the model's heap, where no key leads to it.
  unfoldable pub remove : HashtableDb → Str → Str → ℕ × HashtableDb
  remove db table key =
      let (removed, keys) = K.remove db.key_table (key_index table key) in
      (remove_status removed, record db { key_table = keys })
