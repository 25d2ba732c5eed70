-- ===== src/HashtableDb/Tables.antt =====
-- Hash tables that meet the assumptions on the class StringHashtable.
use ycsb_c_cloud.Base.{ℕ, refl, Option, some, none, Str, [], str_eq, if◌then◌else◌}
use ycsb_c_cloud.HashtableDb.{StringHashtable}
use ycsb_c_cloud.HashtableDb.Removal.{Removes}
use ycsb_c_cloud.HashtableDb.Fields.{Writes, is_none, value_or, replaced}

abbrev pub put_at : {V : Type 0} → (Str → Option V) → Str → Option V → Str → Option V
put_at t k v j = if str_eq k j then v else t j

-- Hash tables as functions, with no order of entries.
abbrev pub functions : {V : Type 0} → StringHashtable V
functions {V = V} = record {
  Table = Str → Option V;
  get = λ t k. t k;
  insert = λ t k v. (is_none (t k), put_at t k (some (value_or (t k) v)));
  update = λ t k v. (t k, put_at t k (replaced (t k) v));
  remove = λ t k. (t k, put_at t k none);
  entries = λ t k n. [];
}

pub functions-Removes : Removes {V = ℕ} functions
functions-Removes = record { removed = λ t k. refl; left = λ t k j. refl }

pub functions-Writes : {V : Type 0} → Writes {V = V} functions
functions-Writes = record {
  inserted = λ t k v. refl;
  get-insert = λ t k v j. refl;
  updated = λ t k v. refl;
  get-update = λ t k v j. refl;
}
