-- ===== src/RocksDb/Memory.antt =====
-- An engine that meets the assumptions on RocksDB.
use ycsb_c_cloud.Base.{
  ◌≡◌, ◌≢◌, refl, some, Str, [], str_eq, str_eq_refl, str_eq_iff, if◌then◌else◌, Bool, false, true,
}
use ycsb_c_cloud.RocksDb.Store.{Lookup, Engine, EngineLaws}

abbrev pub write_at : (Str → Lookup) → Str → Lookup → Str → Lookup
write_at s k l j = if str_eq k j then l else s j

-- A database in memory, whose writes all succeed and whose iterators visit nothing.
abbrev pub memory : Engine
memory = record {
  State = Str → Lookup;
  get = λ s k. s k;
  put = λ s k v. some (write_at s k (Lookup.found v));
  delete = λ s k. some (write_at s k Lookup.not_found);
  entries_from = λ s k. [];
}

str_eq_of_ne : (k j : Str) → k ≢ j → str_eq k j ≡ false
str_eq_of_ne k j ne = go (str_eq k j) refl
  where
    go : (b : Bool) → str_eq k j ≡ b → str_eq k j ≡ false
    go true e = absurd (ne ((str_eq_iff k j).0 e))
    go false e = e

write_at_self :
    (s s' : Str → Lookup) (k : Str) (l : Lookup) → some (write_at s k l) ≡ some s' → s' k ≡ l
write_at_self s s' k l h = let e : write_at s k l ≡ s' = cc in rw (← e) (rw (str_eq_refl k))

write_at_ne :
    (s s' : Str → Lookup) (k j : Str) (l : Lookup)
    → k ≢ j
    → some (write_at s k l) ≡ some s'
    → s' j ≡ s j
write_at_ne s s' k j l ne h =
    let e : write_at s k l ≡ s' = cc in rw (← e) (rw (str_eq_of_ne k j ne))

pub memory_laws : EngineLaws memory
memory_laws = record {
  get-put_self = λ s s' k v h. write_at_self s s' k (Lookup.found v) h;
  get-put_ne = λ s s' k j v ne h. write_at_ne s s' k j (Lookup.found v) ne h;
  get-delete_self = λ s s' k h. write_at_self s s' k Lookup.not_found h;
  get-delete_ne = λ s s' k j ne h. write_at_ne s s' k j Lookup.not_found ne h;
}
