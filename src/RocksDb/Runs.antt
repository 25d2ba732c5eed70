-- ===== src/RocksDb/Runs.antt =====
-- The theorems on RocksDBCloud at concrete inputs.
use ycsb_c_cloud.Base.{◌≡◌, refl, arith, none, List, [], ◌∷◌, codes}
use ycsb_c_cloud.Coding.{little, encode_fixed64, put_fixed64, object_bytes}
use ycsb_c_cloud.Values.{KvPair, serialize_values}
use ycsb_c_cloud.RocksDb.Store.{Lookup}
use ycsb_c_cloud.RocksDb.Memory.{write_at, memory, memory_laws}
use ycsb_c_cloud.RocksDb.{returned, k_ok, Db, read, insert, remove}
use ycsb_c_cloud.RocksDb.Laws.{Fits, read-remove}
use ycsb_c_cloud.RocksDb.Refines.{
  RecordMap, Request, read_req, insert_req, update_req, remove_req, answers, perform_all,
  Represents, Implements, perform_all-refines,
}

abbrev empty : Db memory
empty = record { engine = λ k. Lookup.not_found; no_result = 0 }

abbrev two : List KvPair
two = (codes "field0", codes "ab") ∷ (codes "field1", codes "c") ∷ []

abbrev one : List KvPair
one = (codes "field1", codes "new") ∷ []

abbrev stored : Db memory → List KvPair → Db memory
stored db values = record db {
  engine = write_at db.engine (codes "user1") (Lookup.found (serialize_values little values));
}

two-Fits : Fits little two
unfolding serialize_values put_fixed64 encode_fixed64 object_bytes
two-Fits = record { few = omega arith; short = omega arith }

one-Fits : Fits little one
unfolding serialize_values put_fixed64 encode_fixed64 object_bytes
one-Fits = record { few = omega arith; short = omega arith }

insert_runs :
    (db : Db memory) (values : List KvPair)
    → insert memory little db (codes "t") (codes "user1") values ≡ returned (k_ok, stored db values)
unfolding insert
insert_runs db values = refl

abbrev removed : Db memory
removed = record empty { engine = write_at empty.engine (codes "user1") Lookup.not_found }

remove_runs : remove memory empty (codes "t") (codes "user1") ≡ returned (k_ok, removed)
unfolding remove
remove_runs = refl

read-remove_example :
    read memory little removed (codes "t") (codes "user1") none two
    ≡ returned (k_ok, two, record removed { no_result = 1 })
read-remove_example =
    read-remove memory memory_laws little empty removed (codes "t") (codes "user1") none two k_ok
      remove_runs

abbrev script : List Request
script =
    insert_req (codes "t") (codes "user1") two
    ∷ update_req (codes "t") (codes "user1") one
    ∷ read_req (codes "t") (codes "user1") none
    ∷ remove_req (codes "t") (codes "user1")
    ∷ []

abbrev no_records : RecordMap
no_records k = none

empty-Represents : Represents memory little empty no_records
empty-Represents = record { at_key = λ k. refl }

perform_all-refines_example :
    Implements memory little (perform_all memory little empty script) (answers no_records script)
perform_all-refines_example =
    perform_all-refines memory memory_laws little empty no_records script empty-Represents
      (two-Fits, (one-Fits, (tt, (tt, tt))))
