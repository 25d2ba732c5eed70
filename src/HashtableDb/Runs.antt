-- ===== src/HashtableDb/Runs.antt =====
-- Runs of HashtableDB at concrete inputs.
use ycsb_c_cloud.Base.{◌≡◌, refl, none, some, List, [], ◌∷◌, codes, str_eq, if◌then◌else◌}
use ycsb_c_cloud.HashtableDb.{
  HashtableDb, k_error_no_data, key_index, c_str, remove_status, read, remove,
}
use ycsb_c_cloud.HashtableDb.Removal.{read-remove_joined}
use ycsb_c_cloud.HashtableDb.Tables.{put_at, functions, functions-Removes, functions-Writes}
use ycsb_c_cloud.HashtableDb.Requests.{
  HashRequest, reads, updates, inserts, deletes, hash_answers, map_answers, Represents,
}
use ycsb_c_cloud.HashtableDb.Refines.{hash_answers-refines}

abbrev one_record : HashtableDb functions functions (λ k. none) (λ s. s)
one_record = record {
  key_table = put_at (λ k. none) (codes "ab") (some 7);
  heap = λ a j. none;
  fresh = 8;
}

read-remove_joined_example :
    ((remove functions functions (λ k. none) (λ s. s) one_record (codes "a") (codes "b")).0
      ≡ remove_status (one_record.key_table (key_index (codes "a") (codes "b"))))
    × (read functions functions
          (λ k. none)
          (λ s. s)
          (remove functions functions (λ k. none) (λ s. s) one_record (codes "a") (codes "b")).1
          (codes "")
          (codes "ab")
          none
          []
        ≡ (if str_eq (key_index (codes "a") (codes "b")) (key_index (codes "") (codes "ab"))
            then (k_error_no_data, [])
            else read functions functions
                (λ k. none)
                (λ s. s)
                one_record
                (codes "")
                (codes "ab")
                none
                []))
read-remove_joined_example =
    read-remove_joined functions functions (λ k. none) (λ s. s) functions-Removes one_record
      (codes "a") (codes "b") (codes "") (codes "ab") none []

abbrev no_records : HashtableDb functions functions (λ k. none) (λ s. s)
no_records = record { key_table = λ k. none; heap = λ a j. none; fresh = 0 }

no_records-Represents : Represents functions functions (λ k. none) (λ s. s) no_records (λ k. none)
no_records-Represents = record {
  at_index = λ index. tt;
  apart = λ i j address hi hj. let no : ⊥ = cc in absurd no;
  known = λ i address hi. let no : ⊥ = cc in absurd no;
}

-- The second Insert ends at field b, which is there, and keeps the field c before it.
abbrev script : List HashRequest
script =
    inserts (codes "t") (codes "1") ((codes "a", codes "x") ∷ (codes "b", codes "y") ∷ [])
    ∷ inserts (codes "t") (codes "1") ((codes "c", codes "z") ∷ (codes "b", codes "w") ∷ [])
    ∷ updates (codes "t") (codes "2") ((codes "a", codes "v") ∷ [])
    ∷ reads (codes "t") (codes "1") (codes "b" ∷ codes "c" ∷ codes "d" ∷ []) []
    ∷ deletes (codes "t") (codes "2")
    ∷ deletes (codes "t") (codes "2")
    ∷ []

script_answers :
    (map_answers (λ s. s) (λ k. none) script).0
    ≡ (0, [])
      ∷ (2, [])
      ∷ (0, [])
      ∷ (0, (codes "b", codes "y") ∷ (codes "c", codes "z") ∷ [])
      ∷ (0, [])
      ∷ (1, [])
      ∷ []
unfolding key_index c_str str_eq
script_answers = refl

hash_answers-refines_example :
    ((hash_answers functions functions (λ k. none) (λ s. s) no_records script).0
      ≡ (map_answers (λ s. s) (λ k. none) script).0)
    × Represents functions functions
        (λ k. none)
        (λ s. s)
        (hash_answers functions functions (λ k. none) (λ s. s) no_records script).1
        (map_answers (λ s. s) (λ k. none) script).1
hash_answers-refines_example =
    hash_answers-refines functions functions (λ k. none) (λ s. s) functions-Writes functions-Writes
      functions-Removes (λ j. refl) no_records (λ k. none) script no_records-Represents
