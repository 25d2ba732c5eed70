-- ===== src/LocalDb/Same.antt =====
-- The class RocksDB of db/rocksdb_db.cc beside RocksDBCloud of db/rocksdb_cloud_db.cc.
use ycsb_c_cloud.Base.{
  ℕ, ◌^◌, ◌<◌, ◌≡◌, refl, ap, ◌∙◌, Option, Str, List, [], ◌∷◌, All, length, ◌==◌, ltb, Bool-cases,
  Option-cases, ◌⊎◌, inl, inr,
}
use ycsb_c_cloud.Coding.{Endian}
use ycsb_c_cloud.Values.{KvPair, Outcome, serialize_values, deserialize_values}
use ycsb_c_cloud.RocksDb as Cloud
use ycsb_c_cloud.RocksDb.{Call, returned, exited, overrun, stuck, ◌>>=◌, of_outcome}
use ycsb_c_cloud.RocksDb.Store.{Lookup, Engine}
use ycsb_c_cloud.RocksDb.Latency.{
  Histograms, record_time, record_op, latency_hiccup, highest_trackable,
}
use ycsb_c_cloud.RocksDb.Report.{Readings, hiccup_line, print_stats}
use ycsb_c_cloud.LocalDb.Actions.{
  Action, Answer, found_pairs, nothing, reads, scans, inserts, updates, deletes, times, reports,
  prints, IsFew, Local, Clouded, local_act, cloud_act, local_acts, cloud_acts, latencies_of,
  cloud_of, in_cloud,
}
use ycsb_c_cloud.LocalDb.{local_read, local_scan, local_insert, local_update, local_delete}
use ycsb_c_cloud.LocalDb.Report.{
  LocalLatencies, kind_of, record_kind, local_record_time, local_latency_hiccup, local_print_stats,
}
use ycsb_c_cloud.LocalDb.Serialized.{local_serialize_values-few}
use ycsb_c_cloud.LocalDb.Deserialized.{local_deserialize_values-same}

Lookup-cases :
    (l : Lookup)
    → ((value : Str) × (l ≡ Lookup.found value)) ⊎ (l ≡ Lookup.not_found) ⊎ (l ≡ Lookup.failed)
Lookup-cases (Lookup.found value) = inl (value, refl)
Lookup-cases Lookup.not_found = inr (inl refl)
Lookup-cases Lookup.failed = inr (inr refl)

module _ (e : Engine) (host : Endian) (h : Histograms) (readings : Readings h) where
  record_kind-same :
      (l : LocalLatencies h) (op time : ℕ)
      → latencies_of e host h readings (record_kind h (kind_of op) time l)
        ≡ record_op h (latencies_of e host h readings l) op time
  unfolding kind_of record_op
  record_kind-same l op time = elim (Bool-cases (op == 1)) [
    | inl is_1 ↦ rw (kind_of, record_op, is_1) refl
    | inr not_1 ↦ elim (Bool-cases (op == 2)) [
      | inl is_2 ↦ rw (kind_of, record_op, not_1, is_2) refl
      | inr not_2 ↦ elim (Bool-cases (op == 3)) [
        | inl is_3 ↦ rw (kind_of, record_op, not_1, not_2, is_3) refl
        | inr not_3 ↦ elim (Bool-cases (op == 4)) [
          | inl is_4 ↦ rw (kind_of, record_op, not_1, not_2, not_3, is_4) refl
          | inr not_4 ↦ elim (Bool-cases (op == 5)) [
            | inl is_5 ↦ rw (kind_of, record_op, not_1, not_2, not_3, not_4, is_5) refl
            | inr not_5 ↦ rw (kind_of, record_op, not_1, not_2, not_3, not_4, not_5) refl
          ]
        ]
      ]
    ]
  ]

  local_record_time-same :
      (l : LocalLatencies h) (op time : ℕ)
      → latencies_of e host h readings (local_record_time h l op time)
        ≡ record_time h (latencies_of e host h readings l) op time
  unfolding local_record_time record_time
  local_record_time-same l op time = elim (Bool-cases (ltb highest_trackable time)) [
    | inl large ↦ rw (local_record_time, record_time, large) (record_kind-same _ op time)
    | inr small ↦ rw (local_record_time, record_time, small) (record_kind-same _ op time)
  ]

  local_insert-same :
      (table key : Str) (values : List KvPair) (s : (Local e host h readings))
      → length values < 2 ^ 32
      → in_cloud e host h readings (local_act e host h readings (inserts table key values) s)
        ≡ cloud_act e host h readings (inserts table key values) (cloud_of e host h readings s)
  unfolding local_insert Cloud.insert
  local_insert-same table key values (s, l) few =
      elim (Option-cases (e.put s.db key (serialize_values host values))) [
        | inl gone ↦
            rw (local_insert, Cloud.insert, local_serialize_values-few host values few, gone) refl
        | inr (db', ok) ↦
            rw (local_insert, Cloud.insert, local_serialize_values-few host values few, ok) refl
      ]

  local_delete-same :
      (table key : Str) (s : (Local e host h readings))
      → in_cloud e host h readings (local_act e host h readings (deletes table key) s)
        ≡ cloud_act e host h readings (deletes table key) (cloud_of e host h readings s)
  unfolding local_delete Cloud.remove
  local_delete-same table key (s, l) = elim (Option-cases (e.delete s.db key)) [
    | inl gone ↦ rw (local_delete, Cloud.remove, gone) refl
    | inr (db', ok) ↦ rw (local_delete, Cloud.remove, ok) refl
  ]

  -- Behind `Get`, and behind the reading of the string.
  local_read-same :
      (table key : Str) (fields : Option (List Str)) (result : List KvPair)
      (s : (Local e host h readings))
      → in_cloud e host h readings (local_act e host h readings (reads table key fields result) s)
        ≡ cloud_act e host h readings (reads table key fields result) (cloud_of e host h readings s)
  unfolding local_read Cloud.read
  local_read-same table key fields result (s, l) = elim (Lookup-cases (e.get s.db key)) [
    | inl (value, at) ↦
        rw (local_read, Cloud.read, at, local_deserialize_values-same host value result)
          (decoded (deserialize_values host value result))
    | inr (inl gone) ↦ rw (local_read, Cloud.read, gone) refl
    | inr (inr failed) ↦ rw (local_read, Cloud.read, failed) refl
  ]
    where
      decoded :
          (out : Outcome (List KvPair))
          → in_cloud e host h readings {A = Answer readings.Mean} (do
            (code, kvs, s') ← do kvs ← of_outcome out; returned (Cloud.k_ok, kvs, s)
            returned (found_pairs code kvs, (s', l)))
            ≡ (do
              (code, kvs, s') ← do
                kvs ← of_outcome out
                returned (Cloud.k_ok, kvs, (cloud_of e host h readings (s, l)).0)
              returned (found_pairs code kvs, (s', latencies_of e host h readings l)))
      decoded (Outcome.done kvs) = refl
      decoded Outcome.overrun = refl
      decoded Outcome.stuck = refl

  local_act-same :
      (action : Action) (s : (Local e host h readings))
      → IsFew action
      → in_cloud e host h readings (local_act e host h readings action s)
        ≡ cloud_act e host h readings action (cloud_of e host h readings s)
  unfolding local_scan local_update local_latency_hiccup local_print_stats Cloud.scan Cloud.update
      hiccup_line print_stats latency_hiccup
  local_act-same (reads table key fields result) s few = local_read-same table key fields result s
  local_act-same (scans table key len fields result) (s, l) few = refl
  local_act-same (inserts table key values) s few = local_insert-same table key values s few
  local_act-same (updates table key values) s few = local_insert-same table key values s few
  local_act-same (deletes table key) s few = local_delete-same table key s
  local_act-same (times op time) (s, l) few =
      ap (λ l'. returned (nothing, (record { engine = s.db; no_result = s.no_result }, l')))
        (local_record_time-same l op time)
  local_act-same (reports iops) (s, l) few = refl
  local_act-same (prints stats) (s, l) few = refl

  -- Whatever calls come one after the other, of Read, Scan, Insert, Update, Delete, RecordTime,
  -- latency_hiccup and PrintStats, if every record that is written has fewer than 2 ^ 32 pairs: an
  -- object of RocksDB answers as an object of RocksDBCloud with the same members does over the same
  -- store, ends the process where that does, and has the same members in the end.
  pub local_acts-same :
      (actions : List Action) (s : (Local e host h readings))
      → All IsFew actions
      → in_cloud e host h readings (local_acts e host h readings actions s)
        ≡ cloud_acts e host h readings actions (cloud_of e host h readings s)
  local_acts-same [] s few = refl
  local_acts-same (action ∷ actions) s (few, rest) =
      then_rest (λ s'. local_acts-same actions s' rest) (local_act e host h readings action s)
      ∙ ap (λ c. c >>= next) (local_act-same action s few)
    where
      next :
          Answer readings.Mean × (Clouded e host h readings)
          → Call (List (Answer readings.Mean) × (Clouded e host h readings))
      next (answer, s') = do
        (answers, s'') ← cloud_acts e host h readings actions s'
        returned (answer ∷ answers, s'')

      behind :
          (answer : Answer readings.Mean)
          (c : Call (List (Answer readings.Mean) × (Local e host h readings)))
          → in_cloud e host h readings (do (answers, s'') ← c; returned (answer ∷ answers, s''))
            ≡ (do (answers, s'') ← in_cloud e host h readings c; returned (answer ∷ answers, s''))
      behind answer (returned (answers, s'')) = refl
      behind answer exited = refl
      behind answer overrun = refl
      behind answer stuck = refl

      then_rest :
          ((s' : (Local e host h readings))
            → in_cloud e host h readings (local_acts e host h readings actions s')
              ≡ cloud_acts e host h readings actions (cloud_of e host h readings s'))
          → (c : Call (Answer readings.Mean × (Local e host h readings)))
          → in_cloud e host h readings (do
            (answer, s') ← c
            (answers, s'') ← local_acts e host h readings actions s'
            returned (answer ∷ answers, s''))
            ≡ (in_cloud e host h readings c >>= next)
      then_rest same (returned (answer, s')) =
          behind answer (local_acts e host h readings actions s')
          ∙ ap (λ c. c >>= λ (answers, s''). returned (answer ∷ answers, s'')) (same s')
      then_rest same exited = refl
      then_rest same overrun = refl
      then_rest same stuck = refl
