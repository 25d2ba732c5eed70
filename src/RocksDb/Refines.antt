-- ===== src/RocksDb/Refines.antt =====
-- The operations of db/rocksdb_cloud_db.cc and a map from keys to records: a sequence of requests to
-- either.
use ycsb_c_cloud.Base.{
  ◌≡◌, ◌≢◌, ◌⊎◌, refl, ap, ◌∙◌, inl, inr, Option, none, some, Str, List, [], ◌∷◌, str_eq, str_eq_ne,
  str_eq_iff, if◌then◌else◌, Bool-cases, All,
}
use mathlib.Core.Path.{ap₂}
use ycsb_c_cloud.Coding.{Endian}
use ycsb_c_cloud.Values.{KvPair, serialize_values}
use ycsb_c_cloud.RocksDb.Store.{Lookup, Engine, EngineLaws}
use ycsb_c_cloud.RocksDb.{
  Call, returned, exited, overrun, stuck, ◌>>=◌, k_ok, Db, read, insert, update, remove,
}
use ycsb_c_cloud.RocksDb.Laws.{
  Fits, read_found, insert_stores, remove_stores, insert_cases, remove_cases,
}

-- The abstract view: no tables, no field lists and no miss counter.
abbrev pub RecordMap : Type 0
RecordMap = Str → Option (List KvPair)

abbrev pub set_at : RecordMap → Str → Option (List KvPair) → RecordMap
set_at m key r j = if str_eq key j then r else m j

pub data Request : Type 0 where
  read_req : Str → Str → Option (List Str) → Request
  insert_req update_req : Str → Str → List KvPair → Request
  remove_req : Str → Str → Request

abbrev pairs_of : Option (List KvPair) → List KvPair
pairs_of none = []
pairs_of (some values) = values

-- What the map answers, and the map afterwards.
abbrev pub answer : RecordMap → Request → List KvPair × RecordMap
answer m (read_req table key fields) = (pairs_of (m key), m)
answer m (insert_req table key values) = ([], set_at m key (some values))
answer m (update_req table key values) = ([], set_at m key (some values))
answer m (remove_req table key) = ([], set_at m key none)

abbrev pub answers : RecordMap → List Request → List (List KvPair) × RecordMap
answers m [] = ([], m)
answers m (req ∷ reqs) =
    let (out, m') = answer m req in let (outs, m'') = answers m' reqs in (out ∷ outs, m'')

abbrev pub RequestFits : Endian → Request → Type 0
RequestFits host (insert_req table key values) = Fits host values
RequestFits host (update_req table key values) = Fits host values
RequestFits host _ = Unit

module _ (e : Engine) (host : Endian) where
  -- One request with an empty `result`; its answer is what `result` then holds.
  abbrev pub perform : Db e → Request → Call (List KvPair × Db e)
  perform db (read_req table key fields) = do
    (status, out, db') ← read e host db table key fields []
    returned (out, db')
  perform db (insert_req table key values) = do
    (status, db') ← insert e host db table key values
    returned ([], db')
  perform db (update_req table key values) = do
    (status, db') ← update e host db table key values
    returned ([], db')
  perform db (remove_req table key) = do (status, db') ← remove e db table key; returned ([], db')

  abbrev pub perform_all : Db e → List Request → Call (List (List KvPair) × Db e)
  perform_all db [] = returned ([], db)
  perform_all db (req ∷ reqs) = do
    (out, db') ← perform db req
    (outs, db'') ← perform_all db' reqs
    returned (out ∷ outs, db'')

  -- A key's stored string is its record, serialized, where that fits.
  abbrev Holds : Lookup → Option (List KvPair) → Type 0
  Holds l none = l ≡ Lookup.not_found
  Holds l (some values) = (l ≡ Lookup.found (serialize_values host values)) × Fits host values

  pub record Represents (db : Db e) (m : RecordMap) : Type 0 where
    pub at_key : (k : Str) → Holds (e.get db.engine k) (m k)

  -- A call ends the process, or returns what the map answers and a database for the map afterwards.
  abbrev pub Implements : {A : Type 0} → Call (A × Db e) → A × RecordMap → Type 0
  Implements {A} c r =
      (c ≡ exited)
      ⊎ ((out : A) × (db' : Db e) × (c ≡ returned (out, db')) × (out ≡ r.0) × Represents db' r.1)

  -- A request that returns answers as the map does and keeps the representation.
  abbrev Agrees : Call (List KvPair × Db e) → List KvPair × RecordMap → Type 0
  Agrees (returned (out, db')) (out', m') = (out ≡ out') × Represents db' m'
  Agrees exited r = Unit
  Agrees overrun r = ⊥
  Agrees stuck r = ⊥

module _ (e : Engine) (laws : EngineLaws e) (host : Endian) where
  stores-Represents :
      (db db' : Db e) (m : RecordMap) (key : Str) (r : Option (List KvPair))
      → Represents e host db m
      → Holds e host (e.get db'.engine key) r
      → ((j : Str) → key ≢ j → e.get db'.engine j ≡ e.get db.engine j)
      → Represents e host db' (set_at m key r)
  stores-Represents db db' m key r rep at_key others = record { at_key = go }
    where
      go : (j : Str) → Holds e host (e.get db'.engine j) (set_at m key r j)
      go j = elim (Bool-cases (str_eq key j)) [
        | inl same ↦ rw same (rw ((str_eq_iff key j).0 same) at at_key)
        | inr other ↦ rw (other, others j (str_eq_ne key j other)) (rep.at_key j)
      ]

  insert-Agrees :
      (db : Db e) (m : RecordMap) (table key : Str) (values : List KvPair)
      → Represents e host db m
      → Fits host values
      → Agrees e host
          (perform e host db (insert_req table key values))
          ([], set_at m key (some values))
  insert-Agrees db m table key values rep fits =
      elim (insert_cases e laws host db table key values) [
        | inl gone ↦ rw gone tt
        | inr (db', ok) ↦
            let (st, here, others, same) =
              insert_stores e laws host db db' table key values k_ok ok in
            rw ok (refl, stores-Represents db db' m key (some values) rep (here, fits) others)
      ]

  remove-Agrees :
      (db : Db e) (m : RecordMap) (table key : Str)
      → Represents e host db m
      → Agrees e host (perform e host db (remove_req table key)) ([], set_at m key none)
  remove-Agrees db m table key rep = elim (remove_cases e laws host db table key) [
    | inl gone ↦ rw gone tt
    | inr (db', ok) ↦
        let (st, here, others, same) = remove_stores e laws host db db' table key k_ok ok in
        rw ok (refl, stores-Represents db db' m key none rep here others)
  ]

  read-Agrees :
      (db : Db e) (m : RecordMap) (table key : Str) (fields : Option (List Str))
      → Represents e host db m
      → Agrees e host (perform e host db (read_req table key fields)) (pairs_of (m key), m)
  unfolding read
  read-Agrees db m table key fields rep = go (m key) (rep.at_key key)
    where
      go :
          (r : Option (List KvPair))
          → Holds e host (e.get db.engine key) r
          → Agrees e host (perform e host db (read_req table key fields)) (pairs_of r, m)
      go none h = rw (h, read) (refl, record { at_key = rep.at_key })
      go (some values) (h, fits) =
          rw (read_found e laws host db table key fields [] values fits h) (refl, rep)

  perform-Agrees :
      (db : Db e) (m : RecordMap) (req : Request)
      → Represents e host db m
      → RequestFits host req
      → Agrees e host (perform e host db req) (answer m req)
  perform-Agrees db m (read_req table key fields) rep fits = read-Agrees db m table key fields rep
  perform-Agrees db m (insert_req table key values) rep fits =
      insert-Agrees db m table key values rep fits
  perform-Agrees db m (update_req table key values) rep fits =
      unfold update in insert-Agrees db m table key values rep fits
  perform-Agrees db m (remove_req table key) rep fits = remove-Agrees db m table key rep

  Agrees-Implements :
      (c : Call (List KvPair × Db e)) (r : List KvPair × RecordMap)
      → Agrees e host c r
      → Implements e host c r
  Agrees-Implements (returned (out, db')) r h = inr (out, db', refl, h.0, h.1)
  Agrees-Implements exited r h = inl refl
  Agrees-Implements overrun r h = absurd h
  Agrees-Implements stuck r h = absurd h

  -- A sequence of requests either ends the process by `exit(0)`, or returns, each answer is the
  -- map's, and the database at the end represents the map at the end, if the database represents
  -- the map at the start and the records written fit their serialized form.
  pub perform_all-refines :
      (db : Db e) (m : RecordMap) (reqs : List Request)
      → Represents e host db m
      → All (RequestFits host) reqs
      → Implements e host (perform_all e host db reqs) (answers m reqs)
  perform_all-refines db m [] rep fits = inr ([], db, refl, refl, rep)
  perform_all-refines db m (req ∷ reqs) rep (fits, fits') =
      elim (Agrees-Implements _ (answer m req) (perform-Agrees db m req rep fits)) [
        | inl gone ↦ inl (ap (λ c. c >>= rest) gone)
        | inr (out, db', ok, same, rep') ↦
            elim (perform_all-refines db' (answer m req).1 reqs rep' fits') [
              | inl gone ↦ inl (ap (λ c. c >>= rest) ok ∙ ap (λ c. c >>= last out) gone)
              | inr (outs, db'', ok', same', rep'') ↦ inr (
                out ∷ outs,
                db'',
                ap (λ c. c >>= rest) ok ∙ ap (λ c. c >>= last out) ok',
                ap₂ ◌∷◌ same same',
                rep'',
              )
            ]
      ]
    where
      last : List KvPair → List (List KvPair) × Db e → Call (List (List KvPair) × Db e)
      last out (outs, db'') = returned (out ∷ outs, db'')

      rest : List KvPair × Db e → Call (List (List KvPair) × Db e)
      rest (out, db') = perform_all e host db' reqs >>= last out
