-- ===== src/LocalDb/Report.antt =====
-- RecordTime, latency_hiccup and PrintStats of db/rocksdb_db.cc.
use ycsb_c_cloud.Base.{
  ℕ, ◌+◌, ◌%◌, ◌^◌, Bool, true, false, not, Option, none, some, Str, codes, List, [], ◌∷◌, ◌++◌,
  map, ltb, ◌==◌, if◌then◌else◌,
}
use ycsb_c_cloud.RocksDb.Latency.{Histograms, highest_trackable}
use ycsb_c_cloud.RocksDb.Report.{Readings, Hiccup, StatsTable}

-- The histograms that are made.
pub data Kind : Type 0 where
  all last_1s get put update scan rmw : Kind

-- The histogram that RecordTime chooses for an operation.
unfoldable pub kind_of : ℕ → Option Kind
kind_of op =
    if op == 1
    then some put
    else if op == 2
    then some get
    else if op == 3
    then some update
    else if op == 4
    then some scan
    else if op == 5
    then some rmw
    else none

abbrev pub is_kind : Kind → Kind → Bool
is_kind all all = true
is_kind last_1s last_1s = true
is_kind get get = true
is_kind put put = true
is_kind update update = true
is_kind scan scan = true
is_kind rmw rmw = true
is_kind _ _ = false

module _ (h : Histograms) where
  open h use {Histogram, record_value, reset}

  -- The histograms, `qps` as the bits of a 64-bit integer, and the lines written to `cout`.
  pub record LocalLatencies : Type 0 where
    pub hdr : Kind → Histogram
    pub qps : ℕ
    pub printed : List Str

  abbrev pub set_hdr : LocalLatencies → Kind → Histogram → LocalLatencies
  set_hdr l kind histogram = record l {
    hdr = λ other. if is_kind kind other then histogram else l.hdr other;
  }

  -- `hdr_record_value`
  abbrev pub record_at : Kind → ℕ → LocalLatencies → LocalLatencies
  record_at kind time l = set_hdr l kind (record_value (l.hdr kind) time)

  abbrev pub say : Str → LocalLatencies → LocalLatencies
  say line l = record l { printed = l.printed ++ line ∷ [] }

  abbrev pub record_kind : Option Kind → ℕ → LocalLatencies → LocalLatencies
  record_kind none time l = say (codes "record time err with op error") l
  record_kind (some kind) time l = record_at kind time l

  unfoldable pub local_record_time : LocalLatencies → ℕ → ℕ → LocalLatencies
  local_record_time l op time =
      let warned = if ltb highest_trackable time then say (codes "too large tx_xtime") l else l in
      let counted = record warned { qps = (warned.qps + 1) % 2 ^ 64 } in
      record_kind (kind_of op) time (record_at last_1s time (record_at all time counted))

  module _ (readings : Readings h) where
    open readings use {Mean, mean, value_at_percentile, percentiles_print}

    -- The line of the file, and the object behind it. The argument `iops` is not used.
    unfoldable pub local_latency_hiccup : LocalLatencies → ℕ → Hiccup Mean × LocalLatencies
    local_latency_hiccup l iops = (
      record {
        mean = mean (l.hdr last_1s);
        at_95 = value_at_percentile (l.hdr last_1s) 9500;
        at_99 = value_at_percentile (l.hdr last_1s) 9900;
        at_9999 = value_at_percentile (l.hdr last_1s) 9999;
        qps = l.qps;
      },
      record (set_hdr l last_1s (reset (l.hdr last_1s))) { qps = 0 },
    )

    -- The table_columns of the table.
    abbrev pub table_columns : List Kind
    table_columns = all ∷ get ∷ put ∷ update ∷ scan ∷ rmw ∷ []

    -- `no_result` is the member of the object, and `stats` what `GetProperty("rocksdb.stats")` writes.
    unfoldable pub local_print_stats : ℕ → LocalLatencies → Str → StatsTable Mean
    local_print_stats no_result l stats = record {
      missed = no_result;
      stats = stats;
      means = map (λ kind. mean (l.hdr kind)) table_columns;
      at_95 = map (λ kind. value_at_percentile (l.hdr kind) 9500) table_columns;
      at_99 = map (λ kind. value_at_percentile (l.hdr kind) 9900) table_columns;
      at_9999 = map (λ kind. value_at_percentile (l.hdr kind) 9999) table_columns;
      print_failed = not (percentiles_print (l.hdr all) == 0);
    }
