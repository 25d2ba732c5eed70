-- ===== src/DbSetUp.antt =====
-- The constructors of RocksDBCloud in db/rocksdb_cloud_db.cc and of RocksDB in db/rocksdb_db.cc. What
-- hdr_init, fopen, the AWS SDK and Open answer are arguments.
mod Runs
use ycsb_c_cloud.Base.{
  ℕ, zero, suc, ◌==◌, Bool, true, false, ◌&&◌, ◌||◌, not, Option, none, some, Str, codes, ltb,
  if◌then◌else◌,
}
use ycsb_c_cloud.Properties.{Properties}
use ycsb_c_cloud.Numbers.{ℤ, pos, negsuc}
use ycsb_c_cloud.DbOptions.{Library, BlockBasedTableOptions, Options}
use ycsb_c_cloud.DbOptions.Tables.{set_rocksdb_ebs_options, set_options}

-- A call of hdr_init: its result, and whether it leaves the pointer NULL.
pub record HdrInit : Type 0 where
  pub result : ℤ
  pub is_null : Bool

pub record HdrInits : Type 0 where
  pub hdr : HdrInit
  pub hdr_last_1s : HdrInit
  pub hdr_get : HdrInit
  pub hdr_put : HdrInit
  pub hdr_update : HdrInit
  pub hdr_scan : HdrInit
  pub hdr_rmw : HdrInit
  pub counts_len : ℤ

abbrev is_zero : ℤ → Bool
is_zero (pos n) = n == 0
is_zero (negsuc n) = false

-- `0 == r` for the disjunction `r` of the results.
unfoldable pub no_error : HdrInits → Bool
no_error h =
    is_zero h.hdr.result
    && is_zero h.hdr_last_1s.result
    && is_zero h.hdr_get.result
    && is_zero h.hdr_put.result
    && is_zero h.hdr_update.result
    && is_zero h.hdr_scan.result
    && is_zero h.hdr_rmw.result

abbrev is_long : ℤ → Bool
is_long (pos n) = ltb 23552 n
is_long (negsuc n) = false

unfoldable pub init_failed : HdrInits → Bool
init_failed h =
    not (no_error h)
    || h.hdr.is_null
    || h.hdr_last_1s.is_null
    || h.hdr_get.is_null
    || h.hdr_put.is_null
    || h.hdr_scan.is_null
    || h.hdr_rmw.is_null
    || h.hdr_update.is_null
    || is_long h.counts_len

-- `undefined`: a pointer is used that is NULL or was never set. `exits` is exit(0).
pub data Making {ℓ} (A : Type ℓ) : Type ℓ where
  made : A → Making A
  exits undefined thrown : Making A

infixl 5 ◌>>=◌
abbrev pub ◌>>=◌ {ℓ κ} : {A : Type ℓ} {B : Type κ} → Making A → (A → Making B) → Making B
made a >>= f = f a
exits >>= f = exits
undefined >>= f = undefined
thrown >>= f = thrown

-- The message about a failure reads `hdr_->counts_len` even where `hdr_` is NULL.
unfoldable pub check_histograms : HdrInits → Making (Unit {0})
check_histograms h = if init_failed h then if h.hdr.is_null then undefined else exits else made tt

unfoldable pub open_file : Bool → Making (Unit {0})
open_file opens = if opens then made tt else exits

-- The path that RocksDBCloud opens.
abbrev pub k_db_path : Str
k_db_path = codes "/home/ubuntu/gp3/hyper_8M_1000w"

-- `src_bucket` or `dest_bucket` of the options, by SetBucketName.
pub record BucketName : Type 0 where
  pub suffix : Str
  pub prefix : Str

-- What NewAwsFileSystem is called with besides the default file system; the members of
-- `cloud_fs_options` that the code does not set keep their defaults.
pub record AwsArguments : Type 0 where
  pub src_bucket_suffix : Str
  pub src_path : Str
  pub src_region : Str
  pub dest_bucket_suffix : Str
  pub dest_path : Str
  pub dest_region : Str
  pub src_bucket : BucketName
  pub dest_bucket : BucketName
  pub keep_local_sst_files : Bool

abbrev k_bucket_suffix : Str
k_bucket_suffix = codes "hyper.8m.1000w"

abbrev k_region : Str
k_region = codes "ap-northeast-2"

abbrev bucket_name : BucketName
bucket_name = record { suffix = k_bucket_suffix; prefix = codes "rockset." }

abbrev pub aws_arguments : AwsArguments
aws_arguments = record {
  src_bucket_suffix = k_bucket_suffix;
  src_path = k_db_path;
  src_region = k_region;
  dest_bucket_suffix = k_bucket_suffix;
  dest_path = k_db_path;
  dest_region = k_region;
  src_bucket = bucket_name;
  dest_bucket = bucket_name;
  keep_local_sst_files = false;
}

module _ (lib : Library) (block : BlockBasedTableOptions lib) (defaults : Options lib)
    (State : Type 0) where
  -- The pointer `db_`, if it was set, and whether the threads for statistics are started.
  pub record Object : Type 0 where
    pub db : Option State
    pub no_result : ℕ
    pub started : Bool

  abbrev pub checked : Option (Options lib) → Making (Options lib)
  checked none = thrown
  checked (some options) = made options

  abbrev pub opened : Option State → Making Object
  opened none = exits
  opened (some state) = made (record { db = some state; no_result = 0; started = false })

  unfoldable pub new_rocksdb :
      HdrInits → Bool → Bool → (Str → Options lib → Option State) → Str → Properties → Making Object
  new_rocksdb h output_opens hiccup_opens open_db dbfilename props = do
    histograms ← check_histograms h
    output ← open_file output_opens
    hiccup ← open_file hiccup_opens
    options ← checked (set_options lib block defaults props)
    opened (open_db dbfilename options)

  -- The file system of NewAwsFileSystem, if it makes one.
  abbrev file_system {ℓ} : {Cfs : Type ℓ} → Option Cfs → Making Cfs
  file_system none = undefined
  file_system (some cfs) = made cfs

  unfoldable pub new_rocksdb_cloud {ℓ} :
      {Cfs : Type ℓ}
      → HdrInits
      → Bool
      → Bool
      → (AwsArguments → Option Cfs)
      → (Cfs → Str → Options lib → Option State)
      → Str
      → Properties
      → Making Object
  new_rocksdb_cloud h output_opens hiccup_opens new_aws open_db dbfilename props = do
    histograms ← check_histograms h
    output ← open_file output_opens
    hiccup ← open_file hiccup_opens
    cfs ← file_system (new_aws aws_arguments)
    let options =
        set_rocksdb_ebs_options lib block (record defaults { create_if_missing = true }) k_db_path
    made (record { db = open_db cfs k_db_path options; no_result = 0; started = true })
