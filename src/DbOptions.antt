-- ===== src/DbOptions.antt =====
-- The option tables of db/rocksdb_cloud_db.cc and db/rocksdb_db.cc. The types of RocksDB and the
-- functions that make its objects are a parameter; a setter is a function on the options.
pub mod Tables
pub mod Samples
mod Runs
use ycsb_c_cloud.Base.{ℕ, Bool, Option, Str, List}

pub record Library : Type 1 where
  pub Compression : Type 0
  pub no_compression : Compression
  pub CompactionStyle : Type 0
  pub compaction_style_level : CompactionStyle
  pub FilterPolicy : Type 0
  pub new_bloom_filter_policy : ℕ → Bool → FilterPolicy
  pub Cache : Type 0
  pub new_lru_cache : ℕ → Cache
  pub PersistentCache : Type 0
  pub new_persistent_cache : Str → ℕ → Option PersistentCache

module _ (lib : Library) where
  open lib use {Compression, CompactionStyle, FilterPolicy, Cache, PersistentCache}

  -- The fields of BlockBasedTableOptions that the code sets.
  pub record BlockBasedTableOptions : Type 0 where
    pub cache_index_and_filter_blocks : Bool
    pub filter_policy : Option FilterPolicy
    pub block_cache : Option Cache
    pub block_size : ℕ
    pub initial_auto_readahead_size : ℕ
    pub max_auto_readahead_size : ℕ
    pub persistent_cache : Option PersistentCache

  -- The fields of Options that the code sets. A table factory is known by the options it is made of.
  pub record Options : Type 0 where
    pub create_if_missing : Bool
    pub compression : Compression
    pub compaction_style : CompactionStyle
    pub enable_pipelined_write : Bool
    pub use_direct_reads : Bool
    pub use_direct_io_for_flush_and_compaction : Bool
    pub max_bytes_for_level_base : ℕ
    pub write_buffer_size : ℕ
    pub target_file_size_base : ℕ
    pub max_background_compactions : ℕ
    pub max_background_flushes : ℕ
    pub compaction_readahead_size : ℕ
    pub level0_file_num_compaction_trigger : ℕ
    pub level0_slowdown_writes_trigger : ℕ
    pub level0_stop_writes_trigger : ℕ
    pub hyper_level : ℕ
    pub db_paths : List (Str × ℕ)
    pub table_factory : Option BlockBasedTableOptions
