-- ===== src/DbOptions/Samples.antt =====
-- Options over numbers, for the runs.
use ycsb_c_cloud.Base.{ℕ, false, some, none, []}
use ycsb_c_cloud.DbOptions.{Library, BlockBasedTableOptions, Options}

abbrev pub numbers : Library
numbers = record {
  Compression = ℕ;
  no_compression = 0;
  CompactionStyle = ℕ;
  compaction_style_level = 0;
  FilterPolicy = ℕ;
  new_bloom_filter_policy = λ bits block_based. bits;
  Cache = ℕ;
  new_lru_cache = λ capacity. capacity;
  PersistentCache = ℕ;
  new_persistent_cache = λ path size. some size;
}

abbrev pub plain_block : BlockBasedTableOptions numbers
plain_block = record {
  cache_index_and_filter_blocks = false;
  filter_policy = none;
  block_cache = none;
  block_size = 4096;
  initial_auto_readahead_size = 8192;
  max_auto_readahead_size = 262144;
  persistent_cache = none;
}

abbrev pub plain : Options numbers
plain = record {
  create_if_missing = false;
  compression = 1;
  compaction_style = 0;
  enable_pipelined_write = false;
  use_direct_reads = false;
  use_direct_io_for_flush_and_compaction = false;
  max_bytes_for_level_base = 268435456;
  write_buffer_size = 67108864;
  target_file_size_base = 67108864;
  max_background_compactions = 1;
  max_background_flushes = 1;
  compaction_readahead_size = 0;
  level0_file_num_compaction_trigger = 4;
  level0_slowdown_writes_trigger = 20;
  level0_stop_writes_trigger = 36;
  hyper_level = 0;
  db_paths = [];
  table_factory = none;
}
