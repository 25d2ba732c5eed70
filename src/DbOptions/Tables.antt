-- ===== src/DbOptions/Tables.antt =====
-- The five setters. `block` is BlockBasedTableOptions as its constructor leaves it.
use ycsb_c_cloud.Base.{
  ℕ, ◌*◌, ◌==◌, true, false, Option, none, some, Str, List, [], ◌∷◌, ◌++◌, codes, if◌then◌else◌,
}
use ycsb_c_cloud.Properties.{Properties, find}
use ycsb_c_cloud.Numbers.{ℤ, pos, negsuc, stoi}
use ycsb_c_cloud.DbOptions.{Library, BlockBasedTableOptions, Options}

abbrev pub mib : ℕ
mib = 1024 * 1024

abbrev pub gib : ℕ
gib = 1024 * 1024 * 1024

module _ (lib : Library) (block : BlockBasedTableOptions lib) where
  open lib use {
    no_compression, compaction_style_level, new_bloom_filter_policy, new_lru_cache,
    new_persistent_cache,
  }

  abbrev pub cloud_block : ℕ → BlockBasedTableOptions lib
  cloud_block cache_size = record block {
    initial_auto_readahead_size = 256 * 1024;
    max_auto_readahead_size = 4 * mib;
    filter_policy = some (new_bloom_filter_policy 10 false);
    block_cache = some (new_lru_cache cache_size);
    block_size = 16 * 1024;
  }

  abbrev pub cloud_paths : Str → List (Str × ℕ)
  cloud_paths db_path =
      (db_path ++ codes "/ebs", 1024 * gib) ∷ (db_path ++ codes "/s3", 1024 * gib) ∷ []

  unfoldable pub set_rocksdb_ebs_options : Options lib → Str → Options lib
  set_rocksdb_ebs_options options db_path = record options {
    create_if_missing = true;
    compression = no_compression;
    compaction_style = compaction_style_level;
    enable_pipelined_write = true;
    use_direct_reads = true;
    use_direct_io_for_flush_and_compaction = true;
    max_bytes_for_level_base = 256 * mib;
    write_buffer_size = 64 * mib;
    target_file_size_base = 64 * mib;
    max_background_compactions = 8;
    max_background_flushes = 2;
    compaction_readahead_size = 4 * mib;
    table_factory = some (cloud_block (256 * mib));
    hyper_level = 7;
    db_paths = cloud_paths db_path;
  }

  unfoldable pub set_het_cloud_db_options : Options lib → Str → Options lib
  set_het_cloud_db_options options db_path = record options {
    create_if_missing = true;
    compression = no_compression;
    compaction_style = compaction_style_level;
    enable_pipelined_write = true;
    use_direct_reads = true;
    use_direct_io_for_flush_and_compaction = true;
    max_bytes_for_level_base = 64 * mib;
    write_buffer_size = 8 * mib;
    target_file_size_base = 8 * mib;
    max_background_compactions = 8;
    max_background_flushes = 2;
    level0_file_num_compaction_trigger = 8;
    level0_slowdown_writes_trigger = 20;
    level0_stop_writes_trigger = 36;
    compaction_readahead_size = 4 * mib;
    table_factory = some (cloud_block (64 * mib));
    hyper_level = 2;
    db_paths = cloud_paths db_path;
  }

  unfoldable pub set_rocks_mash_options : Options lib → Str → Options lib
  set_rocks_mash_options options db_path = set_het_cloud_db_options options db_path

  unfoldable pub set_local_options : Options lib → Options lib
  set_local_options options = record options {
    create_if_missing = true;
    compression = no_compression;
    compaction_style = compaction_style_level;
    enable_pipelined_write = true;
    use_direct_reads = true;
    use_direct_io_for_flush_and_compaction = true;
    max_bytes_for_level_base = 10 * mib;
    write_buffer_size = 1 * mib;
    target_file_size_base = 1 * mib;
    max_background_compactions = 8;
    max_background_flushes = 2;
    table_factory = some (record block {
      cache_index_and_filter_blocks = false;
      filter_policy = some (new_bloom_filter_policy 10 false);
      block_cache = some (new_lru_cache (4 * mib));
      block_size = 16 * 1024;
    });
  }

  -- SetOptions of RocksDB, up to the option `dboption`.
  abbrev pub default_options : Options lib → Options lib
  default_options options = record options {
    create_if_missing = true;
    compression = no_compression;
    enable_pipelined_write = true;
    max_bytes_for_level_base = 256 * mib;
    write_buffer_size = 64 * mib;
    target_file_size_base = 8 * mib;
    max_background_compactions = 4;
    max_background_flushes = 2;
    level0_file_num_compaction_trigger = 12;
    level0_slowdown_writes_trigger = 30;
    level0_stop_writes_trigger = 40;
    use_direct_reads = true;
    use_direct_io_for_flush_and_compaction = true;
  }

  abbrev pub default_block : BlockBasedTableOptions lib
  default_block = record block {
    cache_index_and_filter_blocks = false;
    filter_policy = some (new_bloom_filter_policy 10 false);
    block_cache = some (new_lru_cache (8 * mib));
  }

  -- `db_paths` under an option, where that sets it.
  unfoldable pub paths_of : ℕ → List (Str × ℕ) → List (Str × ℕ)
  paths_of dboption paths =
      if dboption == 0
      then (codes "/home/ubuntu/ssd_150g/wp", 200 * gib) ∷ []
      else if dboption == 1
      then paths
      else if dboption == 2
      then (codes "/home/ubuntu/gp2_50g_1", 50 * gib)
        ∷ (codes "/home/ubuntu/gp2_50g_2", 50 * gib)
        ∷ (codes "/home/ubuntu/gp2_50g_1_bak", 50 * gib)
        ∷ (codes "/home/ubuntu/gp2_50g_2_bak", 50 * gib)
        ∷ (codes "/home/ubuntu/gp3_100g_1", 60 * gib)
        ∷ (codes "/home/ubuntu/gp3_100g_2", 60 * gib)
        ∷ (codes "/home/ubuntu/gp3_100g_3", 60 * gib)
        ∷ []
      else if dboption == 3
      then (codes "/home/ubuntu/gp2_50g_1", 40 * gib)
        ∷ (codes "/home/ubuntu/gp3_100g_1", 200 * gib)
        ∷ []
      else paths

  -- NewPersistentCache sets the pointer where it succeeds.
  abbrev cached : Option lib.PersistentCache → BlockBasedTableOptions lib
  cached none = default_block
  cached (some cache) = record default_block { persistent_cache = some cache }

  -- Only under option 2 the table has a persistent cache.
  unfoldable pub block_of : ℕ → BlockBasedTableOptions lib
  block_of dboption =
      if dboption == 2
      then cached (new_persistent_cache (codes "/home/ubuntu/gp2_pcache") (12 * gib))
      else default_block

  unfoldable pub set_dboption : Options lib → ℤ → Options lib
  set_dboption options (pos dboption) = record (default_options options) {
    db_paths = paths_of dboption options.db_paths;
    table_factory = some (block_of dboption);
  }
  set_dboption options (negsuc n) = record (default_options options) {
    table_factory = some default_block;
  }

  -- `none` is an exception: of `props["dboption"]`, or of std::stoi.
  unfoldable pub set_options : Options lib → Properties → Option (Options lib)
  set_options options props = elim (find props (codes "dboption")) [
    | none ↦ none
    | some text ↦ elim (stoi text) [
      | none ↦ none
      | some dboption ↦ some (set_dboption options dboption)
    ]
  ]
