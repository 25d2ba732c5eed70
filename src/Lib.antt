-- ===== src/Lib.antt =====
-- ycsb-c-cloud: a benchmark client for key-value stores, and the stores that it drives.
--
-- A client thread draws operations, keys and lengths from the generators of core/ and calls a
-- database of db/. A database stores a record, which is a list of field and value pairs.
--
-- - Base: shared names, tests on numbers, lists, byte strings, bit masks.
-- - Coding: lib/coding.h. `encode_fixed64` is EncodeFixed64, and so on. A flag stands for the macro
--   KLittleEndian, and `Endian` for the order in which memcpy shows the bytes of an integer.
-- - Numbers: std::to_string, std::stoi, std::stoll and the extraction of integers from a stream,
--   written out. Decimal and Extract have the lemmas.
-- - Values: SerializeValues and DeSerializeValues of db/rocksdb_cloud_db.cc. Offsets wrap at 64 bits
--   and the loop counter at 32. The loop of the reader takes fuel, one more than the bytes of the
--   buffer: every round reads sixteen bytes at least, and a read past the buffer ends it.
-- - RocksDb: Read, Scan, Insert, Update, Delete, RecordTime and latency_hiccup of
--   db/rocksdb_cloud_db.cc, and Report what latency_hiccup and PrintStats print. RocksDB itself and
--   HdrHistogram are parameters with the laws that their documents state.
-- - LocalDb: the class RocksDB of db/rocksdb_db.cc behind its constructor. Strings has its
--   serialization with the counters of the loops, whose fuel is enough for records of fewer than
--   2 ^ 32 pairs, and one round for each byte of a buffer; Report has its latencies and PrintStats.
--   Actions are calls of either class, which Serialized, Deserialized and Same compare.
-- - Generators: core/utils.h (the hash) and the generators of core/. The arithmetic of `double` is a
--   parameter with no law. The random engine is a parameter, and a random `double` an argument.
-- - Properties: core/properties.h, Trim and StrToBool of core/utils.h. A file is the string of its
--   bytes, or `none` if it is not open. Lookup has the map, Loading the files.
-- - Workload: core/core_workload.h and core/core_workload.cc. Options has the names of the
--   properties, Setup the function Init, and Keys, Choice, Start and Fields the proofs. The loop of
--   NextTransactionKey takes fuel, of which the uniform distribution needs one round: its draws are
--   below the record count. `std::stod` is a parameter.
-- - Timers: get_now_micros of core/timer.h. What gettimeofday writes is an argument.
-- - Client: core/client.h over the operations of core/db.h, which are a parameter. Ready and
--   Counts are about DoTransaction, Asked about the fields that it reads,
--   Clock about the time it takes. Serving is what a client
--   needs of a database; BasicDb.Interface and Backend.Served fill it.
-- - CommandLine: Init and ParseCommandLine of ycsbc.cc, and CreateDB of db/db_factory.cc. An array of
--   arguments is a list, and the files that open are a function from names to texts.
-- - Delegate: DelegateClient of ycsbc.cc, alone, and in threads whose rounds come in any order. Progress
--   is about the rounds that it reports, up to the number at which the int next_report_ overflows,
--   Rounds about one call, Interleaved and Sums about several, Load and Threads about loading,
--   Transactions about the transactions.
-- - MainProgram: main of ycsbc.cc behind ParseCommandLine, from CommandLine, Workload and Delegate.
--   What threads do is a list of steps, and the databases that CreateDB makes are arguments. Loading is
--   about a load, Running about transactions behind it, Cloud about both on RocksDBCloud. The
--   flags finish and done, which main sets at its end, are what the rounds of Statistics find.
-- - DbOptions: the option tables of db/rocksdb_cloud_db.cc and of db/rocksdb_db.cc, over the types of
--   RocksDB as a parameter. Tables has the setters.
-- - DbSetUp: the constructors of RocksDBCloud and RocksDB.
-- - BasicDb: db/basic_db.h, whose state is the text that it has printed. Lines and Newlines are about
--   this text, Interface makes it a database of the client.
-- - Backend: the operations and latencies of RocksDb as a database of the client; Stored is about what
--   RocksDB holds behind a load, Served about the transactions that come then.
-- - HashtableDb: db/hashtable_db.h and db/hashtable_db.cc. The classes of hash tables and of copied
--   strings have no code here and are parameters; a pointer to a table is an address in a heap. Fields,
--   Requests, Heap and Refines compare it with a map.
-- - HashString: the SDBM hash and the comparison of lib/string.h.
-- - Proc: the readers of /proc/net/dev and /proc/diskstats in lib/perf_disk_net_bw.h, and Log, its
--   function calculateBandwidth, round by round. Disk and Devices have files that are written line by
--   line, Written the lines that calculateBandwidth appends then, Bandwidth the differences of two
--   readings.
-- - Statistics: print_my_status and print_summary of db/rocksdb_cloud_db.cc, round by round, over the
--   statistics object of RocksDB as a parameter. Sums, Totals and Gone have the proofs, Printed has
--   printRocksDBStats. A list of rounds stands for what the endless loop finds.
--
-- A string is the list of its bytes. A failed assertion is `none`. Mutexes are left out where one
-- guards a whole operation: the operation is a step. A round of DelegateClient is a step too, although
-- nothing guards the arrays that it adds to: what these hold is said of a thread that runs alone only.
--
-- Not modelled: output (but for BasicDB and printRocksDBStats, what is printed is a value, not a
-- text), the class Timer, the limits of memory (std::length_error of std::string too), memory
-- allocation and the destructors, and HdrHistogram, another project's library.
pub mod Base
pub mod Coding
pub mod Values
pub mod RocksDb
pub mod Generators
pub mod Properties
pub mod Timers
pub mod Workload
pub mod Numbers
pub mod Client
pub mod CommandLine
pub mod HashtableDb
pub mod HashString
pub mod Proc
pub mod Statistics
pub mod Delegate
pub mod MainProgram
pub mod DbOptions
pub mod DbSetUp
pub mod BasicDb
pub mod Backend
pub mod LocalDb
