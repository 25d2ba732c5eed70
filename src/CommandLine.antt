-- ===== src/CommandLine.antt =====
-- Init, ParseCommandLine and StrStartWith of ycsbc.cc, and CreateDB of db/db_factory.cc.
pub mod Render
pub mod Keys
mod Runs
use ycsb_c_cloud.Base.{
  ℕ, Bool, true, false, Option, none, some, Str, List, [], ◌∷◌, codes, str_eq, if◌then◌else◌, ◌==◌,
}
use ycsb_c_cloud.Properties.{Properties, set_property, get_property, find, load}

unfoldable pub init_properties : Properties → Properties
init_properties p0 =
    let p1 = set_property p0 (codes "dbname") (codes "basic") in
    let p2 = set_property p1 (codes "dbpath") (codes "") in
    let p3 = set_property p2 (codes "load") (codes "false") in
    let p4 = set_property p3 (codes "run") (codes "false") in
    let p5 = set_property p4 (codes "threadcount") (codes "1") in
    let p6 = set_property p5 (codes "dboption") (codes "0") in
    let p7 = set_property p6 (codes "dbstatistics") (codes "false") in
    set_property p7 (codes "dbwaitforbalance") (codes "false")

unfoldable pub str_start_with : Str → Str → Bool
str_start_with str [] = true
str_start_with [] (c ∷ pre) = false
str_start_with (b ∷ str) (c ∷ pre) =
    let rest = str_start_with str pre in if b == c then rest else false

-- What the chain of `strcmp` finds: an option that sets a property, "-P", or none.
pub data Flag : Type 0 where
  sets : Str → Flag
  loads unknown_flag : Flag

unfoldable pub flag_of : Str → Flag
flag_of arg =
    if str_eq arg (codes "-threads")
    then sets (codes "threadcount")
    else if str_eq arg (codes "-db")
    then sets (codes "dbname")
    else if str_eq arg (codes "-host")
    then sets (codes "host")
    else if str_eq arg (codes "-port")
    then sets (codes "port")
    else if str_eq arg (codes "-slaves")
    then sets (codes "slaves")
    else if str_eq arg (codes "-dbpath")
    then sets (codes "dbpath")
    else if str_eq arg (codes "-load")
    then sets (codes "load")
    else if str_eq arg (codes "-run")
    then sets (codes "run")
    else if str_eq arg (codes "-dboption")
    then sets (codes "dboption")
    else if str_eq arg (codes "-dbstatistics")
    then sets (codes "dbstatistics")
    else if str_eq arg (codes "-dbwaitforbalance")
    then sets (codes "dbwaitforbalance")
    else if str_eq arg (codes "-P")
    then loads
    else unknown_flag

-- The file name with the properties; `exit(0)` behind the usage message or behind the name of an
-- unknown option; or the end of the process by the exception of Load, which `catch (const string &)`
-- does not catch.
pub data Parse : Type 0 where
  parsed : Str → Properties → Parse
  usage terminated : Parse
  unknown : Str → Parse

-- A known option without its value.
abbrev without_value : Str → Flag → Parse
without_value arg (sets key) = usage
without_value arg loads = usage
without_value arg unknown_flag = unknown arg

-- `files` has the text of each file that opens, and `first` stands for `argindex == 1`.
unfoldable pub parse_loop : (Str → Option Str) → Bool → List Str → Str → Properties → Parse
parse_loop files first [] filename props = if first then usage else parsed filename props
parse_loop files first (arg ∷ []) filename props =
    if str_start_with arg (codes "-") then without_value arg (flag_of arg) else usage
parse_loop files first (arg ∷ value ∷ args) filename props =
    let next : Parse = elim (flag_of arg) [
      | sets key ↦ parse_loop files false args filename (set_property props key value)
      | loads ↦ elim (load props (files value)) [
        | none ↦ terminated
        | some props' ↦ parse_loop files false args value props'
      ]
      | unknown_flag ↦ unknown arg
    ] in
    if str_start_with arg (codes "-") then next else usage

-- The arguments behind the name of the command.
unfoldable pub parse_command_line : (Str → Option Str) → List Str → Properties → Parse
parse_command_line files args props = parse_loop files true args [] props

-- What CreateDB makes; `out_of_range` is the exception of `at`.
pub data Created : Type 0 where
  basic_db : Created
  rocksdb_cloud : Str → Created
  null out_of_range : Created

unfoldable pub create_db : Properties → Created
create_db props = elim (find props (codes "dbname")) [
  | none ↦ out_of_range
  | some name ↦
      if str_eq name (codes "basic")
      then basic_db
      else if str_eq name (codes "rocksdb")
      then null
      else if str_eq name (codes "rocksdb-cloud")
      then rocksdb_cloud (get_property props (codes "dbpath") (codes "/tmp/test-rocksdb"))
      else null
]
