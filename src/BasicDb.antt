-- ===== src/BasicDb.antt =====
-- BasicDB of db/basic_db.h, which prints its calls. The database is what has been printed.
pub mod Newlines
pub mod Lines
pub mod Interface
mod Runs
use ycsb_c_cloud.Base.{ℕ, suc, ◌+◌, Option, none, some, Str, List, [], ◌∷◌, ◌++◌, codes}
use ycsb_c_cloud.Values.{KvPair}
use ycsb_c_cloud.Numbers.{ℤ, pos, negsuc, to_string}
use ycsb_c_cloud.Workload.{Run, returned}
use ycsb_c_cloud.Client.{Database}

abbrev pub newline : Str
newline = 10 ∷ []

-- `<<` for an int.
abbrev pub int_text : ℤ → Str
int_text (pos n) = to_string n
int_text (negsuc n) = codes "-" ++ to_string (n + 1)

unfoldable pub field_list : List Str → Str
field_list [] = []
field_list (f ∷ fields) = f ++ codes " " ++ field_list fields

-- What Read and Scan print of the fields.
unfoldable pub fields_part : Option (List Str) → Str
fields_part (some fields) = codes " [ " ++ field_list fields ++ codes "]" ++ newline
fields_part none = codes " < all fields >" ++ newline

unfoldable pub value_list : List KvPair → Str
value_list [] = []
value_list ((name, value) ∷ values) = name ++ codes "=" ++ value ++ codes " " ++ value_list values

unfoldable pub values_part : List KvPair → Str
values_part values = codes " [ " ++ value_list values ++ codes "]" ++ newline

unfoldable pub init_line : Str
init_line = codes "A new thread begins working." ++ newline

unfoldable pub read_line : Str → Str → Option (List Str) → Str
read_line table key fields = codes "READ " ++ table ++ codes " " ++ key ++ fields_part fields

unfoldable pub scan_line : Str → Str → ℤ → Option (List Str) → Str
scan_line table key len fields =
    codes "SCAN " ++ table ++ codes " " ++ key ++ codes " " ++ int_text len ++ fields_part fields

unfoldable pub update_line : Str → Str → List KvPair → Str
update_line table key values = codes "UPDATE " ++ table ++ codes " " ++ key ++ values_part values

unfoldable pub insert_line : Str → Str → List KvPair → Str
insert_line table key values = codes "INSERT " ++ table ++ codes " " ++ key ++ values_part values

unfoldable pub delete_line : Str → Str → Str
delete_line table key = codes "DELETE " ++ table ++ codes " " ++ key ++ newline

-- The operations that the client uses.
abbrev pub basic_database : Database
basic_database = record {
  Db = Str;
  read_record =
      λ out table key fields result. returned (pos 0, result, out ++ read_line table key fields);
  scan_records = λ out table key len fields result.
      returned (pos 0, result, out ++ scan_line table key len fields);
  update_record = λ out table key values. returned (pos 0, out ++ update_line table key values);
  insert_record = λ out table key values. returned (pos 0, out ++ insert_line table key values);
  record_time = λ out kind time. out;
  init_thread = λ out. out ++ init_line;
  close_thread = λ out. out;
  latency_hiccup = λ out iops. out;
}

unfoldable pub remove : Str → Str → Str → ℤ × Str
remove out table key = (pos 0, out ++ delete_line table key)
