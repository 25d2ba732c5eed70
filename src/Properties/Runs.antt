-- ===== src/Properties/Runs.antt =====
-- Runs of the properties at concrete inputs.
use ycsb_c_cloud.Base.{◌≡◌, refl, ◌∷◌, [], some, true, codes, ◌++◌, str_eq}
use ycsb_c_cloud.Properties.{
  Properties, load, set_property, is_space, str_lt, skip_spaces, trim, split_at_equals, load_line,
  load_lines, lines_of, to_lower, str_to_bool, debug_string,
}
use ycsb_c_cloud.Properties.Loading.{load-write, write, set_all, IsEntry}

abbrev two_threads : Properties
two_threads = (codes "p", codes "4") ∷ []

two_threads-IsEntry : IsEntry (codes "p", codes "4")
unfolding trim is_space skip_spaces
two_threads-IsEntry = record {
  key_plain = (refl, _);
  key_line = (refl, _);
  key_hash = refl;
  key_trim = refl;
  value_line = (refl, _);
  value_trim = refl;
}

load-write_example : load [] (some (write two_threads)) ≡ some (set_all [] two_threads)
load-write_example = load-write [] two_threads (two_threads-IsEntry, _)

-- A comment, a line with spaces around its '=', a line without one, and the last line.
load_file :
    load [] (
      some
        (codes "#c=1" ++ (10 ∷ (codes " b = 2 " ++ (10 ∷ (codes "none" ++ (10 ∷ codes "a=1")))))))
    ≡ some ((codes "a", codes "1") ∷ (codes "b", codes "2") ∷ [])
unfolding load load_lines lines_of load_line split_at_equals trim is_space skip_spaces set_property
    str_lt str_eq
load_file = refl

print_file : debug_string two_threads ≡ codes "p:4" ++ (10 ∷ [])
unfolding debug_string
print_file = refl

bool_of_name : str_to_bool (codes "True") ≡ some true
unfolding str_to_bool to_lower str_eq
bool_of_name = refl
