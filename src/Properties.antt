-- ===== src/Properties.antt =====
-- core/properties.h, with Trim and StrToBool of core/utils.h.
pub mod Lookup
pub mod Loading
mod Runs
use ycsb_c_cloud.Base.{
  ℕ, ◌+◌, ◌≤◌, Bool, true, false, ◌&&◌, ◌||◌, not, Option, none, some, Str, List, [], ◌∷◌, ◌++◌,
  codes, str_eq, ltb, leb, ◌==◌, if◌then◌else◌, map,
}
use mathlib.Core.List.{reverse}

-- `operator<` of std::string.
unfoldable pub str_lt : Str → Str → Bool
str_lt s [] = false
str_lt [] (c ∷ t) = true
str_lt (b ∷ s) (c ∷ t) =
    let rest = str_lt s t in if ltb b c then true else if ltb c b then false else rest

-- `std::map<std::string, std::string>`: its entries, in the order of the keys.
abbrev pub Properties : Type 0
Properties = List (Str × Str)

-- `properties_[key] = value`
unfoldable pub set_property : Properties → Str → Str → Properties
set_property [] key value = (key, value) ∷ []
set_property ((k, v) ∷ p) key value =
    if str_eq k key
    then (key, value) ∷ p
    else if str_lt key k
    then (key, value) ∷ (k, v) ∷ p
    else (k, v) ∷ set_property p key value

-- `properties_.find(key)`, which is `operator[]` too, where that does not throw.
unfoldable pub find : Properties → Str → Option Str
find [] key = none
find ((k, v) ∷ p) key = if str_eq k key then some v else find p key

unfoldable pub get_property : Properties → Str → Str → Str
get_property p key default_value = elim (find p key) [ none ↦ default_value | some value ↦ value ]

unfoldable pub debug_string : Properties → Str
debug_string [] = []
debug_string ((k, v) ∷ p) = k ++ (codes ":" ++ (v ++ (10 ∷ debug_string p)))

-- `std::isspace` in the C locale.
unfoldable pub is_space : ℕ → Bool
is_space c = c == 32 || (leb 9 c && leb c 13)

unfoldable pub skip_spaces : Str → Str
skip_spaces [] = []
skip_spaces (c ∷ s) = if is_space c then skip_spaces s else c ∷ s

-- The part between the first and the last byte that is no space.
unfoldable pub trim : Str → Str
trim s = reverse (skip_spaces (reverse (skip_spaces s)))

unfoldable pub to_lower : ℕ → ℕ
to_lower c = if leb b'A' c && leb c b'Z' then c + 32 else c

-- `none` is the exception "Invalid bool string".
unfoldable pub str_to_bool : Str → Option Bool
str_to_bool str =
    let s = map to_lower str in
    if str_eq s (codes "true") || str_eq s (codes "1")
    then some true
    else if str_eq s (codes "false") || str_eq s (codes "0")
    then some false
    else none

-- The parts of a line before and behind its first '=', if it has one.
unfoldable pub split_at_equals : Str → Option (Str × Str)
split_at_equals [] = none
split_at_equals (c ∷ s) =
    let later : Option (Str × Str) = elim (split_at_equals s) [
      | none ↦ none
      | some (k, v) ↦ some (c ∷ k, v)
    ] in
    if c == b'=' then some ([], s) else later

abbrev pub starts_with_hash : Str → Bool
starts_with_hash [] = false
starts_with_hash (c ∷ s) = c == b'#'

-- One round of the loop of Load.
unfoldable pub load_line : Properties → Str → Properties
load_line p line =
    if starts_with_hash line
    then p
    else elim (split_at_equals line) [ none ↦ p | some (k, v) ↦ set_property p (trim k) (trim v) ]

unfoldable pub load_lines : Properties → List Str → Properties
load_lines p [] = p
load_lines p (line ∷ lines) = load_lines (load_line p line) lines

abbrev pub extend : ℕ → List Str → List Str
extend c [] = (c ∷ []) ∷ []
extend c (line ∷ lines) = (c ∷ line) ∷ lines

-- What `std::getline` returns until the end of the file: the parts between newlines. The part
-- behind the last newline is read too, as an empty line if nothing is there.
unfoldable pub lines_of : Str → List Str
lines_of [] = [] ∷ []
lines_of (c ∷ s) = let rest = lines_of s in if c == 10 then [] ∷ rest else extend c rest

-- `none` for the input is a file that is not open, and `none` for the result the exception.
unfoldable pub load : Properties → Option Str → Option Properties
load p none = none
load p (some text) = some (load_lines p (lines_of text))
