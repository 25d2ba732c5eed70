-- ===== src/CommandLine/Keys.antt =====
-- The key that CreateDB of db/db_factory.cc reads by `operator[]`.
use ycsb_c_cloud.Base.{
  ◌≡◌, ◌≢◌, refl, Bool, true, false, Option, none, some, Str, List, [], ◌∷◌, codes, str_eq,
  str_eq_refl, if◌then◌else◌, Bool-cases, inl, inr,
}
use mathlib.Core.Path.{subst}
use ycsb_c_cloud.Properties.{
  Properties, set_property, find, load, load_line, load_lines, lines_of, split_at_equals,
  starts_with_hash, trim,
}
use ycsb_c_cloud.Properties.Lookup.{find-set_property}
use ycsb_c_cloud.CommandLine.{
  Flag, sets, loads, unknown_flag, flag_of, Parse, parsed, usage, terminated, unknown,
  str_start_with, parse_loop, without_value, parse_command_line, init_properties, Created,
  out_of_range, create_db,
}

abbrev Has : Str → Properties → Type 0
Has key p = (value : Str) × (find p key ≡ some value)

set_property-Has : (key k v : Str) (p : Properties) → Has key p → Has key (set_property p k v)
set_property-Has key k v p (value, h) = elim (Bool-cases (str_eq k key)) [
  | inl same ↦ (v, rw (find-set_property, same) refl)
  | inr other ↦ (value, rw (find-set_property, other) h)
]

set_property-Has_key : (key v : Str) (p : Properties) → Has key (set_property p key v)
set_property-Has_key key v p = (v, rw (find-set_property, str_eq_refl key) refl)

line-Has :
    (key : Str) (p : Properties) (b : Bool) (parts : Option (Str × Str))
    → Has key p
    → Has key
        (if b then p else elim parts [ none ↦ p | some (k, v) ↦ set_property p (trim k) (trim v) ])
line-Has key p true parts h = h
line-Has key p false none h = h
line-Has key p false (some (k, v)) h = set_property-Has key (trim k) (trim v) p h

load_lines-Has :
    (key : Str) (p : Properties) (lines : List Str) → Has key p → Has key (load_lines p lines)
unfolding load_lines load_line
load_lines-Has key p [] h = h
load_lines-Has key p (line ∷ lines) h =
    load_lines-Has key (load_line p line) lines
      (line-Has key p (starts_with_hash line) (split_at_equals line) h)

-- A parse that returns properties returns some that have the key.
abbrev Returns : (Properties → Type 0) → Parse → Type 0
Returns P (parsed filename p) = P p
Returns P _ = Unit

if-Returns :
    (P : Properties → Type 0) (b : Bool) (x y : Parse)
    → Returns P x
    → Returns P y
    → Returns P (if b then x else y)
if-Returns P true x y hx hy = hx
if-Returns P false x y hx hy = hy

without_value-Returns :
    (P : Properties → Type 0) (arg : Str) (flag : Flag) → Returns P (without_value arg flag)
without_value-Returns P arg (sets key) = _
without_value-Returns P arg loads = _
without_value-Returns P arg unknown_flag = _

loaded-Returns :
    (P : Properties → Type 0) (o : Option Properties) (f : Properties → Parse)
    → ((p : Properties) → o ≡ some p → Returns P (f p))
    → Returns P (elim o [ none ↦ terminated | some p ↦ f p ])
loaded-Returns P none f h = _
loaded-Returns P (some p) f h = h p refl

load-Has :
    (key : Str) (p p' : Properties) (text : Option Str)
    → load p text ≡ some p'
    → Has key p
    → Has key p'
unfolding load
load-Has key p p' none same h = cc
load-Has key p p' (some text) same h =
    let loaded : load_lines p (lines_of text) ≡ p' = cc in
    rw (← loaded) (load_lines-Has key p (lines_of text) h)

flag-Returns :
    (P : Properties → Type 0) (arg : Str) (flag : Flag) (f : Str → Parse) (loaded : Parse)
    → ((key : Str) → Returns P (f key))
    → Returns P loaded
    → Returns P (elim flag [ sets key ↦ f key | loads ↦ loaded | unknown_flag ↦ unknown arg ])
flag-Returns P arg (sets key) f loaded hf hl = hf key
flag-Returns P arg loads f loaded hf hl = hl
flag-Returns P arg unknown_flag f loaded hf hl = _

parse_loop-Returns :
    (key : Str) (files : Str → Option Str) (first : Bool) (args : List Str) (filename : Str)
    (props : Properties)
    → Has key props
    → Returns (λ p. Has key p) (parse_loop files first args filename props)
unfolding parse_loop
parse_loop-Returns key files first [] filename props h =
    if-Returns (λ p. Has key p) first usage (parsed filename props) _ h
parse_loop-Returns key files first (arg ∷ []) filename props h =
    if-Returns (λ p. Has key p) (str_start_with arg (codes "-")) (without_value arg (flag_of arg))
      usage (without_value-Returns (λ p. Has key p) arg (flag_of arg)) _
parse_loop-Returns key files first (arg ∷ value ∷ args) filename props h =
    if-Returns (λ p. Has key p) (str_start_with arg (codes "-")) _ usage
      (flag-Returns (λ p. Has key p) arg (flag_of arg)
        (λ k. parse_loop files false args filename (set_property props k value)) _
        (λ k.
          parse_loop-Returns key files false args filename (set_property props k value)
            (set_property-Has key k value props h))
        (loaded-Returns (λ p. Has key p) (load props (files value))
          (λ p. parse_loop files false args value p)
          (λ p opened.
            parse_loop-Returns key files false args value p
              (load-Has key props p (files value) opened h))))
      _

init_properties-Has : (p : Properties) → Has (codes "dbname") (init_properties p)
unfolding init_properties
init_properties-Has p = set_property-Has (codes "dbname") _ _ _ (
    set_property-Has (codes "dbname") _ _ _ (
      set_property-Has (codes "dbname") _ _ _ (
        set_property-Has (codes "dbname") _ _ _ (
          set_property-Has (codes "dbname") _ _ _ (
            set_property-Has (codes "dbname") _ _ _ (
              set_property-Has (codes "dbname") _ _ _
                (set_property-Has_key (codes "dbname") _ p)))))))

if-Made :
    (b : Bool) (x y : Created)
    → x ≢ out_of_range
    → y ≢ out_of_range
    → (if b then x else y) ≢ out_of_range
if-Made true x y hx hy = hx
if-Made false x y hx hy = hy

create_db-finds : (p : Properties) → Has (codes "dbname") p → create_db p ≢ out_of_range
unfolding create_db
create_db-finds p (name, found) =
    rw (create_db, found)
      (if-Made (str_eq name (codes "basic")) _ _ (λ h. cc)
        (if-Made (str_eq name (codes "rocksdb")) _ _ (λ h. cc)
          (if-Made (str_eq name (codes "rocksdb-cloud")) _ _ (λ h. cc) (λ h. cc))))

Has-parsed :
    (parse : Parse) (filename : Str) (p : Properties)
    → parse ≡ parsed filename p
    → Returns (λ p. Has (codes "dbname") p) parse
    → Has (codes "dbname") p
Has-parsed parse filename p same has =
    subst (λ parse. Returns (λ p. Has (codes "dbname") p) parse) same has

-- Whatever the command line and the files are: where ParseCommandLine returns, from the properties
-- that Init set, CreateDB finds the name of the database, and its `operator[]` does not throw.
pub create_db-parsed :
    (files : Str → Option Str) (args : List Str) (props : Properties) (filename : Str)
    (p : Properties)
    → parse_command_line files args (init_properties props) ≡ parsed filename p
    → create_db p ≢ out_of_range
unfolding parse_command_line
create_db-parsed files args props filename p returned =
    let has =
      parse_loop-Returns (codes "dbname") files true args [] (init_properties props)
        (init_properties-Has props) in
    create_db-finds p
      (Has-parsed (parse_loop files true args [] (init_properties props)) filename p returned has)
