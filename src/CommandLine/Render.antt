-- ===== src/CommandLine/Render.antt =====
-- ParseCommandLine of ycsbc.cc on a command line of options with their values.
use ycsb_c_cloud.Base.{
  ◌≡◌, refl, Bool, true, false, Option, none, some, Str, List, [], ◌∷◌, codes, str_eq, ◌∙◌,
}
use ycsb_c_cloud.Properties.{Properties, set_property, load}
use ycsb_c_cloud.CommandLine.{
  sets, loads, flag_of, Parse, parsed, terminated, str_start_with, parse_loop, parse_command_line,
}

-- The options that set a property.
pub data Setting : Type 0 where
  threads db host port slaves dbpath load_first run dboption dbstatistics dbwaitforbalance : Setting

abbrev pub option_of : Setting → Str
option_of threads = codes "-threads"
option_of db = codes "-db"
option_of host = codes "-host"
option_of port = codes "-port"
option_of slaves = codes "-slaves"
option_of dbpath = codes "-dbpath"
option_of load_first = codes "-load"
option_of run = codes "-run"
option_of dboption = codes "-dboption"
option_of dbstatistics = codes "-dbstatistics"
option_of dbwaitforbalance = codes "-dbwaitforbalance"

abbrev pub key_of : Setting → Str
key_of threads = codes "threadcount"
key_of db = codes "dbname"
key_of host = codes "host"
key_of port = codes "port"
key_of slaves = codes "slaves"
key_of dbpath = codes "dbpath"
key_of load_first = codes "load"
key_of run = codes "run"
key_of dboption = codes "dboption"
key_of dbstatistics = codes "dbstatistics"
key_of dbwaitforbalance = codes "dbwaitforbalance"

pub data Argument : Type 0 where
  setting : Setting → Str → Argument
  file : Str → Argument

abbrev pub render : List Argument → List Str
render [] = []
render (setting s value ∷ rest) = option_of s ∷ value ∷ render rest
render (file path ∷ rest) = codes "-P" ∷ path ∷ render rest

-- What the arguments say, one after the other; a file that does not open ends the process.
abbrev pub effect : (Str → Option Str) → List Argument → Str → Properties → Parse
effect files [] filename props = parsed filename props
effect files (setting s value ∷ rest) filename props =
    effect files rest filename (set_property props (key_of s) value)
effect files (file path ∷ rest) filename props = elim (load props (files path)) [
  | none ↦ terminated
  | some props' ↦ effect files rest path props'
]

flag_of-option : (s : Setting) → flag_of (option_of s) ≡ sets (key_of s)
unfolding flag_of str_eq
flag_of-option threads = refl
flag_of-option db = refl
flag_of-option host = refl
flag_of-option port = refl
flag_of-option slaves = refl
flag_of-option dbpath = refl
flag_of-option load_first = refl
flag_of-option run = refl
flag_of-option dboption = refl
flag_of-option dbstatistics = refl
flag_of-option dbwaitforbalance = refl

flag_of-file : flag_of (codes "-P") ≡ loads
unfolding flag_of str_eq
flag_of-file = refl

option-dash : (s : Setting) → str_start_with (option_of s) (codes "-") ≡ true
unfolding str_start_with
option-dash threads = refl
option-dash db = refl
option-dash host = refl
option-dash port = refl
option-dash slaves = refl
option-dash dbpath = refl
option-dash load_first = refl
option-dash run = refl
option-dash dboption = refl
option-dash dbstatistics = refl
option-dash dbwaitforbalance = refl

parse_loop-setting :
    (files : Str → Option Str) (first : Bool) (s : Setting) (value : Str) (args : List Str)
    (filename : Str) (props : Properties)
    → parse_loop files first (option_of s ∷ value ∷ args) filename props
      ≡ parse_loop files false args filename (set_property props (key_of s) value)
unfolding parse_loop
parse_loop-setting files first s value args filename props =
    rw (option-dash s, flag_of-option s) refl

parse_loop-file :
    (files : Str → Option Str) (first : Bool) (path : Str) (args : List Str) (filename : Str)
    (props : Properties)
    → parse_loop files first (codes "-P" ∷ path ∷ args) filename props
      ≡ elim (load props (files path)) [
        | none ↦ terminated
        | some props' ↦ parse_loop files false args path props'
      ]
unfolding parse_loop str_start_with
parse_loop-file files first path args filename props = rw (flag_of-file) refl

loaded-alike :
    (o : Option Properties) (f g : Properties → Parse)
    → ((p : Properties) → f p ≡ g p)
    → elim o [ none ↦ terminated | some p ↦ f p ] ≡ elim o [ none ↦ terminated | some p ↦ g p ]
loaded-alike none f g same = refl
loaded-alike (some p) f g same = same p

parse_loop-render :
    (files : Str → Option Str) (arguments : List Argument) (filename : Str) (props : Properties)
    → parse_loop files false (render arguments) filename props
      ≡ effect files arguments filename props
unfolding parse_loop
parse_loop-render files [] filename props = refl
parse_loop-render files (setting s value ∷ rest) filename props =
    rw (parse_loop-setting files false s value (render rest) filename props)
      (parse_loop-render files rest filename (set_property props (key_of s) value))
parse_loop-render files (file path ∷ rest) filename props =
    parse_loop-file files false path (render rest) filename props
    ∙ loaded-alike (load props (files path)) (λ p. parse_loop files false (render rest) path p)
        (λ p. effect files rest path p) (λ p. parse_loop-render files rest path p)

-- A command line that has at least one option, each followed by its value, is parsed to what its
-- options say from left to right: a setting replaces the property of its key, -P loads a file and is
-- the file name returned, and the process is terminated at the first file that does not open.
pub parse_command_line-render :
    (files : Str → Option Str) (argument : Argument) (arguments : List Argument)
    (props : Properties)
    → parse_command_line files (render (argument ∷ arguments)) props
      ≡ effect files (argument ∷ arguments) [] props
unfolding parse_command_line
parse_command_line-render files (setting s value) rest props =
    rw (parse_loop-setting files true s value (render rest) [] props)
      (parse_loop-render files rest [] (set_property props (key_of s) value))
parse_command_line-render files (file path) rest props =
    parse_loop-file files true path (render rest) [] props
    ∙ loaded-alike (load props (files path)) (λ p. parse_loop files false (render rest) path p)
        (λ p. effect files rest path p) (λ p. parse_loop-render files rest path p)
