-- ===== src/CommandLine/Runs.antt =====
-- Runs of the command line at concrete inputs.
use ycsb_c_cloud.Base.{
  ◌≡◌, ◌≢◌, refl, Option, none, some, Str, [], ◌∷◌, codes, str_eq, if◌then◌else◌,
}
use ycsb_c_cloud.Properties.{set_property, load}
use ycsb_c_cloud.CommandLine.{
  parsed, usage, terminated, parse_loop, parse_command_line, init_properties, create_db,
  out_of_range, flag_of, str_start_with, unknown,
}
use ycsb_c_cloud.CommandLine.Render.{setting, file, db, render, effect, parse_command_line-render}
use ycsb_c_cloud.CommandLine.Keys.{create_db-parsed}

-- One file opens.
abbrev files : Str → Option Str
files name = if str_eq name (codes "a") then some (codes "recordcount=5") else none

parse_command_line-render_example :
    parse_command_line files (render (setting db (codes "basic") ∷ file (codes "a") ∷ [])) []
    ≡ effect files (setting db (codes "basic") ∷ file (codes "a") ∷ []) [] []
parse_command_line-render_example =
    parse_command_line-render files (setting db (codes "basic")) (file (codes "a") ∷ []) []

parse_db :
    parse_command_line files (codes "-db" ∷ codes "none" ∷ []) (init_properties [])
    ≡ parsed [] (set_property (init_properties []) (codes "dbname") (codes "none"))
unfolding parse_command_line parse_loop flag_of str_start_with str_eq
parse_db = refl

create_db-parsed_example :
    create_db (set_property (init_properties []) (codes "dbname") (codes "none")) ≢ out_of_range
create_db-parsed_example =
    create_db-parsed files (codes "-db" ∷ codes "none" ∷ []) [] []
      (set_property (init_properties []) (codes "dbname") (codes "none")) parse_db

missing_file : parse_command_line files (codes "-P" ∷ codes "b" ∷ []) [] ≡ terminated
unfolding parse_command_line parse_loop flag_of str_start_with str_eq load
missing_file = refl

no_argument : parse_command_line files [] [] ≡ usage
unfolding parse_command_line parse_loop
no_argument = refl

unknown_option : parse_command_line files (codes "-x" ∷ []) [] ≡ unknown (codes "-x")
unfolding parse_command_line parse_loop flag_of str_start_with str_eq
unknown_option = refl
