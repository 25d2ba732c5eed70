-- ===== src/DbSetUp/Runs.antt =====
-- Runs of the constructors at concrete inputs.
use ycsb_c_cloud.Base.{◌≡◌, refl, true, false, some, [], ◌∷◌, codes, str_eq}
use ycsb_c_cloud.Properties.{Properties, find, skip_spaces, is_space}
use ycsb_c_cloud.Numbers.{pos, stoi, extract, read_signed, read_number}
use ycsb_c_cloud.DbSetUp.{HdrInit, HdrInits, no_error, init_failed, check_histograms, undefined}

abbrev fine : HdrInit
fine = record { result = pos 0; is_null = false }

abbrev no_memory : HdrInit
no_memory = record { result = pos 12; is_null = true }

abbrev histograms : HdrInit → HdrInits
histograms first = record {
  hdr = first;
  hdr_last_1s = fine;
  hdr_get = fine;
  hdr_put = fine;
  hdr_update = fine;
  hdr_scan = fine;
  hdr_rmw = fine;
  counts_len = pos 23552;
}

-- The message about the failure reads through the pointer that is NULL.
null_histogram : check_histograms (histograms no_memory) ≡ undefined
unfolding check_histograms init_failed no_error
null_histogram = refl

all_there : init_failed (histograms fine) ≡ false
unfolding init_failed no_error
all_there = refl

abbrev given : Properties
given = (codes "dboption", codes "1") ∷ []

given_found : find given (codes "dboption") ≡ some (codes "1")
unfolding find str_eq
given_found = refl

given_read : stoi (codes "1") ≡ some (pos 1)
unfolding stoi extract read_signed skip_spaces is_space read_number
given_read = refl
