-- ===== src/BasicDb/Lines.antt =====
-- The lines that BasicDB prints.
use ycsb_c_cloud.Base.{
  ◌≡◌, refl, sym, ap, ◌∙◌, true, Option, none, some, Str, List, [], ◌∷◌, ◌++◌, codes, map, All,
  append_assoc, append-nil,
}
use ycsb_c_cloud.Values.{KvPair}
use ycsb_c_cloud.Numbers.{ℤ, pos}
use ycsb_c_cloud.Properties.Loading.{Lacks}
use ycsb_c_cloud.Workload.{Run, returned, ◌>>=◌}
use ycsb_c_cloud.Proc.{getlines}
use ycsb_c_cloud.Proc.Disk.{getlines-line}
use ycsb_c_cloud.BasicDb.Newlines.{
  AreNames, ArePairs, lacks_newline, lacks_newline-Lacks, int_text-Lacks, sentence, sentence-Lacks,
  pair_words, pair_words-Lacks, field_list-sentence, value_list-sentence,
}
use ycsb_c_cloud.BasicDb.{
  newline, int_text, fields_part, values_part, read_line, scan_line, update_line, insert_line,
  delete_line, init_line, basic_database, remove,
}

-- A call of the database, of which `begins` is Init.
pub data Request : Type 0 where
  begins : Request
  reads : Str → Str → Option (List Str) → Request
  scans : Str → Str → ℤ → Option (List Str) → Request
  updates inserts : Str → Str → List KvPair → Request
  removes : Str → Str → Request

abbrev pub answer : Str → Request → Run (ℤ × Str)
answer out begins = returned (pos 0, basic_database.init_thread out)
answer out (reads table key fields) = do
  (status, result, out') ← basic_database.read_record out table key fields []
  returned (status, out')
answer out (scans table key len fields) = do
  (status, result, out') ← basic_database.scan_records out table key len fields []
  returned (status, out')
answer out (updates table key values) = basic_database.update_record out table key values
answer out (inserts table key values) = basic_database.insert_record out table key values
answer out (removes table key) = returned (remove out table key)

-- The statuses of a sequence of calls, and what has been printed at the end.
abbrev pub answer_all : Str → List Request → Run (List ℤ × Str)
answer_all out [] = returned ([], out)
answer_all out (request ∷ requests) = do
  (status, out') ← answer out request
  (statuses, out'') ← answer_all out' requests
  returned (status ∷ statuses, out'')

-- No argument of a call holds a newline.
abbrev pub IsPlain : Request → Type 0
IsPlain begins = Unit
IsPlain (reads table key fields) = Lacks 10 table × Lacks 10 key × AreNames fields
IsPlain (scans table key len fields) = Lacks 10 table × Lacks 10 key × AreNames fields
IsPlain (updates table key values) = Lacks 10 table × Lacks 10 key × ArePairs values
IsPlain (inserts table key values) = Lacks 10 table × Lacks 10 key × ArePairs values
IsPlain (removes table key) = Lacks 10 table × Lacks 10 key

-- What a call prints.
text_of : Request → Str
text_of begins = init_line
text_of (reads table key fields) = read_line table key fields
text_of (scans table key len fields) = scan_line table key len fields
text_of (updates table key values) = update_line table key values
text_of (inserts table key values) = insert_line table key values
text_of (removes table key) = delete_line table key

abbrev all_fields : List Str
all_fields = codes "<" ∷ codes "all" ∷ codes "fields" ∷ []

abbrev named : Option (List Str) → List Str
named none = all_fields
named (some fields) = codes "[" ∷ fields

abbrev closing : Option (List Str) → Str
closing none = codes ">"
closing (some fields) = codes "]"

-- The line of a call: its words, with a space between two.
abbrev pub line_of : Request → Str
line_of begins = codes "A new thread begins working."
line_of (reads table key fields) =
    sentence (codes "READ" ∷ table ∷ key ∷ named fields) (closing fields)
line_of (scans table key len fields) =
    sentence (codes "SCAN" ∷ table ∷ key ∷ int_text len ∷ named fields) (closing fields)
line_of (updates table key values) =
    sentence (codes "UPDATE" ∷ table ∷ key ∷ codes "[" ∷ pair_words values) (codes "]")
line_of (inserts table key values) =
    sentence (codes "INSERT" ∷ table ∷ key ∷ codes "[" ∷ pair_words values) (codes "]")
line_of (removes table key) = sentence (codes "DELETE" ∷ table ∷ []) key

fields_part-sentence :
    (before : Str) (fields : Option (List Str))
    → before ++ fields_part fields
      ≡ (before ++ 32 ∷ sentence (named fields) (closing fields)) ++ newline
unfolding fields_part
fields_part-sentence before none = sym (append_assoc before (codes " < all fields >") newline)
fields_part-sentence before (some fields) =
    rw (← field_list-sentence fields (codes "]")) simp (append_assoc)

values_part-sentence :
    (before : Str) (values : List KvPair)
    → before ++ values_part values
      ≡ (before ++ 32 ∷ sentence (codes "[" ∷ pair_words values) (codes "]")) ++ newline
unfolding values_part
values_part-sentence before values =
    rw (← value_list-sentence values (codes "]")) simp (append_assoc)

text_of-line : (request : Request) → text_of request ≡ line_of request ++ newline
unfolding text_of init_line read_line scan_line update_line insert_line delete_line
text_of-line begins = refl
text_of-line (reads table key fields) =
    fields_part-sentence (codes "READ " ++ table ++ codes " " ++ key) fields ∙ simp (append_assoc)
text_of-line (scans table key len fields) =
    fields_part-sentence (codes "SCAN " ++ table ++ codes " " ++ key ++ codes " " ++ int_text len)
      fields
    ∙ simp (append_assoc)
text_of-line (updates table key values) =
    values_part-sentence (codes "UPDATE " ++ table ++ codes " " ++ key) values ∙ simp (append_assoc)
text_of-line (inserts table key values) =
    values_part-sentence (codes "INSERT " ++ table ++ codes " " ++ key) values ∙ simp (append_assoc)
text_of-line (removes table key) = simp (append_assoc)

plain : (s : Str) → lacks_newline s ≡ true → Lacks 10 s
plain s h = lacks_newline-Lacks s h

named-Lacks :
    (fields : Option (List Str))
    → AreNames fields
    → All (λ w. Lacks 10 w) (named fields) × Lacks 10 (closing fields)
named-Lacks none h = (
  (plain (codes "<") refl, (plain (codes "all") refl, (plain (codes "fields") refl, tt))),
  plain (codes ">") refl,
)
named-Lacks (some fields) h = ((plain (codes "[") refl, h), plain (codes "]") refl)

line_of-Lacks : (request : Request) → IsPlain request → Lacks 10 (line_of request)
line_of-Lacks begins h = plain (codes "A new thread begins working.") refl
line_of-Lacks (reads table key fields) (ht, hk, hf) =
    let (hn, hc) = named-Lacks fields hf in
    sentence-Lacks (codes "READ" ∷ table ∷ key ∷ named fields) (closing fields)
      (plain (codes "READ") refl, (ht, (hk, hn))) hc
line_of-Lacks (scans table key len fields) (ht, hk, hf) =
    let (hn, hc) = named-Lacks fields hf in
    sentence-Lacks (codes "SCAN" ∷ table ∷ key ∷ int_text len ∷ named fields) (closing fields)
      (plain (codes "SCAN") refl, (ht, (hk, (int_text-Lacks len, hn)))) hc
line_of-Lacks (updates table key values) (ht, hk, hv) =
    sentence-Lacks (codes "UPDATE" ∷ table ∷ key ∷ codes "[" ∷ pair_words values) (codes "]")
      (
        plain (codes "UPDATE") refl,
        (ht, (hk, (plain (codes "[") refl, pair_words-Lacks values hv))),
      )
      (plain (codes "]") refl)
line_of-Lacks (inserts table key values) (ht, hk, hv) =
    sentence-Lacks (codes "INSERT" ∷ table ∷ key ∷ codes "[" ∷ pair_words values) (codes "]")
      (
        plain (codes "INSERT") refl,
        (ht, (hk, (plain (codes "[") refl, pair_words-Lacks values hv))),
      )
      (plain (codes "]") refl)
line_of-Lacks (removes table key) (ht, hk) =
    sentence-Lacks (codes "DELETE" ∷ table ∷ []) key (plain (codes "DELETE") refl, (ht, tt)) hk

texts : List Request → Str
texts [] = []
texts (request ∷ requests) = text_of request ++ texts requests

answer-text :
    (out : Str) (request : Request) → answer out request ≡ returned (pos 0, out ++ text_of request)
unfolding text_of remove
answer-text out begins = refl
answer-text out (reads table key fields) = refl
answer-text out (scans table key len fields) = refl
answer-text out (updates table key values) = refl
answer-text out (inserts table key values) = refl
answer-text out (removes table key) = refl

answer_all-texts :
    (requests : List Request) (out : Str)
    → answer_all out requests ≡ returned (map (λ request. pos 0) requests, out ++ texts requests)
unfolding texts
answer_all-texts [] out = ap (λ t. returned ([], t)) (sym (append-nil out))
answer_all-texts (request ∷ requests) out =
    rw
      (
        answer-text out request,
        answer_all-texts requests (out ++ text_of request),
        append_assoc out (text_of request) (texts requests),
      )
      refl

texts-lines :
    (requests : List Request)
    → All IsPlain requests
    → getlines (texts requests) ≡ map line_of requests
unfolding texts getlines
texts-lines [] h = refl
texts-lines (request ∷ requests) (h, hs) =
    rw
      (
        text_of-line request,
        append_assoc (line_of request) newline (texts requests),
        getlines-line (line_of request) (texts requests) (line_of-Lacks request h),
        texts-lines requests hs,
      )
      refl

-- Where no argument of the calls holds a newline, each of a sequence of calls of BasicDB returns kOK,
-- and the lines that are printed are those of the calls, in their order: the operation, the table, the
-- key and what else the call is given, with a space between two words.
pub answer_all-lines :
    (requests : List Request)
    → All IsPlain requests
    → (out : Str) × (answer_all [] requests ≡ returned (map (λ request. pos 0) requests, out))
      × (getlines out ≡ map line_of requests)
answer_all-lines requests h = (texts requests, answer_all-texts requests [], texts-lines requests h)
