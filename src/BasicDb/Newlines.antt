-- ===== src/BasicDb/Newlines.antt =====
-- Newlines in what BasicDB prints.
use ycsb_c_cloud.Base.{
  ◌+◌, ◌≡◌, refl, sym, ap, ◌∙◌, Bool, true, false, Option, none, some, Str, List, [], ◌∷◌, ◌++◌,
  codes, ◌==◌, All, All-append, append_assoc, if◌then◌else◌,
}
use ycsb_c_cloud.Values.{KvPair}
use ycsb_c_cloud.Numbers.{ℤ, pos, negsuc}
use ycsb_c_cloud.Numbers.Extract.{to_string-Lacks}
use ycsb_c_cloud.Properties.Loading.{Lacks}
use ycsb_c_cloud.BasicDb.{int_text, field_list, value_list}

abbrev pub AreNames : Option (List Str) → Type 0
AreNames none = Unit
AreNames (some fields) = All (λ f. Lacks 10 f) fields

abbrev pub ArePairs : List KvPair → Type 0
ArePairs values = All (λ pair. Lacks 10 pair.0 × Lacks 10 pair.1) values

abbrev pub lacks_newline : Str → Bool
lacks_newline [] = true
lacks_newline (c ∷ s) = let rest = lacks_newline s in if c == 10 then false else rest

if-false : (b rest : Bool) → (if b then false else rest) ≡ true → (b ≡ false) × (rest ≡ true)
if-false true rest h = (sym h, absurd (let e : ⊥ = cc in e))
if-false false rest h = (refl, h)

pub joined : (s t : Str) → Lacks 10 s → Lacks 10 t → Lacks 10 (s ++ t)
joined s t h ht = All-append _ s t h ht

pub lacks_newline-Lacks : (s : Str) → lacks_newline s ≡ true → Lacks 10 s
lacks_newline-Lacks [] h = tt
lacks_newline-Lacks (c ∷ s) h =
    let (other, rest) = if-false (c == 10) (lacks_newline s) h in
    (other, lacks_newline-Lacks s rest)

pub int_text-Lacks : (n : ℤ) → Lacks 10 (int_text n)
int_text-Lacks (pos n) = to_string-Lacks n
int_text-Lacks (negsuc n) = (refl, to_string-Lacks (n + 1))

-- Words with a space behind each, and a last one.
abbrev pub sentence : List Str → Str → Str
sentence [] last = last
sentence (word ∷ words) last = word ++ 32 ∷ sentence words last

pub sentence-Lacks :
    (words : List Str) (last : Str)
    → All (λ w. Lacks 10 w) words
    → Lacks 10 last
    → Lacks 10 (sentence words last)
sentence-Lacks [] last h hl = hl
sentence-Lacks (word ∷ words) last (h, hs) hl =
    joined word _ h (refl, sentence-Lacks words last hs hl)

-- How a pair is written.
abbrev pub pair_words : List KvPair → List Str
pair_words [] = []
pair_words ((name, value) ∷ values) = (name ++ 61 ∷ value) ∷ pair_words values

pub pair_words-Lacks :
    (values : List KvPair) → ArePairs values → All (λ w. Lacks 10 w) (pair_words values)
pair_words-Lacks [] h = tt
pair_words-Lacks ((name, value) ∷ values) ((h, hv), hs) =
    (joined name _ h (refl, hv), pair_words-Lacks values hs)

pub field_list-sentence :
    (fields : List Str) (last : Str) → field_list fields ++ last ≡ sentence fields last
unfolding field_list
field_list-sentence [] last = refl
field_list-sentence (f ∷ fields) last =
    append_assoc (f ++ codes " ") (field_list fields) last
    ∙ append_assoc f (codes " ") (field_list fields ++ last)
    ∙ ap (λ t. f ++ 32 ∷ t) (field_list-sentence fields last)

pub value_list-sentence :
    (values : List KvPair) (last : Str)
    → value_list values ++ last ≡ sentence (pair_words values) last
unfolding value_list
value_list-sentence [] last = refl
value_list-sentence ((name, value) ∷ values) last =
    simp (append_assoc, value_list-sentence values last)
