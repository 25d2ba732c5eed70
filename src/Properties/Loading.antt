-- ===== src/Properties/Loading.antt =====
-- Load of core/properties.h, on files that are written entry by entry.
use ycsb_c_cloud.Base.{
  ℕ, ◌≡◌, refl, ap, false, some, Str, List, [], ◌∷◌, ◌++◌, ◌==◌, All, append_assoc,
}
use ycsb_c_cloud.Properties.{
  Properties, set_property, trim, split_at_equals, starts_with_hash, load_line, load_lines,
  lines_of, load,
}

-- A key has no '=' and no newline and does not begin with '#'; a value has no newline; neither
-- begins or ends with a space.
abbrev pub Lacks : ℕ → Str → Type 0
Lacks c s = All (λ b. (b == c) ≡ false) s

pub record IsEntry (entry : Str × Str) : Type 0 where
  pub key_plain : Lacks b'=' entry.0
  pub key_line : Lacks 10 entry.0
  pub key_hash : starts_with_hash entry.0 ≡ false
  pub key_trim : trim entry.0 ≡ entry.0
  pub value_line : Lacks 10 entry.1
  pub value_trim : trim entry.1 ≡ entry.1

-- `key=value` on a line of its own for each entry.
abbrev pub write : List (Str × Str) → Str
write [] = []
write ((k, v) ∷ entries) = k ++ (b'=' ∷ (v ++ (10 ∷ write entries)))

abbrev pub set_all : Properties → List (Str × Str) → Properties
set_all p [] = p
set_all p ((k, v) ∷ entries) = set_all (set_property p k v) entries

split-entry : (k v : Str) → Lacks b'=' k → split_at_equals (k ++ (b'=' ∷ v)) ≡ some (k, v)
unfolding split_at_equals
split-entry [] v h = refl
split-entry (c ∷ k) v (h, hs) = rw (h, split-entry k v hs)

lines_of-line : (s rest : Str) → Lacks 10 s → lines_of (s ++ (10 ∷ rest)) ≡ s ∷ lines_of rest
unfolding lines_of
lines_of-line [] rest h = refl
lines_of-line (c ∷ s) rest (h, hs) = rw (h, lines_of-line s rest hs)

hash-entry : (k v : Str) → starts_with_hash k ≡ false → starts_with_hash (k ++ (b'=' ∷ v)) ≡ false
hash-entry [] v h = refl
hash-entry (c ∷ k) v h = h

Lacks-entry : (k v : Str) → Lacks 10 k → Lacks 10 v → Lacks 10 (k ++ (b'=' ∷ v))
Lacks-entry [] v hk hv = (refl, hv)
Lacks-entry (c ∷ k) v (h, hk) hv = (h, Lacks-entry k v hk hv)

load_line-entry :
    (p : Properties) (k v : Str)
    → IsEntry (k, v)
    → load_line p (k ++ (b'=' ∷ v)) ≡ set_property p k v
unfolding load_line
load_line-entry p k v e =
    rw (hash-entry k v e.key_hash, split-entry k v e.key_plain, e.key_trim, e.value_trim)

split_lines :
    (key value rest : Str)
    → Lacks 10 key
    → Lacks 10 value
    → lines_of (key ++ (b'=' ∷ (value ++ (10 ∷ rest)))) ≡ (key ++ (b'=' ∷ value)) ∷ lines_of rest
split_lines key value rest hk hv = rw (
  ← append_assoc key (b'=' ∷ value) (10 ∷ rest),
  lines_of-line (key ++ (b'=' ∷ value)) rest (Lacks-entry key value hk hv),
)

load_lines-end : (p : Properties) → load_lines p (lines_of []) ≡ p
unfolding load_lines lines_of load_line split_at_equals
load_lines-end p = refl

load_lines-write :
    (p : Properties) (entries : List (Str × Str))
    → All IsEntry entries
    → load_lines p (lines_of (write entries)) ≡ set_all p entries
unfolding load_lines
load_lines-write p [] h = load_lines-end p
load_lines-write p ((k, v) ∷ entries) (e, h) = rw (
  split_lines k v (write entries) e.key_line e.value_line,
  load_lines,
  load_line-entry p k v e,
  load_lines-write (set_property p k v) entries h,
)

-- A file of one line `key=value` for each entry, in which no key has '=', begins with '#', or has
-- a newline or outer spaces, and no value has a newline or outer spaces, is loaded without an
-- exception, and sets the entries one after the other.
pub load-write :
    (p : Properties) (entries : List (Str × Str))
    → All IsEntry entries
    → load p (some (write entries)) ≡ some (set_all p entries)
unfolding load
load-write p entries h = ap some (load_lines-write p entries h)
