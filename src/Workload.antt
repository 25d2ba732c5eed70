-- ===== src/Workload.antt =====
-- CoreWorkload of core/core_workload.h and core/core_workload.cc, over the generators.
pub mod Options
pub mod Setup
pub mod Keys
pub mod Choice
pub mod Start
pub mod Fields
pub mod ScanLengths
pub mod Samples
mod Runs
mod Turns
use ycsb_c_cloud.Base.{
  ℕ, zero, suc, ◌+◌, ◌%◌, ◌^◌, Bool, true, false, Option, none, some, Str, List, [], ◌∷◌, ◌++◌,
  codes, ltb, replicate, if◌then◌else◌,
}
use ycsb_c_cloud.Values.{KvPair}
use ycsb_c_cloud.Generators.Doubles.{Doubles}
use ycsb_c_cloud.Generators.Hash.{hash}
use ycsb_c_cloud.Generators.Counter as Counter
use ycsb_c_cloud.Generators.Counter.{CounterGenerator, ConstGenerator, next_const}
use ycsb_c_cloud.Generators.Zipfian as Zipfian
use ycsb_c_cloud.Generators.Zipfian.{ZipfianGenerator}
use ycsb_c_cloud.Generators.Scrambled.{
  ScrambledZipfianGenerator, next_scrambled, SkewedLatestGenerator, next_latest,
}
use ycsb_c_cloud.Generators.Uniform as Uniform
use ycsb_c_cloud.Generators.Uniform.{UniformEngine, UniformGenerator}
use ycsb_c_cloud.Generators.Discrete as Picker
use ycsb_c_cloud.Generators.Discrete.{DiscreteGenerator}
use ycsb_c_cloud.Numbers.{ℤ, rounds_of, to_string}

-- What an operation comes to: it returns, an assertion fails, an exception is thrown, it is not at its
-- end when the model's fuel or its input is spent, it ends the process by exit(0), or it reads past a
-- buffer.
pub data Run {ℓ} (A : Type ℓ) : Type ℓ where
  returned : A → Run A
  failed thrown spinning exited overrun : Run A

infixl 5 ◌>>=◌
abbrev pub ◌>>=◌ {ℓ κ} : {A : Type ℓ} {B : Type κ} → Run A → (A → Run B) → Run B
returned a >>= f = f a
failed >>= f = failed
thrown >>= f = thrown
spinning >>= f = spinning
exited >>= f = exited
overrun >>= f = overrun

abbrev pub asserted {ℓ} : {A : Type ℓ} → Option A → Run A
asserted none = failed
asserted (some a) = returned a

pub data Operation : Type 0 where
  insert read update scan readmodifywrite : Operation

-- The process's sources of random numbers: the engine of `utils::RandomDouble`, and `rand`.
pub record Randoms (d : Doubles) : Type 1 where
  pub Source : Type 0
  pub random_double : Source → d.Double × Source
  pub rand : Source → ℕ × Source

unfoldable pub build_key_name : Bool → ℕ → Str
build_key_name ordered_inserts key_num =
    codes "user" ++ to_string (if ordered_inserts then key_num else hash key_num)

module _ (d : Doubles) (e : UniformEngine) (r : Randoms d) where
  open d use {Double}
  open r use {Source, random_double, rand}

  -- `Generator<uint64_t> *`: the classes that CoreWorkload makes one of.
  pub data Chooser : Type 0 where
    constant : ConstGenerator → Chooser
    uniform : UniformGenerator e → Chooser
    zipfian : ZipfianGenerator d → Chooser
    scrambled : ScrambledZipfianGenerator d → Chooser
    latest : SkewedLatestGenerator d → Chooser

  -- A draw of an object of one of the classes, put back into the union.
  abbrev drawn_as {ℓ} :
      {A : Type ℓ} → (A → Chooser) → Source → Option (ℕ × A) → Run (ℕ × Chooser × Source)
  drawn_as kind s none = failed
  drawn_as kind s (some (value, g)) = returned (value, kind g, s)

  -- `Next()`. The first argument is the counter that SkewedLatestGenerator shares.
  unfoldable pub next_chooser : CounterGenerator → Chooser → Source → Run (ℕ × Chooser × Source)
  next_chooser basis (constant g) s = drawn_as constant s (some (next_const g))
  next_chooser basis (uniform g) s = drawn_as uniform s (some (Uniform.next e g))
  next_chooser basis (zipfian g) s =
      let (u, s') = random_double s in drawn_as zipfian s' (Zipfian.next d g u)
  next_chooser basis (scrambled g) s =
      let (u, s') = random_double s in drawn_as scrambled s' (next_scrambled d g u)
  next_chooser basis (latest g) s =
      let (u, s') = random_double s in drawn_as latest s' (next_latest d basis g u)

  -- The members of CoreWorkload, and the process's random numbers.
  pub record CoreWorkload : Type 0 where
    pub table_name : Str
    pub field_count : ℤ
    pub read_all_fields : Bool
    pub write_all_fields : Bool
    pub field_len_generator : Chooser
    pub key_generator : CounterGenerator
    pub op_chooser : DiscreteGenerator d Operation
    pub key_chooser : Chooser
    pub field_chooser : Chooser
    pub scan_len_chooser : Chooser
    pub insert_key_sequence : CounterGenerator
    pub ordered_inserts : Bool
    pub record_count : ℕ
    pub source : Source

  unfoldable pub next_sequence_key : CoreWorkload → Str × CoreWorkload
  next_sequence_key w =
      let (key_num, g) = Counter.next w.key_generator in
      (build_key_name w.ordered_inserts key_num, record w { key_generator = g })

  unfoldable pub draw_key : CoreWorkload → Run (ℕ × CoreWorkload)
  draw_key w = do
    (key_num, g, s) ← next_chooser w.insert_key_sequence w.key_chooser w.source
    returned (key_num, record w { key_chooser = g; source = s })

  -- `do ... while (key_num > insert_key_sequence_.Last())`
  unfoldable pub choose_key : ℕ → CoreWorkload → Run (ℕ × CoreWorkload)
  choose_key zero w = spinning
  choose_key (suc fuel) w = do
    (key_num, w') ← draw_key w
    let again = choose_key fuel w'
    if ltb (Counter.last w'.insert_key_sequence) key_num then again else returned (key_num, w')

  unfoldable pub next_transaction_key : ℕ → CoreWorkload → Run (Str × CoreWorkload)
  next_transaction_key fuel w = do
    (key_num, w') ← choose_key fuel w
    returned (build_key_name w'.ordered_inserts key_num, w')

  unfoldable pub next_operation : CoreWorkload → Run (Operation × CoreWorkload)
  next_operation w =
      let (chooser, s) = random_double w.source in
      do
        (op, g) ← asserted (Picker.next d Operation w.op_chooser chooser)
        returned (op, record w { op_chooser = g; source = s })

  unfoldable pub next_field_name : CoreWorkload → Run (Str × CoreWorkload)
  next_field_name w = do
    (value, g, s) ← next_chooser w.insert_key_sequence w.field_chooser w.source
    returned (codes "field" ++ to_string value, record w { field_chooser = g; source = s })

  unfoldable pub next_scan_length : CoreWorkload → Run (ℕ × CoreWorkload)
  next_scan_length w = do
    (value, g, s) ← next_chooser w.insert_key_sequence w.scan_len_chooser w.source
    returned (value, record w { scan_len_chooser = g; source = s })

  -- `append(field_len_generator_->Next(), utils::RandomPrintChar())`; the compiler chooses which
  -- argument it draws first, here the length. A length above max_size, for which `append` throws
  -- std::length_error, is among the limits of memory, which are left out.
  unfoldable pub build_field : CoreWorkload → Run (Str × CoreWorkload)
  build_field w = do
    (size, g, s) ← next_chooser w.insert_key_sequence w.field_len_generator w.source
    let (number, s') = rand s
    returned (replicate size (number % 94 + 33), record w { field_len_generator = g; source = s' })

  -- The rounds left, the counter, and the vector.
  unfoldable pub build_fields :
      ℕ → ℕ → List KvPair → CoreWorkload → Run (List KvPair × CoreWorkload)
  build_fields zero i values w = returned (values, w)
  build_fields (suc n) i values w = do
    (field, w') ← build_field w
    build_fields n (i + 1) (values ++ (codes "field" ++ to_string i, field) ∷ []) w'

  unfoldable pub build_values : List KvPair → CoreWorkload → Run (List KvPair × CoreWorkload)
  build_values values w = build_fields (rounds_of w.field_count) 0 values w

  unfoldable pub build_update : List KvPair → CoreWorkload → Run (List KvPair × CoreWorkload)
  build_update pairs w = do
    (name, w') ← next_field_name w
    (field, w'') ← build_field w'
    returned (pairs ++ (name, field) ∷ [], w'')
