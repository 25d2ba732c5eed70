-- ===== src/HashtableDb/Fields.antt =====
-- Tables of fields in db/hashtable_db.cc, and the maps that they stand for.
use ycsb_c_cloud.Base.{
  ℕ, ◌≡◌, refl, sym, ap, ◌∙◌, Bool, true, false, Option, none, some, Str, List, [], ◌∷◌, str_eq,
  str_eq_iff, str_eq_refl, if◌then◌else◌, Bool-cases, Option-cases, inl, inr,
}
use ycsb_c_cloud.Values.{KvPair}
use ycsb_c_cloud.HashtableDb.{
  StringHashtable, c_str, k_error_conflict, get_fields, insert_all, update_all, insert_new,
}

abbrev pub is_none : {V : Type 0} → Option V → Bool
is_none none = true
is_none (some v) = false

abbrev pub value_or : {V : Type 0} → Option V → V → V
value_or none v = v
value_or (some old) v = old

abbrev pub replaced : {V : Type 0} → Option V → V → Option V
replaced none v = none
replaced (some old) v = some v

-- What Insert and Update of a hash table do: Insert keeps a value that is there and says so, and
-- Update replaces one that is there and returns it.
pub record Writes {V : Type 0} (T : StringHashtable V) : Type 0 where
  pub inserted : (t : T.Table) (k : Str) (v : V) → (T.insert t k v).0 ≡ is_none (T.get t k)
  pub get-insert :
      (t : T.Table) (k : Str) (v : V) (j : Str)
      → T.get (T.insert t k v).1 j
        ≡ (if str_eq k j then some (value_or (T.get t k) v) else T.get t j)
  pub updated : (t : T.Table) (k : Str) (v : V) → (T.update t k v).0 ≡ T.get t k
  pub get-update :
      (t : T.Table) (k : Str) (v : V) (j : Str)
      → T.get (T.update t k v).1 j ≡ (if str_eq k j then replaced (T.get t k) v else T.get t j)

-- A record as a map from the names of its fields.
abbrev pub FieldMap : Type 0
FieldMap = Str → Option Str

abbrev pub set_field : FieldMap → Str → Str → FieldMap
set_field g field value j = if str_eq field j then some value else g j

-- The pairs written one after the other: the last value of a field stays, or the first, or the writing
-- ends at a field that is there.
abbrev pub overlay : (Str → Str) → List KvPair → FieldMap → FieldMap
overlay copy [] g = g
overlay copy ((field, value) ∷ rest) g = overlay copy rest (set_field g (c_str field) (copy value))

abbrev pub fill : (Str → Str) → List KvPair → FieldMap → FieldMap
fill copy [] g = g
fill copy ((field, value) ∷ rest) g =
    fill copy rest (set_field g (c_str field) (value_or (g (c_str field)) (copy value)))

abbrev pub fill_new : (Str → Str) → List KvPair → FieldMap → ℕ × FieldMap
fill_new copy [] g = (0, g)
fill_new copy ((field, value) ∷ rest) g =
    let later = fill_new copy rest (set_field g (c_str field) (copy value)) in
    if is_none (g (c_str field)) then later else (k_error_conflict, g)

-- The pairs of the fields that a map has.
abbrev pub picked : FieldMap → List Str → List KvPair
picked g [] = []
picked g (field ∷ rest) = elim (g (c_str field)) [
  | none ↦ picked g rest
  | some value ↦ (field, value) ∷ picked g rest
]

module _ (F : StringHashtable Str) (K : StringHashtable ℕ) (new_fields : F.Table) (copy : Str → Str)
    (writes : Writes F) where
  -- The table has the fields of the map.
  abbrev pub Holds : F.Table → FieldMap → Type 0
  Holds t g = (j : Str) → F.get t j ≡ g j

  insert-Holds :
      (t : F.Table) (g : FieldMap) (k v : Str)
      → Holds t g
      → Holds (F.insert t k v).1 (set_field g k (value_or (g k) v))
  insert-Holds t g k v h j = rw (writes.get-insert, h k, h j) refl

  pub insert_all-Holds :
      (values : List KvPair) (t : F.Table) (g : FieldMap)
      → Holds t g
      → Holds (insert_all F K new_fields copy t values) (fill copy values g)
  unfolding insert_all
  insert_all-Holds [] t g h = h
  insert_all-Holds ((field, value) ∷ rest) t g h =
      insert_all-Holds rest (F.insert t (c_str field) (copy value)).1 _
        (insert-Holds t g (c_str field) (copy value) h)

  -- Update, and Insert where it returns NULL.
  upsert-Holds :
      (t : F.Table) (g : FieldMap) (k v : Str)
      → Holds t g
      → Holds
          (elim (F.update t k v).0 [
            | none ↦ (F.insert (F.update t k v).1 k v).1
            | some old ↦ (F.update t k v).1
          ])
          (set_field g k v)
  upsert-Holds t g k v h j = elim (Option-cases (F.get t k)) [
    | inl gone ↦
        rw (writes.updated, gone, writes.get-insert)
          (elim (Bool-cases (str_eq k j)) [
            | inl same ↦ rw (same, writes.get-update, str_eq_refl k, gone) refl
            | inr other ↦ rw (other, writes.get-update, other) (h j)
          ])
    | inr (old, at) ↦ rw (writes.updated, at, writes.get-update, at, h j) refl
  ]

  pub update_all-Holds :
      (values : List KvPair) (t : F.Table) (g : FieldMap)
      → Holds t g
      → Holds (update_all F K new_fields copy t values) (overlay copy values g)
  unfolding update_all
  update_all-Holds [] t g h = h
  update_all-Holds ((field, value) ∷ rest) t g h =
      update_all-Holds rest _ (set_field g (c_str field) (copy value))
        (upsert-Holds t g (c_str field) (copy value) h)

  pub insert_new-Holds :
      (values : List KvPair) (t : F.Table) (g : FieldMap)
      → Holds t g
      → ((insert_new F K new_fields copy t values).0 ≡ (fill_new copy values g).0)
        × Holds (insert_new F K new_fields copy t values).1 (fill_new copy values g).1
  unfolding insert_new
  insert_new-Holds [] t g h = (refl, h)
  insert_new-Holds ((field, value) ∷ rest) t g h = elim (Option-cases (g (c_str field))) [
    | inl gone ↦
        let (status, rest_holds) =
          insert_new-Holds rest (F.insert t (c_str field) (copy value)).1
            (set_field g (c_str field) (copy value))
            (λ j. rw (writes.get-insert, h (c_str field), gone, h j) refl) in
        rw (insert_new, writes.inserted, h (c_str field), gone) (status, rest_holds)
    | inr (old, at) ↦
        rw (insert_new, writes.inserted, h (c_str field), at)
          (
            refl,
            λ j.
                rw (writes.get-insert, h (c_str field), at, h j)
                  (elim (Bool-cases (str_eq (c_str field) j)) [
                    | inl same ↦ rw (same) (sym at ∙ ap g ((str_eq_iff (c_str field) j).0 same))
                    | inr other ↦ rw (other) refl
                  ]),
          )
  ]

  pub get_fields-picked :
      (names : List Str) (t : F.Table) (g : FieldMap)
      → Holds t g
      → get_fields F K new_fields copy t names ≡ picked g names
  unfolding get_fields
  get_fields-picked [] t g h = refl
  get_fields-picked (field ∷ rest) t g h =
      go (get_fields-picked rest t g h) (F.get t (c_str field)) (g (c_str field)) (h (c_str field))
    where
      go :
          get_fields F K new_fields copy t rest ≡ picked g rest
          → (x y : Option Str) → x ≡ y
          → (elim x [
            | none ↦ get_fields F K new_fields copy t rest
            | some value ↦ (field, value) ∷ get_fields F K new_fields copy t rest
          ])
            ≡ (elim y [ none ↦ picked g rest | some value ↦ (field, value) ∷ picked g rest ])
      go same none y at = rw (← at) same
      go same (some value) y at = rw (← at) (ap (λ pairs. (field, value) ∷ pairs) same)
