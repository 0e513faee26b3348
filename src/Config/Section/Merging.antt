-- ===== src/Config/Section/Merging.antt =====
-- A merged section holds, for each key, what the last overlay with that key holds: nested tables are
-- replaced, not merged.
use edge_bootstrap.Prelude.{
  String, List, [], ◌∷◌, not, Option, none, some, Result, ok, and_then, and_then_assoc, map_err,
  or_else, if◌then◌else◌, ◌≡◌, refl, ◌∙◌, sym, arith, eq_iff, ap, Bool-cases, inl, inr,
}
use text.Mathlib.Text.{◌==◌ as str_eq}
use edge_bootstrap.Config.Types.{Foreign, ConfigError, parse}
use edge_bootstrap.Config.Host.{Host, FilePath, join, Value, table, Table, end, entry}
use edge_bootstrap.Config.Loader.{read_bounded}
use edge_bootstrap.Config.Section.{
  get_key, insert_key, merge_tables, merge_values, extract_dotted_value, add_section, add_sections,
}

get_key-insert_key :
    (k j : String) (v : Value) (t : Table)
    → get_key j (insert_key k v t) ≡ (if str_eq k j then some v else get_key j t)
unfolding get_key insert_key
get_key-insert_key k j v end = refl
get_key-insert_key k j v (entry i w t) =
    ground (arith, eq_iff k j, eq_iff i k, eq_iff i j, get_key-insert_key k j v t)

-- No key stands twice, as in the tables of the toml crate.
abbrev pub IsMap : Table → Type 0
IsMap end = Unit
IsMap (entry k v t) = (get_key k t ≡ none) × IsMap t

get_key-merge_tables :
    (k : String) (b o : Table)
    → IsMap o
    → get_key k (merge_tables b o) ≡ or_else (get_key k o) (get_key k b)
unfolding get_key merge_tables
get_key-merge_tables k b end m = refl
get_key-merge_tables k b (entry j v o) m =
    ground (
      arith,
      get_key-merge_tables k (insert_key j v b) o m.1,
      get_key-insert_key j k v b,
      eq_iff j k,
    )

-- The sections of the files, merged in the order of the directories.
pub merge_all : Table → List Table → Table
merge_all b [] = b
merge_all b (o ∷ os) = merge_all (merge_tables b o) os

abbrev pub AllMaps : List Table → Type 0
AllMaps [] = Unit
AllMaps (o ∷ os) = IsMap o × AllMaps os

-- The last of the tables that has the key.
pub last_with : String → List Table → Option Value
last_with k [] = none
last_with k (o ∷ os) = or_else (last_with k os) (get_key k o)

or_else-none : {A : Type 0} (o : Option A) → or_else o none ≡ o
or_else-none none = refl
or_else-none (some a) = refl

or_else_assoc : {A : Type 0} (p q r : Option A) → or_else (or_else p q) r ≡ or_else p (or_else q r)
or_else_assoc none q r = refl
or_else_assoc (some a) q r = refl

get_key-merge_all :
    (k : String) (b : Table) (os : List Table)
    → AllMaps os
    → get_key k (merge_all b os) ≡ or_else (last_with k os) (get_key k b)
unfolding merge_all last_with
get_key-merge_all k b [] m = refl
get_key-merge_all k b (o ∷ os) (m, ms) =
    get_key-merge_all k (merge_tables b o) os ms
    ∙ ap (or_else (last_with k os)) (get_key-merge_tables k b o m)
    ∙ sym (or_else_assoc (last_with k os) (get_key k o) (get_key k b))

module _ {x : Foreign} (h : Host x) (key : String) where
  -- The section that the file of a directory holds, if there is one.
  unfoldable pub section_at : FilePath → Result ConfigError (Option Value)
  section_at dir =
      let file = join dir "application.toml" in
      if not (h.exists file)
      then ok none
      else (and_then (read_bounded h file) (λ text.
          and_then (map_err parse (h.parse_value text)) (λ v. ok (extract_dotted_value v key))))

  -- `ts` are the sections of the directories, each a table with no key twice.
  pub data Sections : List FilePath → List Table → Type 0 where
    done : Sections [] []
    absent :
        {d : FilePath} {ds : List FilePath} {ts : List Table}
        → section_at d ≡ ok none
        → Sections ds ts
        → Sections (d ∷ ds) ts
    present :
        {d : FilePath} {ds : List FilePath} {t : Table} {ts : List Table}
        → section_at d ≡ ok (some (table t))
        → IsMap t
        → Sections ds ts
        → Sections (d ∷ ds) (t ∷ ts)

  abbrev add_found : Value → Option Value → Value
  add_found merged none = merged
  add_found merged (some section) = merge_values merged section

  add_section-section_at :
      (merged : Value) (d : FilePath)
      → add_section h key merged d ≡ and_then (section_at d) (λ o. ok (add_found merged o))
  unfolding add_section section_at
  add_section-section_at merged d = elim (Bool-cases (h.exists (join d "application.toml"))) [
    | inl e ↦ rw e (simp and_then_assoc)
    | inr e ↦ rw e
  ]

  Sections-maps : {ds : List FilePath} {ts : List Table} → Sections ds ts → AllMaps ts
  Sections-maps done = tt
  Sections-maps (absent e s) = Sections-maps s
  Sections-maps (present e m s) = (m, Sections-maps s)

  add_sections-merge_all :
      {ds : List FilePath} {ts : List Table} (b : Table)
      → Sections ds ts
      → add_sections h key ds (table b) ≡ ok (table (merge_all b ts))
  unfolding add_sections merge_all merge_values
  add_sections-merge_all b done = refl
  add_sections-merge_all b (absent {d} e s) =
      rw (add_section-section_at (table b) d, e) (add_sections-merge_all b s)
  add_sections-merge_all b (present {d} {t} e m s) =
      rw (add_section-section_at (table b) d, e) (add_sections-merge_all (merge_tables b t) s)

  -- Where every section found is a table, the layered section is a table in which each key has the
  -- value of the last directory whose section has that key, whole, and no other key has one: nested
  -- tables are replaced, not merged.
  pub add_sections_last :
      {ds : List FilePath} {ts : List Table}
      → Sections ds ts
      → (m : Table) × (add_sections h key ds (table end) ≡ ok (table m))
        × ((k : String) → get_key k m ≡ last_with k ts)
  unfolding get_key
  add_sections_last {ts} s = (
    merge_all end ts,
    add_sections-merge_all end s,
    λ k. get_key-merge_all k end ts (Sections-maps s) ∙ or_else-none (last_with k ts),
  )
