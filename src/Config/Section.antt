-- ===== src/Config/Section.antt =====
-- `load_section` of scm/main/adapter/src/core/config/loader/application_config_loader.rs: one section of
-- the layered files as a table.
pub mod Merging
use edge_bootstrap.Prelude.{
  ℕ, String, List, [], ◌∷◌, Bool, true, false, not, Option, none, some, Result, ok, err, and_then,
  map_err, if◌then◌else◌, split,
}
use text.Mathlib.Text.{◌==◌ as str_eq}
use edge_bootstrap.Config.Types.{Foreign, ConfigError, parse}
use edge_bootstrap.Config.Host.{
  Host, FilePath, join, Value, scalar, array, table, Table, end, entry,
}
use edge_bootstrap.Config.Loader.{read_bounded}

-- `Table::get` and `Table::insert`
unfoldable pub get_key : String → Table → Option Value
get_key k end = none
get_key k (entry j v t) = if str_eq j k then some v else get_key k t

unfoldable pub insert_key : String → Value → Table → Table
insert_key k v end = entry k v end
insert_key k v (entry j w t) = if str_eq j k then entry j v t else entry j w (insert_key k v t)

-- The loop of `merge_values` over the overlay's entries.
unfoldable pub merge_tables : Table → Table → Table
merge_tables b end = b
merge_tables b (entry k v o) = merge_tables (insert_key k v b) o

unfoldable pub merge_values : Value → Value → Value
merge_values (table b) (table o) = table (merge_tables b o)
merge_values b o = o

-- `Value::get`: only a table has keys.
unfoldable pub get_in : String → Value → Option Value
get_in k (table t) = get_key k t
get_in k _ = none

unfoldable pub walk : List String → Value → Option Value
unfolding get_in get_key
walk [] v = some v
walk (part ∷ parts) v = elim (get_in part v) [ none ↦ none | some w ↦ walk parts w ]

unfoldable pub extract_dotted_value : Value → String → Option Value
unfolding walk
extract_dotted_value v key = walk (split b'.' key) v

unfoldable pub is_empty_table : Value → Bool
is_empty_table (table end) = true
is_empty_table _ = false

module _ {x : Foreign} (h : Host x) (key : String) where
  -- One round of the loop: what a directory adds.
  unfoldable pub add_section : Value → FilePath → Result ConfigError Value
  add_section merged dir =
      let file = join dir "application.toml" in
      if not (h.exists file)
      then ok merged
      else (and_then (read_bounded h file) (λ text.
          and_then (map_err parse (h.parse_value text)) (λ v.
            ok (elim (extract_dotted_value v key) [
              | none ↦ merged
              | some section ↦ merge_values merged section
            ]))))

  unfoldable pub add_sections : List FilePath → Value → Result ConfigError Value
  add_sections [] merged = ok merged
  add_sections (dir ∷ dirs) merged = and_then (add_section merged dir) (add_sections dirs)

  -- `convert` deserialises a value into `T`, and `fallback` is `T::default()`.
  unfoldable pub load_section :
      {T : Type 0} → (Value → Result String T) → T → List FilePath → Result ConfigError T
  load_section convert fallback dirs =
      and_then (add_sections dirs (table end))
        (λ merged. if is_empty_table merged then ok fallback else map_err parse (convert merged))
