-- ===== src/Config/Loader/Tenant.antt =====
-- Loading for a tenant: which file is read, and which tenant the result names.
use Prim.Native.String
use edge_bootstrap.Prelude.{
  ℕ, String, List, [], ◌∷◌, ◌++◌, Bool, true, false, not, ◌||◌, ◌==◌, ok, ◌≡◌, refl, arith, All,
  is_empty_text, all_text, starts_with,
}
use mathlib.Core.List.{append_assoc}
use text.Mathlib.TextLemmas.{cons-append}
use edge_bootstrap.Config.Types.{Foreign}
use edge_bootstrap.Config.Host.{Host, FilePath, join}
use edge_bootstrap.Config.Loader.{is_tenant_char, validate_tenant_id, tenant_file}

-- A character that can lead out of a directory or end a name: a slash, a backslash, a dot, NUL.
abbrev pub is_separator : ℕ → Bool
is_separator c = c == b'/' || c == 92 || c == b'.' || c == 0

abbrev pub IsPlainName : String → Type 0
IsPlainName id = (is_empty_text id ≡ false) × (all_text (λ c. not (is_separator c)) id ≡ true)

no_separators :
    (id : String)
    → all_text is_tenant_char id ≡ true
    → all_text (λ c. not (is_separator c)) id ≡ true
no_separators String.[] h = refl
no_separators (String.◌∷◌ c s) h = ground (arith, no_separators s)

valid_is_plain : (id : String) {u : Unit {0}} → validate_tenant_id id ≡ ok u → IsPlainName id
unfolding validate_tenant_id
valid_is_plain id e = ground (arith, no_separators id)

append_relative : (id t : String) → IsPlainName id → starts_with (String.◌++◌ id t) "/" ≡ false
append_relative String.[] t h = cc
append_relative (String.◌∷◌ c s) t h = rw cons-append (ground arith)

-- The file of a valid tenant id lies in the directory `tenants` of its configuration directory, and its
-- name is the id, which holds no separator, with ".toml".
pub tenant_file_inside :
    (id : String) (u : Unit {0}) (dir : FilePath)
    → validate_tenant_id id ≡ ok u
    → IsPlainName id
      × (tenant_file id dir
          ≡ record dir { parts = dir.parts ++ "tenants" ∷ String.◌++◌ id ".toml" ∷ [] })
unfolding tenant_file join
tenant_file_inside id u dir e =
    (valid_is_plain id e, rw (append_relative id ".toml" (valid_is_plain id e)) (simp append_assoc))

module _ {x : Foreign} (h : Host x) (id : String) where
  -- `dir` is the first of the directories that has the tenant's file, which is `p`.
  pub record IsFirst (dirs : List FilePath) (p : FilePath) : Type 0 where
    pub above : List FilePath
    pub dir : FilePath
    pub below : List FilePath
    pub split_at : dirs ≡ above ++ dir ∷ below
    pub without : All (λ d. h.exists (tenant_file id d) ≡ false) above
    pub found : p ≡ tenant_file id dir
    pub there : h.exists p ≡ true
