-- ===== src/Config/Host.antt =====
-- What the loader asks of the machine: environment, files, and the two parsers. A load reads one
-- state of the machine: nothing changes under it.
use edge_bootstrap.Prelude.{
  ℕ, String, List, [], ◌∷◌, ◌++◌, Bool, Option, Result, if◌then◌else◌, starts_with,
}
use edge_bootstrap.Config.Types.{Foreign}
use edge_bootstrap.Config.Override.{ConfigOverride}

-- A path: where it begins, and the components joined to it.
pub record FilePath : Type 0 where
  pub base : String
  pub parts : List String

abbrev pub path : String → FilePath
path s = record { base = s; parts = [] }

-- `Path::join`: an absolute component replaces the path.
unfoldable pub join : FilePath → String → FilePath
join p part = if starts_with part "/" then path part else record p { parts = p.parts ++ part ∷ [] }

-- A TOML value; the scalars are given by their text.
mutual
  pub data Value : Type 0 where
    scalar : String → Value
    array : List String → Value
    table : Table → Value

  pub data Table : Type 0 where
    end : Table
    entry : String → Value → Table → Table

pub record Host (x : Foreign) : Type 0 where
  pub env : String → Option String
  -- `dirs::config_dir()`
  pub config_dir : Option String
  pub exists : FilePath → Bool
  -- `Path::display` and the decimal digits of a number
  pub path_text : FilePath → String
  pub decimal : ℕ → String
  -- the length of a file, and its text; an error is given by its text
  pub file_len : FilePath → Result String ℕ
  pub read : FilePath → Result String String
  -- `toml::from_str`, to an overlay and to a value
  pub parse_override : String → Result String (ConfigOverride x)
  pub parse_value : String → Result String Value
  pub to_lowercase : String → String
