-- ===== src/Live/Loader.antt =====
-- `_load_live_bridge`: the search for the bridge module. What an import gives is a parameter.
use Prim.Native.String.{◌++◌}
use text.Mathlib.Text.{starts_with}
use mathlib.Core.List.{◌++◌ as append}
use endstone_blockdata_api.Base.{
  String, Bool, false, not, ◌&&◌, ◌||◌, Option, none, some, List, [], ◌∷◌, ◌==◌, if◌then◌else◌,
  Error, runtime_error, string_eq,
}
use endstone_blockdata_api.Nbt.{Value, str}
use endstone_blockdata_api.Nbt.Equal.{value_eq}

-- What goes wrong in an import: a ModuleNotFoundError with its `name`, or another exception.
pub data ImportError : Type 0 where
  module_not_found : (name : Option String) (message : String) → ImportError
  other_error : (error : Error) → ImportError

-- What `import_module` gives: the module with its `__version__` (None where it has none).
pub data Imported {ℓ} (M : Type ℓ) : Type ℓ where
  imported : (version : Value) (bridge : M) → Imported M
  failed : (error : ImportError) → Imported M

pub data Loaded {ℓ} (M : Type ℓ) : Type ℓ where
  loaded : (bridge : M) → Loaded M
  raised : (error : ImportError) → Loaded M

-- `_missing_import_target`
unfoldable pub missing_import_target : Option String → String → Bool
missing_import_target none target = false
missing_import_target (some name) target =
    not (name == "") && (name == target || starts_with target (name ++ "."))

abbrev pub module_names : List String
module_names =
    "endstone_blockdata_inspector._endstone_blockdata_live"
    ∷ "endstone_blockdata._endstone_blockdata_live" ∷ "_endstone_blockdata_live" ∷ []

-- `"; ".join(errors)`
unfoldable pub join_errors : List String → String
join_errors [] = ""
join_errors (e ∷ []) = e
join_errors (e ∷ f ∷ errors) = e ++ ("; " ++ join_errors (f ∷ errors))

-- `version` is the package's own `__version__`, and `repr` Python's `!r`.
module _ {ℓ} {M : Type ℓ} (version : String) (repr : Value → String) where
  -- What the loop does with one import; `next` is the rest of the loop, given an error's text.
  unfoldable pub after_import : String → (String → Loaded M) → Imported M → Loaded M
  after_import name next (imported found bridge) =
      if value_eq found (str version)
      then loaded bridge
      else raised (
          other_error (
            runtime_error (
              "native BlockData bridge "
              ++ (repr (str name)
                  ++ (" has version "
                      ++ (repr found ++ ("; the Python API requires " ++ repr (str version))))))))
  after_import name next (failed (module_not_found absent message)) =
      if missing_import_target absent name
      then next (name ++ (": " ++ message))
      else raised (module_not_found absent message)
  after_import name next (failed (other_error error)) = raised (other_error error)

module _ {ℓ} {M : Type ℓ} (version : String) (repr : Value → String)
    (import_module : String → Imported M) where
  -- The loop over the names, with the errors that it has gathered.
  unfoldable pub load_from : List String → List String → Loaded M
  load_from [] errors = raised (
      module_not_found (some "_endstone_blockdata_live")
        ("the native BlockData live bridge is not installed; tried " ++ join_errors errors))
  load_from (name ∷ names) errors =
      after_import version repr name (λ error. load_from names (append errors (error ∷ [])))
        (import_module name)

  unfoldable pub load_live_bridge : Loaded M
  load_live_bridge = load_from module_names []
