-- ===== src/Live/Trusted.antt =====
-- What the search of live.py for its bridge module comes to.
use Prim.Native.String.{◌++◌}
use text.Mathlib.Text.{starts_with}
use mathlib.Core.List.{◌++◌ as append}
use endstone_blockdata_api.Base.{
  ◌≡◌, refl, ap, ◌≢◌, inl, inr, String, true, Option, none, some, List, [], ◌∷◌, ◌==◌, ◌||◌,
  string_eq, arith, Bool-cases, eq_iff,
}
use endstone_blockdata_api.Base.Lists.{All}
use endstone_blockdata_api.Nbt.{Value, str}
use endstone_blockdata_api.Nbt.Equal.{value_eq}
use endstone_blockdata_api.Live.Loader.{
  module_not_found, other_error, Imported, imported, failed, Loaded, loaded, missing_import_target,
  after_import, load_from, load_live_bridge, module_names,
}

module _ {ℓ} {M : Type ℓ} (version : String) (repr : Value → String)
    (import_module : String → Imported M) where
  -- The import of a module failed since the module, or a package that it is in, is absent.
  pub IsAbsent : String → Type ℓ
  IsAbsent name =
      (absent : String) × (message : String) × (import_module name
        ≡ failed (module_not_found (some absent) message))
      × (absent ≢ "")
      × ((absent == name || starts_with name (absent ++ ".")) ≡ true)

  -- The first module of the list that is not absent is there, with the package's version.
  pub FirstFound : M → List String → Type ℓ
  FirstFound bridge names =
      (before : List String) × (name : String) × (after : List String) × (names
        ≡ append before (name ∷ after))
      × All IsAbsent before
      × (found : Value) × (import_module name ≡ imported found bridge)
      × (value_eq found (str version) ≡ true)

  missing_name :
      (absent : Option String) (name message : String)
      → import_module name ≡ failed (module_not_found absent message)
      → missing_import_target absent name ≡ true
      → IsAbsent name
  unfolding missing_import_target IsAbsent
  missing_name none name message import h = cc
  missing_name (some absent) name message import h =
      (absent, message, import, (λ empty. ground (arith, eq_iff absent "")), ground arith)

  FirstFound-later :
      (name : String) (names : List String) (bridge : M)
      → IsAbsent name
      → FirstFound bridge names
      → FirstFound bridge (name ∷ names)
  unfolding FirstFound
  FirstFound-later name names bridge absent
        (before, last, after, same, all, found, import, version) =
      (name ∷ before, last, after, ap (λ l. name ∷ l) same, (absent, all), found, import, version)

  after_import-loaded :
      (name : String) (names : List String) (next : String → Loaded M) (bridge : M)
      (later : (error : String) → next error ≡ loaded bridge → FirstFound bridge names)
      (i : Imported M)
      → import_module name ≡ i
      → after_import version repr name next i ≡ loaded bridge
      → FirstFound bridge (name ∷ names)
  unfolding after_import FirstFound
  after_import-loaded name names next bridge later (imported found there) import h =
      elim (Bool-cases (value_eq found (str version))) [
        | inl same ↦ ([], name, names, refl, tt, found, ground arith, same)
        | inr differ ↦ ground arith
      ]
  after_import-loaded name names next bridge later (failed (module_not_found absent message)) import
        h =
      elim (Bool-cases (missing_import_target absent name)) [
        | inl missing ↦
            FirstFound-later name names bridge (missing_name absent name message import missing)
              (later (name ++ (": " ++ message)) (ground arith))
        | inr present ↦ ground arith
      ]
  after_import-loaded name names next bridge later (failed (other_error error)) import h = cc

  load_from-loaded :
      (names errors : List String) (bridge : M)
      → load_from version repr import_module names errors ≡ loaded bridge
      → FirstFound bridge names
  unfolding load_from
  load_from-loaded [] errors bridge h = cc
  load_from-loaded (name ∷ names) errors bridge h =
      after_import-loaded name names _ bridge (λ error. load_from-loaded names _ bridge)
        (import_module name) refl h

  -- Where the search for the bridge returns a module, that module is the first of the three names
  -- that is not absent, it has the package's version, and the import of each name before it failed
  -- since that module or a package that it is in was not found.
  pub load_live_bridge-FirstFound :
      (bridge : M)
      → load_live_bridge version repr import_module ≡ loaded bridge
      → FirstFound bridge module_names
  unfolding load_live_bridge
  load_live_bridge-FirstFound bridge h = load_from-loaded module_names [] bridge h
