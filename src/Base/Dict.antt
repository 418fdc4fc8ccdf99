-- ===== src/Base/Dict.antt =====
-- Python's `dict`: entries in the order of their first insertion. Proofs elsewhere go by the laws.
use mathlib.Core.Path.{◌≡◌, refl}
use mathlib.Core.Option.{Option, none, some, or_else}
use mathlib.Core.List.{List, [], ◌∷◌}
use native.Mathlib.Omega.{arith}
use endstone_blockdata_api.Base.Tests.{if◌then◌else◌}
use endstone_blockdata_api.Base.Equality.{Eq, ◌==◌, contains}

abbrev pub Dict {ℓ κ} : Type ℓ → Type κ → Type (ℓ ⊔ κ)
Dict K V = List (K × V)

module _ {ℓ κ} {K : Type ℓ} {V : Type κ} where
  abbrev pub keys : Dict K V → List K
  keys [] = []
  keys ((k, v) ∷ d) = k ∷ keys d

  abbrev pub values : Dict K V → List V
  values [] = []
  values ((k, v) ∷ d) = v ∷ values d

module _ {ℓ κ} {K : Type ℓ} {V : Type κ} ⦃e : Eq K⦄ where
  -- `d.get(k)`
  unfoldable pub lookup : K → Dict K V → Option V
  lookup k [] = none
  lookup k ((j, v) ∷ d) = if k == j then some v else lookup k d

  -- `d[k] = v`
  unfoldable pub insert : K → V → Dict K V → Dict K V
  insert k v [] = (k, v) ∷ []
  insert k v ((j, w) ∷ d) = if k == j then (j, v) ∷ d else (j, w) ∷ insert k v d

  -- `d.pop(k, None)`. Every entry of the key goes; a dict has at most one.
  unfoldable pub erase : K → Dict K V → Dict K V
  erase k [] = []
  erase k ((j, w) ∷ d) = let rest = erase k d in if k == j then rest else (j, w) ∷ rest

  -- `d.update(u)`
  unfoldable pub update : Dict K V → Dict K V → Dict K V
  update d [] = d
  update d ((k, v) ∷ u) = update (insert k v d) u

  -- `for k in ks: d.pop(k, None)`
  unfoldable pub erase_all : List K → Dict K V → Dict K V
  erase_all [] d = d
  erase_all (k ∷ ks) d = erase_all ks (erase k d)

  abbrev pub NodupKeys : Dict K V → Type κ
  NodupKeys [] = Unit
  NodupKeys ((k, _) ∷ d) = (lookup k d ≡ none) × NodupKeys d

  pub lookup-nil : (k : K) → lookup k [] ≡ none
  unfolding lookup
  lookup-nil k = refl

  pub lookup-cons :
      (j k : K) (v : V) (d : Dict K V)
      → lookup j ((k, v) ∷ d) ≡ (if j == k then some v else lookup j d)
  unfolding lookup
  lookup-cons j k v d = refl

  pub lookup-insert :
      (j k : K) (v : V) (d : Dict K V)
      → lookup j (insert k v d) ≡ (if j == k then some v else lookup j d)
  unfolding insert lookup
  lookup-insert j k v [] = refl
  lookup-insert j k v (_ ∷ d) = ground (arith, lookup-insert j k v d)

  pub lookup-erase :
      (j k : K) (d : Dict K V) → lookup j (erase k d) ≡ (if j == k then none else lookup j d)
  unfolding erase lookup
  lookup-erase j k [] = ground arith
  lookup-erase j k (_ ∷ d) = ground (arith, lookup-erase j k d)

  pub lookup-update :
      (j : K) (d u : Dict K V)
      → NodupKeys u
      → lookup j (update d u) ≡ or_else (lookup j u) (lookup j d)
  unfolding update lookup or_else
  lookup-update j d [] h = refl
  lookup-update j d ((k, v) ∷ u) h =
      ground (arith, lookup-update j (insert k v d) u h.1, lookup-insert j k v d)

  pub lookup-erase_all :
      (j : K) (ks : List K) (d : Dict K V)
      → lookup j (erase_all ks d) ≡ (if contains ks j then none else lookup j d)
  unfolding erase_all
  lookup-erase_all j [] d = refl
  lookup-erase_all j (k ∷ ks) d =
      ground (arith, lookup-erase_all j ks (erase k d), lookup-erase j k d)

  pub insert-NodupKeys : (k : K) (v : V) (d : Dict K V) → NodupKeys d → NodupKeys (insert k v d)
  unfolding insert
  insert-NodupKeys k v [] _ = (lookup-nil k, tt)
  insert-NodupKeys k v ((j, _) ∷ d) (fresh, u) =
      ground (arith, insert-NodupKeys k v d u, lookup-insert j k v d)

  pub erase-NodupKeys : (k : K) (d : Dict K V) → NodupKeys d → NodupKeys (erase k d)
  unfolding erase
  erase-NodupKeys k [] _ = tt
  erase-NodupKeys k ((j, _) ∷ d) (fresh, u) =
      ground (arith, erase-NodupKeys k d u, lookup-erase j k d)

  pub update-NodupKeys : (d u : Dict K V) → NodupKeys d → NodupKeys (update d u)
  unfolding update
  update-NodupKeys d [] h = h
  update-NodupKeys d ((k, v) ∷ u) h = update-NodupKeys (insert k v d) u (insert-NodupKeys k v d h)

  pub erase_all-NodupKeys : (ks : List K) (d : Dict K V) → NodupKeys d → NodupKeys (erase_all ks d)
  unfolding erase_all
  erase_all-NodupKeys [] d h = h
  erase_all-NodupKeys (k ∷ ks) d h = erase_all-NodupKeys ks (erase k d) (erase-NodupKeys k d h)

-- A predicate of every key.
module _ {ℓ κ} {K : Type ℓ} {V : Type κ} ⦃e : Eq K⦄ (P : K → Type 0) where
  abbrev pub AllKeys : Dict K V → Type 0
  AllKeys [] = Unit
  AllKeys ((k, v) ∷ d) = P k × AllKeys d

  pub insert-AllKeys : (k : K) (v : V) (d : Dict K V) → P k → AllKeys d → AllKeys (insert k v d)
  unfolding insert
  insert-AllKeys k v [] p h = (p, tt)
  insert-AllKeys k v ((j, w) ∷ d) p h = ground (arith, insert-AllKeys k v d p h.1)

  pub erase-AllKeys : (k : K) (d : Dict K V) → AllKeys d → AllKeys (erase k d)
  unfolding erase
  erase-AllKeys k [] h = tt
  erase-AllKeys k ((j, w) ∷ d) h = ground (arith, erase-AllKeys k d h.1)

  pub update-AllKeys : (d u : Dict K V) → AllKeys d → AllKeys u → AllKeys (update d u)
  unfolding update
  update-AllKeys d [] h hu = h
  update-AllKeys d ((k, v) ∷ u) h hu =
      update-AllKeys (insert k v d) u (insert-AllKeys k v d hu.0 h) hu.1

  pub erase_all-AllKeys : (ks : List K) (d : Dict K V) → AllKeys d → AllKeys (erase_all ks d)
  unfolding erase_all
  erase_all-AllKeys [] d h = h
  erase_all-AllKeys (k ∷ ks) d h = erase_all-AllKeys ks (erase k d) (erase-AllKeys k d h)

pub ruleset dict_laws = (lookup-nil, lookup-insert, lookup-erase, lookup-erase_all)
