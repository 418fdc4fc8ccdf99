-- ===== src/Inspector/Found.antt =====
-- What `_handle_locate` finds in a region, and how it shows a container.
use Prim.Native.String.{◌++◌}
use endstone_blockdata_api.Base.{
  ℕ, ◌-◌, ◌*◌, String, Bool, Option, none, some, List, [], ◌∷◌, map, ltb, leb, ◌==◌, if◌then◌else◌,
  Result, ok, string_eq,
}
use endstone_blockdata_api.Base.Int.{ℤ, pos, negsuc, ◌+ℤ◌, ◌-ℤ◌, min_ℤ, max_ℤ, abs}
use endstone_blockdata_api.Base.Lists.{length, take}
use endstone_blockdata_api.Base.Texts.{texts, join}
use endstone_blockdata_api.Nbt.{Value, str, ItemNbt}
use endstone_blockdata_api.Nbt.Conversion.{to_str, to_bool, to_dict, get_or}
use endstone_blockdata_api.Model.{BlockLocation}
use endstone_blockdata_api.Inspector.Python.{Python, get}
use endstone_blockdata_api.Inspector.Reading.{
  container_inventory, container_capacity, occupied_inventory, item_preview,
  looks_like_container_block,
}
use endstone_blockdata_api.Inspector.Bridge.{number}

-- `max(0, min(radius, 12))`
unfoldable pub clamp_radius : ℤ → ℤ
clamp_radius radius = max_ℤ (pos 0) (min_ℤ radius (pos 12))

-- The corners of the region, within the world's heights -64 and 319.
unfoldable pub low_corner : BlockLocation → ℤ → BlockLocation
low_corner center radius = record center {
  x = center.x -ℤ radius;
  y = max_ℤ (center.y -ℤ radius) (negsuc 63);
  z = center.z -ℤ radius;
}

unfoldable pub high_corner : BlockLocation → ℤ → BlockLocation
high_corner center radius = record center {
  x = center.x +ℤ radius;
  y = min_ℤ (center.y +ℤ radius) (pos 319);
  z = center.z +ℤ radius;
}

-- `(a - b) ** 2`
unfoldable pub squared : ℤ → ℤ → ℕ
squared a b = abs (a -ℤ b) * abs (a -ℤ b)

-- Order by a key that was computed first.
abbrev pub nearer : ℕ × ItemNbt → ℕ × ItemNbt → Bool
nearer (near, snapshot) (far, other) = leb near far

abbrev pub measured_snapshot : ℕ × ItemNbt → ItemNbt
measured_snapshot (distance, snapshot) = snapshot

-- `self._container_inventory(snapshot) or []`
unfoldable pub inventory_or_empty : Option (List ItemNbt) → List ItemNbt
inventory_or_empty none = []
inventory_or_empty (some inventory) = inventory

module _ (python : Python) where
  -- The supported containers, and the blocks that look like one but have no inventory.
  unfoldable pub containers_in : List ItemNbt → List ItemNbt
  containers_in [] = []
  containers_in (snapshot ∷ snapshots) =
      let rest = containers_in snapshots in
      elim (container_inventory python snapshot) [ none ↦ rest | some _ ↦ snapshot ∷ rest ]

  unfoldable pub actor_capture_misses : List ItemNbt → List ItemNbt
  actor_capture_misses [] = []
  actor_capture_misses (snapshot ∷ snapshots) =
      let rest = actor_capture_misses snapshots in
      elim (container_inventory python snapshot) [
        | some _ ↦ rest
        | none ↦ if looks_like_container_block python snapshot then snapshot ∷ rest else rest
      ]

  -- `dict(value or {})`
  unfoldable pub dict_or_empty : Value → Result ItemNbt
  dict_or_empty v = if to_bool python.convert v then to_dict python.convert v else ok []

  -- `", ".join(…)` of the first three items, with the number of the others
  unfoldable pub preview_text : List ItemNbt → String
  preview_text occupied =
      let previews = join ", " (map (item_preview python) (take 3 occupied)) in
      if ltb 3 (length occupied)
      then previews ++ (", +" ++ (number python (pos (length occupied - 3)) ++ " more"))
      else previews

  unfoldable pub or_empty_text : String → String
  or_empty_text text = if text == "" then "empty" else text

  unfoldable pub container_text : ItemNbt → ItemNbt → ItemNbt → List ItemNbt → String
  container_text snapshot location nbt inventory =
      let occupied = occupied_inventory python inventory in
      let type_value = get_or "type" (str "unknown") snapshot in
      texts (
        "  §7- Location: §f("
        ∷ to_str python.convert (get "x" location)
        ∷ ", "
        ∷ to_str python.convert (get "y" location)
        ∷ ", "
        ∷ to_str python.convert (get "z" location)
        ∷ ") §eType: §f"
        ∷ to_str python.convert type_value
        ∷ " §7Capacity: §b"
        ∷ number python (container_capacity python snapshot inventory)
        ∷ " §7Occupied: §b"
        ∷ number python (pos (length occupied))
        ∷ " §7Name: §f"
        ∷ to_str python.convert (get_or "CustomName" type_value nbt)
        ∷ " §7Items: §f"
        ∷ or_empty_text (preview_text occupied)
        ∷ [])
