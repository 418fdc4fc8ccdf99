-- ===== src/Region/Tests.antt =====
-- A region of four blocks, and one that is too large.
use endstone_blockdata_api.Base.{
  ◌*◌, ◌≡◌, refl, none, List, [], ◌∷◌, map, ltb, if◌then◌else◌, ok, err,
}
use endstone_blockdata_api.Base.Int.{ℤ, pos, negsuc, ◌-ℤ◌}
use endstone_blockdata_api.Model.{BlockLocation, location_eq}
use endstone_blockdata_api.Region.{
  Position, max_capture_region_blocks, side, lower, upper, locations, too_large, exceeds_limit,
  capture_region,
}
use endstone_blockdata_api.Region.Box.{capture_region-eq, capture_region_swap}

abbrev corner : Position
corner = record { x = negsuc 0; y = pos 5; z = pos 1 }

abbrev opposite : Position
opposite = record { x = pos 0; y = pos 5; z = pos 0 }

abbrev far_away : Position
far_away = record { x = pos 40000; y = pos 5; z = pos 0 }

abbrev itself : BlockLocation → BlockLocation
itself loc = loc

abbrev at : ℤ → ℤ → BlockLocation
at x z = record { dimension = "overworld"; x = x; y = pos 5; z = z }

abbrev four : List BlockLocation
four = at (negsuc 0) (pos 0) ∷ at (negsuc 0) (pos 1) ∷ at (pos 0) (pos 0) ∷ at (pos 0) (pos 1) ∷ []

refused_far : capture_region itself none "overworld" corner far_away ≡ err too_large
unfolding capture_region exceeds_limit side ◌-ℤ◌
refused_far = refl

capture_region-eq_example : capture_region itself none "overworld" corner far_away ≡ (
    if ltb max_capture_region_blocks
      (side corner.x far_away.x * side corner.y far_away.y * side corner.z far_away.z)
    then err too_large
    else ok (map itself (locations "overworld" (lower corner far_away) (upper corner far_away))))
capture_region-eq_example = capture_region-eq itself "overworld" corner far_away

capture_region_swap_example :
    capture_region itself none "overworld" corner opposite
    ≡ capture_region itself none "overworld" opposite corner
capture_region_swap_example = capture_region_swap itself none "overworld" corner opposite
