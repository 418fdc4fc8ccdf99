-- ===== src/Region/Box.antt =====
-- What `capture_region` returns and when it fails.
use endstone_blockdata_api.Base.{
  ◌*◌, ◌≡◌, String, Option, none, List, map, ltb, if◌then◌else◌, ok, err,
}
use endstone_blockdata_api.Model.{BlockLocation, location_eq}
use endstone_blockdata_api.Region.{
  Position, max_capture_region_blocks, side, lower, upper, locations, too_large, capture_between,
  capture_region,
}
use endstone_blockdata_api.Region.Locations.{exceeds_limit-eq, side_comm, corners_swap}

-- A region capture of an adapter with no `capture_region` of its own fails exactly when the box of
-- the two corners holds more than 32768 blocks, and otherwise captures the locations of the box.
pub capture_region-eq {ℓ} :
    {A : Type ℓ} (capture : BlockLocation → A) (dimension : String) (a b : Position)
    → capture_region capture none dimension a b ≡ (
        if ltb max_capture_region_blocks (side a.x b.x * side a.y b.y * side a.z b.z)
        then err too_large
        else ok (map capture (locations dimension (lower a b) (upper a b))))
unfolding capture_region capture_between
capture_region-eq capture dimension a b = rw (exceeds_limit-eq a b)

-- The result does not depend on the order in which the two corners are given.
pub capture_region_swap {ℓ} :
    {A : Type ℓ} (capture : BlockLocation → A)
    (own : Option (String → Position → Position → List A)) (dimension : String) (a b : Position)
    → capture_region capture own dimension a b ≡ capture_region capture own dimension b a
unfolding capture_region
capture_region_swap capture own dimension a b = rw (
  exceeds_limit-eq a b,
  exceeds_limit-eq b a,
  side_comm b.x a.x,
  side_comm b.y a.y,
  side_comm b.z a.z,
  (corners_swap b a).0,
  (corners_swap b a).1,
)
