-- ===== src/Region.antt =====
-- `BlockDataService.capture_region` of service.py.
pub mod Locations
pub mod Box
mod Tests
use mathlib.Core.List.{flat_map}
use endstone_blockdata_api.Base.{
  ℕ, zero, suc, ◌+◌, ◌*◌, String, Bool, ◌||◌, Option, none, some, List, [], ◌∷◌, map, ltb,
  if◌then◌else◌, Result, ok, err, Error, value_error,
}
use endstone_blockdata_api.Base.Int.{ℤ, pos, pos_part, abs, ◌+ℤ◌, ◌-ℤ◌, min_ℤ, max_ℤ}
use endstone_blockdata_api.Model.{BlockLocation}

-- `tuple[int, int, int]`
pub record Position : Type 0 where
  pub x : ℤ
  pub y : ℤ
  pub z : ℤ

abbrev pub max_capture_region_blocks : ℕ
max_capture_region_blocks = 32768

-- `range(lo, hi)`
unfoldable pub count_up : ℤ → ℕ → List ℤ
count_up lo zero = []
count_up lo (suc n) = lo ∷ count_up (lo +ℤ pos 1) n

unfoldable pub range : ℤ → ℤ → List ℤ
unfolding count_up
range lo hi = count_up lo (pos_part (hi -ℤ lo))

-- `abs(b - a) + 1`
unfoldable pub side : ℤ → ℤ → ℕ
side a b = abs (b -ℤ a) + 1

unfoldable pub lower : Position → Position → Position
lower a b = record { x = min_ℤ a.x b.x; y = min_ℤ a.y b.y; z = min_ℤ a.z b.z }

unfoldable pub upper : Position → Position → Position
upper a b = record { x = max_ℤ a.x b.x; y = max_ℤ a.y b.y; z = max_ℤ a.z b.z }

-- The three nested `for` of the comprehension, between corners that are in order.
unfoldable pub locations : String → Position → Position → List BlockLocation
locations dimension lo hi =
    flat_map
      (λ x.
        flat_map
          (λ y.
            map (λ z. record { dimension = dimension; x = x; y = y; z = z })
              (range lo.z (hi.z +ℤ pos 1)))
          (range lo.y (hi.y +ℤ pos 1)))
      (range lo.x (hi.x +ℤ pos 1))

abbrev pub too_large : Error
too_large = value_error "capture region exceeds 32768 blocks"

unfoldable pub exceeds_limit : Position → Position → Bool
exceeds_limit a b =
    let width = side a.x b.x in
    let height = side a.y b.y in
    let depth = side a.z b.z in
    ltb max_capture_region_blocks width
    || ltb max_capture_region_blocks height
    || ltb max_capture_region_blocks depth
    || ltb max_capture_region_blocks (width * height * depth)

-- An adapter captures one location, and may have a `capture_region` of its own.
module _ {ℓ} {A : Type ℓ} where
  -- The adapter's own `capture_region` where it has one.
  unfoldable pub capture_between :
      (BlockLocation → A)
      → Option (String → Position → Position → List A)
      → String
      → Position
      → Position
      → List A
  capture_between capture (some capture_all) dimension lo hi = capture_all dimension lo hi
  capture_between capture none dimension lo hi = map capture (locations dimension lo hi)

  unfoldable pub capture_region :
      (BlockLocation → A)
      → Option (String → Position → Position → List A)
      → String
      → Position
      → Position
      → Result (List A)
  capture_region capture own dimension a b =
      if exceeds_limit a b
      then err too_large
      else ok (capture_between capture own dimension (lower a b) (upper a b))
