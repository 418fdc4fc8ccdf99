-- ===== src/Region/Locations.antt =====
-- Which locations the comprehension of `capture_region` visits.
use mathlib.Core.List.{flat_map}
use endstone_blockdata_api.Base.{
  ℕ, zero, suc, ◌*◌, ◌≤◌, ◌≡◌, refl, ◌∙◌, ap, String, Bool, true, false, ◌||◌, List, [], ◌∷◌, ◌++◌,
  map, ltb, arith, ◌&&◌, Eq, string_eq, contains, ◌==◌,
}
use endstone_blockdata_api.Base.Int.{
  ℤ, pos, pos_part, ◌+ℤ◌, ◌-ℤ◌, ◌≤ℤ◌, min_ℤ, max_ℤ, leb_ℤ, ltb_ℤ, int_eq, +ℤ_parts, -ℤ_parts,
  eq_of_parts, min_comm, max_comm,
}
use endstone_blockdata_api.Base.Lists.{length, length-append, length-map}
use endstone_blockdata_api.Model.{BlockLocation, location_eq}
use endstone_blockdata_api.Region.{
  Position, max_capture_region_blocks, count_up, range, side, lower, upper, locations,
  exceeds_limit,
}

length-count_up : (lo : ℤ) (n : ℕ) → length (count_up lo n) ≡ n
unfolding count_up
length-count_up lo zero = refl
length-count_up lo (suc n) = ap suc (length-count_up (lo +ℤ pos 1) n)

length-flat_map {ℓ κ} :
    {A : Type ℓ} {B : Type κ} (f : A → List B) (n : ℕ) (xs : List A)
    → ((x : A) → length (f x) ≡ n)
    → length (flat_map f xs) ≡ length xs * n
unfolding flat_map
length-flat_map f n [] h = omega arith
length-flat_map f n (x ∷ xs) h =
    omega (arith, length-append (f x) (flat_map f xs), length-flat_map f n xs h, h x)

-- Between the lower and the upper of two coordinates lie as many as the side is long.
length-range : (a b : ℤ) → length (range (min_ℤ a b) (max_ℤ a b +ℤ pos 1)) ≡ side a b
unfolding range side min_ℤ max_ℤ ◌+ℤ◌ ◌-ℤ◌
length-range a b =
    length-count_up (min_ℤ a b) (pos_part (max_ℤ a b +ℤ pos 1 -ℤ min_ℤ a b)) ∙ ground arith

pub side_comm : (a b : ℤ) → side a b ≡ side b a
unfolding side ◌-ℤ◌
side_comm a b = ground arith

side_pos : (a b : ℤ) → 1 ≤ side a b
unfolding side
side_pos a b = omega arith

le-product :
    (w h d : ℕ) → 1 ≤ w → 1 ≤ h → 1 ≤ d → (w ≤ w * h * d) × (h ≤ w * h * d) × (d ≤ w * h * d)
le-product w h d pw ph pd = grind arith

sides_test :
    (limit w h d : ℕ)
    → 1 ≤ w
    → 1 ≤ h
    → 1 ≤ d
    → (ltb limit w || ltb limit h || ltb limit d || ltb limit (w * h * d)) ≡ ltb limit (w * h * d)
sides_test limit w h d pw ph pd = ground (arith, le-product w h d pw ph pd)

-- The tests on the single sides add nothing to the test on the volume.
pub exceeds_limit-eq :
    (a b : Position)
    → exceeds_limit a b ≡ ltb max_capture_region_blocks (side a.x b.x * side a.y b.y * side a.z b.z)
unfolding exceeds_limit
exceeds_limit-eq a b =
    sides_test max_capture_region_blocks (side a.x b.x) (side a.y b.y) (side a.z b.z)
      (side_pos a.x b.x) (side_pos a.y b.y) (side_pos a.z b.z)

pub length-locations :
    (dimension : String) (a b : Position)
    → length (locations dimension (lower a b) (upper a b))
      ≡ side a.x b.x * side a.y b.y * side a.z b.z
unfolding locations lower upper
length-locations dimension a b =
    length-flat_map _ (side a.y b.y * side a.z b.z) _ (λ x.
      length-flat_map _ (side a.z b.z) _
        (λ y. length-map _ (range (min_ℤ a.z b.z) (max_ℤ a.z b.z +ℤ pos 1)) ∙ length-range a.z b.z)
      ∙ ap (λ n. n * side a.z b.z) (length-range a.y b.y))
    ∙ omega (arith, ap (λ n. n * (side a.y b.y * side a.z b.z)) (length-range a.x b.x))

-- The corners may be given in any order.
pub corners_swap : (a b : Position) → (lower a b ≡ lower b a) × (upper a b ≡ upper b a)
unfolding lower upper
corners_swap a b = (
  λ i. record { x = min_comm a.x b.x i; y = min_comm a.y b.y i; z = min_comm a.z b.z i },
  λ i. record { x = max_comm a.x b.x i; y = max_comm a.y b.y i; z = max_comm a.z b.z i },
)

abbrev between : ℤ → ℤ → ℤ → Bool
between lo hi k = leb_ℤ lo k && leb_ℤ k hi

-- A location is in the dimension and, on each axis, between the two corners.
unfoldable pub in_box : String → Position → Position → BlockLocation → Bool
in_box dimension a b loc =
    loc.dimension == dimension
    && (between (min_ℤ a.x b.x) (max_ℤ a.x b.x) loc.x
        && (between (min_ℤ a.y b.y) (max_ℤ a.y b.y) loc.y
            && between (min_ℤ a.z b.z) (max_ℤ a.z b.z) loc.z))

contains-append {ℓ} :
    {A : Type ℓ} ⦃e : Eq A⦄ (a : A) (xs ys : List A)
    → contains (xs ++ ys) a ≡ (contains xs a || contains ys a)
contains-append a [] ys = refl
contains-append a (x ∷ xs) ys = ground (arith, contains-append a xs ys)

contains-flat_map :
    (loc : BlockLocation) (k : ℤ) (p q : Bool) (f : ℤ → List BlockLocation) (ks : List ℤ)
    → ((j : ℤ) → contains (f j) loc ≡ (p && (k == j && q)))
    → contains (flat_map f ks) loc ≡ (p && (contains ks k && q))
unfolding flat_map
contains-flat_map loc k p q f [] h = ground arith
contains-flat_map loc k p q f (j ∷ ks) h =
    ground
      (arith, h j, contains-append loc (f j) (flat_map f ks), contains-flat_map loc k p q f ks h)

contains-count_up :
    (k lo : ℤ) (n : ℕ) → contains (count_up lo n) k ≡ (leb_ℤ lo k && ltb_ℤ k (lo +ℤ pos n))
unfolding count_up
contains-count_up k lo zero = ground (arith, +ℤ_parts lo (pos 0))
contains-count_up k lo (suc n) = ground (
  arith,
  contains-count_up k (lo +ℤ pos 1) n,
  +ℤ_parts lo (pos 1),
  +ℤ_parts lo (pos (suc n)),
  +ℤ_parts (lo +ℤ pos 1) (pos n),
  eq_of_parts k lo,
)

contains-range : (k lo hi : ℤ) → lo ≤ℤ hi → contains (range lo (hi +ℤ pos 1)) k ≡ between lo hi k
unfolding range
contains-range k lo hi h =
    let n = pos_part (hi +ℤ pos 1 -ℤ lo) in
    ground (
      arith,
      contains-count_up k lo n,
      +ℤ_parts lo (pos n),
      +ℤ_parts hi (pos 1),
      -ℤ_parts (hi +ℤ pos 1) lo,
    )

contains-row :
    (loc : BlockLocation) (dimension : String) (x y : ℤ) (zs : List ℤ)
    → contains (map (λ z. record { dimension = dimension; x = x; y = y; z = z }) zs) loc
      ≡ ((loc.dimension == dimension && loc.x == x) && (loc.y == y && contains zs loc.z))
contains-row loc dimension x y [] = ground arith
contains-row loc dimension x y (z ∷ zs) = ground (arith, contains-row loc dimension x y zs)

and_assoc : (a b c : Bool) → ((a && b) && c) ≡ (a && (b && c))
and_assoc true b c = refl
and_assoc false b c = refl

min-le-max : (a b : ℤ) → min_ℤ a b ≤ℤ max_ℤ a b
unfolding min_ℤ max_ℤ
min-le-max a b = ground arith

pub contains-locations :
    (dimension : String) (a b : Position) (loc : BlockLocation)
    → contains (locations dimension (lower a b) (upper a b)) loc ≡ in_box dimension a b loc
unfolding locations lower upper in_box
contains-locations dimension a b loc =
    let same = loc.dimension == dimension in
    let ys = range (lower a b).y ((upper a b).y +ℤ pos 1) in
    let zs = range (lower a b).z ((upper a b).z +ℤ pos 1) in
    contains-flat_map loc loc.x same (contains ys loc.y && contains zs loc.z) _ _ (λ x.
      contains-flat_map loc loc.y (same && loc.x == x) (contains zs loc.z) _ ys
        (λ y. contains-row loc dimension x y zs)
      ∙ and_assoc same (loc.x == x) (contains ys loc.y && contains zs loc.z))
    ∙ rw (
      contains-range loc.x (min_ℤ a.x b.x) (max_ℤ a.x b.x) (min-le-max a.x b.x),
      contains-range loc.y (min_ℤ a.y b.y) (max_ℤ a.y b.y) (min-le-max a.y b.y),
      contains-range loc.z (min_ℤ a.z b.z) (max_ℤ a.z b.z) (min-le-max a.z b.z),
    )
