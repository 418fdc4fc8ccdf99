-- ===== src/Base/Errors.antt =====
-- Python's exceptions as values: a call that may raise returns a `Result`.
use Prim.Native.String.{String}
use mathlib.Core.Path.{◌≡◌, refl, subst}
use mathlib.Core.Logic.{◌⊎◌, inl, inr}
use mathlib.Core.Bool.{Bool, true, false}
use mathlib.Core.List.{List, [], ◌∷◌}
use endstone_blockdata_api.Base.Lists.{All}

-- The exception classes that the code raises, each with its message.
pub data Error : Type 0 where
  value_error type_error index_error key_error runtime_error attribute_error : String → Error

-- What a call gives back: the exception it raised, or the value it returned.
pub data Result {ℓ} (R : Type ℓ) : Type ℓ where
  err : (raised : Error) → Result R
  ok : (returned : R) → Result R

infixl 5 ◌>>=◌
module _ {ℓ κ} {R : Type ℓ} {S : Type κ} where
  -- A statement after one that may raise.
  abbrev pub ◌>>=◌ : (first : Result R) (then : R → Result S) → Result S
  ◌>>=◌ (err raised) then = err raised
  ◌>>=◌ (ok returned) then = then returned

module _ {ℓ κ} {R : Type ℓ} {S : Type κ} where
  -- Inversion of a sequence that returned, for proofs where the parts stay shut.
  pub >>=-eq-ok :
      (first : Result R) (then : R → Result S) {last : S} (returns : (first >>= then) ≡ ok last)
      → (v : R) × (first ≡ ok v) × (then v ≡ ok last)
  >>=-eq-ok (err raised) then returns = cc
  >>=-eq-ok (ok returned) then returns = (returned, refl, returns)

infixl 5 ◌>>◌
abbrev pub ◌>>◌ {κ} : {S : Type κ} (first : Result (Unit {0})) (second : Result S) → Result S
◌>>◌ first second = first >>= λ _. second

-- `if not test: raise error`
abbrev pub require : (test : Bool) (error : Error) → Result (Unit {0})
require false error = err error
require true error = ok tt

pub ok_injective {ℓ} : {A : Type ℓ} (a b : A) → ok a ≡ ok b → a ≡ b
ok_injective a b h = cc

-- A comprehension whose element may raise.
unfoldable pub map_result {ℓ κ} :
    {A : Type ℓ} {B : Type κ} → (A → Result B) → List A → Result (List B)
map_result f [] = ok []
map_result f (x ∷ xs) = do y ← f x; ys ← map_result f xs; ok (y ∷ ys)

-- What a returned value is turned into; an exception passes.
abbrev pub then_return {ℓ κ} : {A : Type ℓ} {B : Type κ} → (A → B) → Result A → Result B
then_return f (ok a) = ok (f a)
then_return f (err e) = err e

pub Result-cases {ℓ} :
    {A : Type ℓ} (m : Result A) → ((a : A) × (m ≡ ok a)) ⊎ ((e : Error) × (m ≡ err e))
Result-cases (ok a) = inl (a, refl)
Result-cases (err e) = inr (e, refl)

pub require-ok : (b : Bool) (e : Error) (u : Unit {0}) → require b e ≡ ok u → b ≡ true
require-ok true e u h = refl
require-ok false e u h = cc

-- Inversion of a comprehension that returned.
pub map_result-cons {ℓ κ} :
    {A : Type ℓ} {B : Type κ} (f : A → Result B) (x : A) (xs : List A) (zs : List B)
    → map_result f (x ∷ xs) ≡ ok zs
    → (y : B) × (ys : List B) × (f x ≡ ok y) × (map_result f xs ≡ ok ys) × (y ∷ ys ≡ zs)
unfolding map_result
map_result-cons f x xs zs h =
    let (y, head, rest) = >>=-eq-ok (f x) _ h in
    let (ys, tail, last) = >>=-eq-ok (map_result f xs) _ rest in
    (y, ys, head, tail, ok_injective (y ∷ ys) zs last)

pub map_result-All {ℓ κ μ} :
    {A : Type ℓ} {B : Type κ} (f : A → Result B) (P : B → Type μ)
    → ((x : A) (y : B) → f x ≡ ok y → P y)
    → (xs : List A) (ys : List B) → map_result f xs ≡ ok ys
    → All P ys
unfolding map_result
map_result-All f P step [] ys h = subst (All P) (ok_injective [] ys h) tt
map_result-All f P step (x ∷ xs) zs h =
    let (y, ys, head, tail, same) = map_result-cons f x xs zs h in
    subst (All P) same (step x y head, map_result-All f P step xs ys tail)
