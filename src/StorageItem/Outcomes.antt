-- ===== src/StorageItem/Outcomes.antt =====
-- Inversion of the statements of `validate_storage_item` of storage_item.py.
use mathlib.Core.Option
use mathlib.Core.Logic.{◌⊎◌, inl, inr}
use endstone_blockdata_api.Base.{
  ℕ, ◌≤◌, ◌<◌, ◌≡◌, refl, ap, Bool, true, false, Option, none, some, Result, ok, err, nat_eq,
  string_eq, arith, Error,
}
use endstone_blockdata_api.Base.Int.{ℤ, pos, negsuc}
use endstone_blockdata_api.Nbt.{Value, int}
use endstone_blockdata_api.StorageItem.Rules.{int_between, int_below}
use endstone_blockdata_api.StorageItem.Validate.{
  StorageItemValidation, is_ok, Outcome, raises, returns, goes_on, ◌>>=◌, check, expect, call, both,
  finish,
}

pub int_between-eq_some :
    (lo hi : ℕ) (v : Value) (n : ℕ)
    → int_between lo hi v ≡ some n
    → (v ≡ int (pos n)) × (lo ≤ n) × (n ≤ hi)
unfolding int_between
int_between-eq_some lo hi v n h = ground arith

pub int_between-some : (lo hi n : ℕ) → lo ≤ n → n ≤ hi → int_between lo hi (int (pos n)) ≡ some n
unfolding int_between
int_between-some lo hi n below above = ground arith

pub int_below-eq_some :
    (hi : ℕ) (place : ℤ) (n : ℕ) → int_below hi (int place) ≡ some n → (place ≡ pos n) × (n < hi)
unfolding int_below
int_below-eq_some hi (pos m) n h = ground arith
int_below-eq_some hi (negsuc m) n h = ground arith

pub int_below-some : (hi n : ℕ) → n < hi → int_below hi (int (pos n)) ≡ some n
unfolding int_below
int_below-some hi n h = ground arith

-- A sequence that went on, or that returned, by its first statement.
module _ {ℓ κ} {A : Type ℓ} {B : Type κ} (next : A → Outcome B) where
  pub >>=-goes_on :
      (m : Outcome A) (b : B)
      → (m >>= next) ≡ goes_on b
      → (a : A) × (m ≡ goes_on a) × (next a ≡ goes_on b)
  >>=-goes_on (goes_on a) b h = (a, refl, h)
  >>=-goes_on (returns v) b h = cc
  >>=-goes_on (raises e) b h = cc

  pub expect-goes_on :
      (o : Option A) (r : StorageItemValidation) (b : B)
      → (expect o r >>= next) ≡ goes_on b
      → (a : A) × (o ≡ some a) × (next a ≡ goes_on b)
  expect-goes_on (some a) r b h = (a, refl, h)
  expect-goes_on none r b h = cc

  pub call-goes_on :
      (m : Result A) (b : B)
      → (call m >>= next) ≡ goes_on b
      → (a : A) × (m ≡ ok a) × (next a ≡ goes_on b)
  call-goes_on (ok a) b h = (a, refl, h)
  call-goes_on (err e) b h = cc

pub goes_on_injective {ℓ} : {A : Type ℓ} (a b : A) → goes_on a ≡ goes_on b → a ≡ b
goes_on_injective a b h = cc

pub goes_on_parts : (p q : ℕ × Bool) → goes_on p ≡ goes_on q → (p.0 ≡ q.0) × (p.1 ≡ q.1)
goes_on_parts p q h =
    (ap (λ x. x.0) (goes_on_injective p q h), ap (λ x. x.1) (goes_on_injective p q h))

pub finish-ok : (w : ℕ) (e : Bool) → is_ok (finish w e) ≡ true
unfolding is_ok
finish-ok w true = refl
finish-ok w false = refl

pub finish-used : (w : ℕ) (e : Bool) → (finish w e).used_weight ≡ w
finish-used w true = refl
finish-used w false = refl

pub finish-exact : (w : ℕ) (e : Bool) → (finish w e).exact_weight ≡ e
finish-exact w true = refl
finish-exact w false = refl

module _ {κ} {B : Type κ} (next : Outcome B) where
  pub check-goes_on :
      (t : Bool) (r : StorageItemValidation) (b : B)
      → (check t r >>= λ _. next) ≡ goes_on b
      → (t ≡ true) × (next ≡ goes_on b)
  check-goes_on true r b h = (refl, h)
  check-goes_on false r b h = cc

-- What a statement returns at once is never an acceptance.
abbrev pub Refuses {ℓ} : {A : Type ℓ} → Outcome A → Type ℓ
Refuses m = (r : StorageItemValidation) → m ≡ returns r → is_ok r ≡ false

module _ {ℓ κ} {A : Type ℓ} {B : Type κ} (next : A → Outcome B) where
  pub >>=-Refuses :
      (m : Outcome A) → Refuses m → ((a : A) → Refuses (next a)) → Refuses (m >>= next)
  >>=-Refuses (goes_on a) first later r h = later a r h
  >>=-Refuses (returns v) first later r h = first r cc
  >>=-Refuses (raises e) first later r h = cc

  pub expect-Refuses :
      (o : Option A) (r : StorageItemValidation)
      → is_ok r ≡ false
      → ((a : A) → Refuses (next a))
      → Refuses (expect o r >>= next)
  expect-Refuses (some a) r refused later s h = later a s h
  expect-Refuses none r refused later s h = cc

pub check-Refuses {κ} :
    {B : Type κ} (next : Outcome B) (t : Bool) (r : StorageItemValidation)
    → is_ok r ≡ false
    → Refuses next
    → Refuses (check t r >>= λ _. next)
check-Refuses next true r refused later s h = later s h
check-Refuses next false r refused later s h = cc

pub goes_on-Refuses {κ} : {B : Type κ} (b : B) → Refuses (goes_on b)
goes_on-Refuses b r h = cc

pub Outcome-cases {ℓ} :
    {A : Type ℓ} (m : Outcome A)
    → ((e : Error) × (m ≡ raises e))
      ⊎ (((r : StorageItemValidation) × (m ≡ returns r)) ⊎ ((a : A) × (m ≡ goes_on a)))
Outcome-cases (raises e) = inl (e, refl)
Outcome-cases (returns r) = inr (inl (r, refl))
Outcome-cases (goes_on a) = inr (inr (a, refl))

-- Two results that are both there.
pub both-eq_some :
    {A : Type 0} {B : Type 0} (o : Option A) (p : Option B) (q : A × B)
    → both o p ≡ some q
    → (o ≡ some q.0) × (p ≡ some q.1)
both-eq_some (some c) (some d) q h = (ap (Option.map (λ x. x.0)) h, ap (Option.map (λ x. x.1)) h)
both-eq_some none p q h = cc
both-eq_some (some c) none q h = cc
