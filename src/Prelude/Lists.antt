-- ===== src/Prelude/Lists.antt =====
-- Lists measured by native numbers, rows selected by a test, and predicates on every element.
use Prim.Native.Nat.{ℕ, zero, suc, ◌+◌, ◌≤◌}
use mathlib.Core.Path.{◌≡◌, refl, ap}
use mathlib.Core.Logic.{◌⊎◌, inl, inr}
use mathlib.Core.Bool.{Bool, true, false, ◌||◌}
use mathlib.Core.List.{List, [], ◌∷◌, ◌++◌, map}
use native.Mathlib.Omega.{arith}
use coffee_shop_api.Prelude.Tests.{◌==◌, Bool-cases, if◌then◌else◌}

module _ {ℓ} {A : Type ℓ} where
  abbrev pub length : List A → ℕ
  length [] = 0
  length (x ∷ xs) = suc (length xs)

  abbrev pub take : ℕ → List A → List A
  take zero xs = []
  take (suc n) [] = []
  take (suc n) (x ∷ xs) = x ∷ take n xs

  abbrev pub drop : ℕ → List A → List A
  drop zero xs = xs
  drop (suc n) [] = []
  drop (suc n) (x ∷ xs) = drop n xs

  -- `WHERE`: the rows that pass a test, in their order.
  abbrev pub select : (A → Bool) → List A → List A
  select p [] = []
  select p (x ∷ xs) = if p x then x ∷ select p xs else select p xs

  -- `any(p(x) for x in xs)`
  abbrev pub any : (A → Bool) → List A → Bool
  any p [] = false
  any p (x ∷ xs) = p x || any p xs

  abbrev pub All {κ} : (A → Type κ) → List A → Type κ
  All P [] = Unit
  All P (x ∷ xs) = P x × All P xs

  pub length-append : (xs ys : List A) → length (xs ++ ys) ≡ length xs + length ys
  length-append [] ys = omega arith
  length-append (x ∷ xs) ys = omega (arith, length-append xs ys)

  pub select-append :
      (p : A → Bool) (xs ys : List A) → select p (xs ++ ys) ≡ select p xs ++ select p ys
  select-append p [] ys = refl
  select-append p (x ∷ xs) ys = ground (arith, select-append p xs ys)

  -- no row passes a test that none of them passes
  pub select-eq-nil : (p : A → Bool) (xs : List A) → any p xs ≡ false → select p xs ≡ []
  select-eq-nil p [] h = refl
  select-eq-nil p (x ∷ xs) h = ground (arith, select-eq-nil p xs)

  pub select_last :
      (p : A → Bool) (xs : List A) (x : A)
      → any p xs ≡ false
      → p x ≡ true
      → select p (xs ++ x ∷ []) ≡ x ∷ []
  select_last p [] x h e = ground arith
  select_last p (y ∷ xs) x h e = ground (arith, select_last p xs x)

  pub any-append : (p : A → Bool) (xs ys : List A) → any p (xs ++ ys) ≡ (any p xs || any p ys)
  any-append p [] ys = refl
  any-append p (x ∷ xs) ys = ground (arith, any-append p xs ys)

  pub length-select-le : (p : A → Bool) (xs : List A) → length (select p xs) ≤ length xs
  length-select-le p [] = omega arith
  length-select-le p (x ∷ xs) = ground (arith, length-select-le p xs)

-- No two elements clash, as in a column with a UNIQUE constraint.
module _ {ℓ} {A : Type ℓ} (clash : A → A → Bool) where
  abbrev pub Distinct : List A → Type 0
  Distinct [] = Unit
  Distinct (x ∷ xs) = (any (clash x) xs ≡ false) × Distinct xs

  none_pass :
      (p : A → Bool) (x : A) (xs : List A)
      → ((y : A) → p y ≡ true → clash x y ≡ true)
      → any (clash x) xs ≡ false
      → any p xs ≡ false
  none_pass p x [] h e = refl
  none_pass p x (y ∷ xs) h e = elim (Bool-cases (p y)) [
    | inl hit ↦ ground (arith, h y hit)
    | inr miss ↦ ground (arith, none_pass p x xs h)
  ]

  pub Distinct-last :
      (xs : List A) (x : A)
      → Distinct xs
      → any (λ y. clash y x) xs ≡ false
      → Distinct (xs ++ x ∷ [])
  Distinct-last [] x d e = (refl, tt)
  Distinct-last (y ∷ xs) x d e =
      (ground (arith, any-append (clash y) xs (x ∷ []), d.0), Distinct-last xs x d.1 (ground arith))

  -- So a test that only clashing elements pass together is passed by one at most.
  pub select_one :
      (p : A → Bool)
      → ((x y : A) → p x ≡ true → p y ≡ true → clash x y ≡ true)
      → (xs : List A) → Distinct xs
      → (select p xs ≡ []) ⊎ ((x : A) × (select p xs ≡ x ∷ []))
  select_one p h [] d = inl refl
  select_one p h (x ∷ xs) d = elim (Bool-cases (p x)) [
    | inl hit ↦
        inr (x, rw hit (ap (◌∷◌ x) (select-eq-nil p xs (none_pass p x xs (λ y. h x y hit) d.0))))
    | inr miss ↦ rw miss (select_one p h xs d.1)
  ]

pub select_comm {ℓ} :
    {A : Type ℓ} (p q : A → Bool) (xs : List A) → select p (select q xs) ≡ select q (select p xs)
select_comm p q [] = refl
select_comm p q (x ∷ xs) = ground (arith, select_comm p q xs)

-- `k in xs`
abbrev pub elem : ℕ → List ℕ → Bool
elem k [] = false
elem k (x ∷ xs) = x == k || elem k xs

All-elem_cons :
    (x : ℕ) (xs ks : List ℕ) → All (λ k. elem k xs ≡ true) ks → All (λ k. elem k (x ∷ xs) ≡ true) ks
All-elem_cons x xs [] h = tt
All-elem_cons x xs (k ∷ ks) h = (ground arith, All-elem_cons x xs ks h.1)

pub All-elem_self : (xs : List ℕ) → All (λ k. elem k xs ≡ true) xs
All-elem_self [] = tt
All-elem_self (x ∷ xs) = (ground arith, All-elem_cons x xs xs (All-elem_self xs))

module _ {ℓ κ} {A : Type ℓ} {B : Type κ} where
  pub length-map : (xs : List A) (f : A → B) → length (map f xs) ≡ length xs
  length-map [] f = refl
  length-map (x ∷ xs) f = ap suc (length-map xs f)

module _ {ℓ κ} {A : Type ℓ} (Q : A → Type κ) where
  All-if :
      (b : Bool) (x : A) (xs : List A)
      → All Q (if b then x ∷ xs else xs)
      → (b ≡ true → Q x) × All Q xs
  All-if true x xs h = (λ _. h.0, h.1)
  All-if false x xs h = (λ e. absurd (cc), h)

  -- what holds of the selected rows, row by row
  pub All-select :
      (p : A → Bool) (xs : List A) → All Q (select p xs) → All (λ x. p x ≡ true → Q x) xs
  All-select p [] h = tt
  All-select p (x ∷ xs) h =
      let (now, rest) = All-if (p x) x (select p xs) h in (now, All-select p xs rest)

-- a test that passes less
pub any_weaken {ℓ} :
    {A : Type ℓ} (p q : A → Bool) (xs : List A)
    → ((x : A) → p x ≡ false → q x ≡ false)
    → any p xs ≡ false
    → any q xs ≡ false
any_weaken p q [] h e = refl
any_weaken p q (x ∷ xs) h e = ground (arith, h x, any_weaken p q xs h)

module _ {ℓ κ} {A : Type ℓ} (Q : A → Type κ) (p : A → Bool) (h : (x : A) → p x ≡ true → Q x) where
  All-kept :
      (b : Bool) (x : A) (xs : List A)
      → (b ≡ true → Q x)
      → All Q xs
      → All Q (if b then x ∷ xs else xs)
  All-kept true x xs now rest = (now refl, rest)
  All-kept false x xs now rest = rest

  -- what the test ensures holds of all the rows that it selects
  pub select-All : (xs : List A) → All Q (select p xs)
  select-All [] = tt
  select-All (x ∷ xs) = All-kept (p x) x (select p xs) (h x) (select-All xs)
