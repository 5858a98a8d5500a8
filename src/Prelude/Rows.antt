-- ===== src/Prelude/Rows.antt =====
-- What adding, deleting and changing rows keeps: a predicate on every row, and that no two clash.
use Prim.Native.Nat.{ℕ, zero, suc}
use mathlib.Core.Path.{◌≡◌, refl, sym, ◌∙◌, subst}
use mathlib.Core.Bool.{Bool, true, false}
use mathlib.Core.List.{List, [], ◌∷◌, ◌++◌, map, Permᴰ}
use native.Mathlib.Omega.{arith}
use coffee_shop_api.Prelude.Tests.{if◌then◌else◌}
use coffee_shop_api.Prelude.Lists.{take, drop, select, any, All, Distinct}

module _ {ℓ κ μ} {A : Type ℓ} (Q : A → Type κ) (R : A → Type μ) where
  pub All-map : ((x : A) → Q x → R x) → (xs : List A) → All Q xs → All R xs
  All-map f [] h = tt
  All-map f (x ∷ xs) h = (f x h.0, All-map f xs h.1)

module _ {ℓ κ} {A : Type ℓ} (Q : A → Type κ) where
  pub All_last : (xs : List A) (x : A) → All Q xs → Q x → All Q (xs ++ x ∷ [])
  All_last [] x h q = (q, tt)
  All_last (y ∷ xs) x h q = (h.0, All_last xs x h.1 q)

  -- what holds of each row, before and after a change of each row
  pub All-update :
      (f : A → A) → ((x : A) → Q x → Q (f x)) → (xs : List A) → All Q xs → All Q (map f xs)
  All-update f k [] h = tt
  All-update f k (x ∷ xs) h = (k x h.0, All-update f k xs h.1)

  All-picked : (b : Bool) (x : A) (ys : List A) → Q x → All Q ys → All Q (if b then x ∷ ys else ys)
  All-picked true x ys q h = (q, h)
  All-picked false x ys q h = h

  pub All-selected : (p : A → Bool) (xs : List A) → All Q xs → All Q (select p xs)
  All-selected p [] h = tt
  All-selected p (x ∷ xs) h = All-picked (p x) x (select p xs) h.0 (All-selected p xs h.1)

module _ {ℓ} {A : Type ℓ} where
  pub any-update :
      (q r : A → Bool) (f : A → A)
      → ((x : A) → q (f x) ≡ r x)
      → (xs : List A) → any q (map f xs) ≡ any r xs
  any-update q r f k [] = refl
  any-update q r f k (x ∷ xs) = ground (arith, k x, any-update q r f k xs)

  any-select : (q p : A → Bool) (xs : List A) → any q xs ≡ false → any q (select p xs) ≡ false
  any-select q p [] h = refl
  any-select q p (x ∷ xs) h = ground (arith, any-select q p xs)

module _ {ℓ} {A : Type ℓ} (clash : A → A → Bool) where
  Distinct-if :
      (b : Bool) (x : A) (ys : List A)
      → any (clash x) ys ≡ false
      → Distinct clash ys
      → Distinct clash (if b then x ∷ ys else ys)
  Distinct-if true x ys e rest = (e, rest)
  Distinct-if false x ys e rest = rest

  pub Distinct-select :
      (p : A → Bool) (xs : List A) → Distinct clash xs → Distinct clash (select p xs)
  Distinct-select p [] d = tt
  Distinct-select p (x ∷ xs) d =
      Distinct-if (p x) x (select p xs) (any-select (clash x) p xs d.0) (Distinct-select p xs d.1)

  -- a change that clashing does not see
  pub Distinct-update :
      (f : A → A)
      → ((x y : A) → clash (f x) (f y) ≡ clash x y)
      → (xs : List A) → Distinct clash xs
      → Distinct clash (map f xs)
  Distinct-update f k [] d = tt
  Distinct-update f k (x ∷ xs) d =
      (any-update (clash (f x)) (clash x) f (k x) xs ∙ d.0, Distinct-update f k xs d.1)

-- reordering and cutting out a page keep a predicate on every row
pub All-perm {ℓ κ} :
    {A : Type ℓ} (P : A → Type κ) {xs ys : List A} → Permᴰ xs ys → All P ys → All P xs
All-perm P Permᴰ.nil h = h
All-perm P (Permᴰ.cons p q) h = (subst P (sym p) h.0, All-perm P q h.1)
All-perm P (Permᴰ.swap p q) h = (subst P (sym p) h.1.0, (subst P (sym q) h.0, h.1.1))
All-perm P (Permᴰ.trans p q) h = All-perm P p (All-perm P q h)

pub All-take {ℓ κ} :
    {A : Type ℓ} (P : A → Type κ) (n : ℕ) (xs : List A) → All P xs → All P (take n xs)
All-take P zero xs h = tt
All-take P (suc n) [] h = tt
All-take P (suc n) (x ∷ xs) h = (h.0, All-take P n xs h.1)

pub All-drop {ℓ κ} :
    {A : Type ℓ} (P : A → Type κ) (n : ℕ) (xs : List A) → All P xs → All P (drop n xs)
All-drop P zero xs h = h
All-drop P (suc n) [] h = tt
All-drop P (suc n) (x ∷ xs) h = All-drop P n xs h.1

pub All-append {ℓ κ} :
    {A : Type ℓ} (Q : A → Type κ) (xs ys : List A) → All Q xs → All Q ys → All Q (xs ++ ys)
All-append Q [] ys h k = k
All-append Q (x ∷ xs) ys h k = (h.0, All-append Q xs ys h.1 k)
