-- ===== src/Repositories/Products/Names.antt =====
-- The distinct names of the products, in their order.
use Prim.Native.Char.{code}
use mathlib.Core.Path.{subst}
use text.Mathlib.TextEquality.{Char-path}
use coffee_shop_api.Prelude.{
  ℕ, zero, suc, ◌+◌, take, drop, ◌≡◌, refl, sym, ap, ◌∙◌, ◌⊎◌, inl, inr, String, Bool, true, false,
  ◌||◌, Bool-cases, List, [], ◌∷◌, ltb, str_eq, eq_iff, any, All, arith, if◌then◌else◌,
}
use coffee_shop_api.Database.{ProductRow}
use coffee_shop_api.Repositories.Products.{before, is_named, insert_name, distinct_names}

before_irrefl : (s : String) → before s s ≡ false
unfolding before
before_irrefl String.[] = refl
before_irrefl (String.◌∷◌ c s) = ground (arith, before_irrefl s)

before_trans : (s t u : String) → before s t ≡ true → before t u ≡ true → before s u ≡ true
unfolding before
before_trans String.[] String.[] u h k = absurd (cc (h))
before_trans String.[] (String.◌∷◌ d t) String.[] h k = absurd (cc (k))
before_trans String.[] (String.◌∷◌ d t) (String.◌∷◌ e u) h k = refl
before_trans (String.◌∷◌ c s) String.[] u h k = absurd (cc (h))
before_trans (String.◌∷◌ c s) (String.◌∷◌ d t) String.[] h k = absurd (cc (k))
before_trans (String.◌∷◌ c s) (String.◌∷◌ d t) (String.◌∷◌ e u) h k =
    let rest = before_trans s t u in ground (arith, rest)

before_total : (s t : String) → before s t ≡ false → (s ≡ t) ⊎ (before t s ≡ true)
unfolding before
before_total String.[] String.[] h = inl refl
before_total String.[] (String.◌∷◌ d t) h = absurd (cc (h))
before_total (String.◌∷◌ c s) String.[] h = inr refl
before_total (String.◌∷◌ c s) (String.◌∷◌ d t) h = elim (Bool-cases (ltb (code c) (code d))) [
  | inl lower ↦ absurd (ground (arith, h, lower))
  | inr not_lower ↦ elim (Bool-cases (ltb (code d) (code c))) [
    | inl higher ↦ inr (ground (arith, higher))
    | inr not_higher ↦
        let same : c ≡ d = Char-path c d (ground (arith, not_lower, not_higher)) in
        elim (before_total s t (ground (arith, h, not_lower, not_higher))) [
          | inl rest ↦ inl (ap (λ x. String.◌∷◌ x s) same ∙ ap (String.◌∷◌ d) rest)
          | inr later ↦ inr (ground (arith, not_lower, not_higher, later))
        ]
  ]
]

-- each name is before all that follow
abbrev pub Sorted : List String → Type 0
Sorted [] = Unit
Sorted (t ∷ ts) = All (λ u. before t u ≡ true) ts × Sorted ts

all_after :
    (s t : String) (us : List String)
    → before s t ≡ true
    → All (λ u. before t u ≡ true) us
    → All (λ u. before s u ≡ true) us
all_after s t [] h k = tt
all_after s t (u ∷ us) h k = (before_trans s t u h k.0, all_after s t us h k.1)

insert_name-after :
    (t s : String) (us : List String)
    → before t s ≡ true
    → All (λ u. before t u ≡ true) us
    → All (λ u. before t u ≡ true) (insert_name s us)
unfolding insert_name
insert_name-after t s [] h k = (h, tt)
insert_name-after t s (u ∷ us) h k = elim (Bool-cases (str_eq s u)) [
  | inl same ↦ rw same k
  | inr other ↦ elim (Bool-cases (before s u)) [
    | inl first ↦ rw (other, first) (h, k)
    | inr later ↦ rw (other, later) (k.0, insert_name-after t s us h k.1)
  ]
]

insert_name-Sorted : (s : String) (ts : List String) → Sorted ts → Sorted (insert_name s ts)
unfolding insert_name
insert_name-Sorted s [] h = (tt, tt)
insert_name-Sorted s (t ∷ ts) h = elim (Bool-cases (str_eq s t)) [
  | inl same ↦ rw same h
  | inr other ↦ elim (Bool-cases (before s t)) [
    | inl first ↦ rw (other, first) ((first, all_after s t ts first h.0), h)
    | inr later ↦
        let behind : before t s ≡ true = elim (before_total s t later) [
          | inl equal ↦ absurd (let known = (eq_iff s t).1 equal in cc (known, other))
          | inr h ↦ h
        ] in
        rw (other, later) (insert_name-after t s ts behind h.0, insert_name-Sorted s ts h.1)
  ]
]

pub distinct_names-Sorted : (rows : List ProductRow) → Sorted (distinct_names rows)
unfolding distinct_names
distinct_names-Sorted [] = tt
distinct_names-Sorted (r ∷ rows) =
    insert_name-Sorted r.name (distinct_names rows) (distinct_names-Sorted rows)

twice_or : (a b : Bool) → (a || b) ≡ (a || (a || b))
twice_or true b = refl
twice_or false b = refl

-- a name that is inserted is there, and so are the others
insert_name-has :
    (x s : String) (ts : List String)
    → any (λ u. str_eq u x) (insert_name s ts) ≡ (str_eq s x || any (λ u. str_eq u x) ts)
unfolding insert_name
insert_name-has x s [] = refl
insert_name-has x s (t ∷ ts) = elim (Bool-cases (str_eq s t)) [
  | inl same ↦
      let equal = (eq_iff s t).0 same in
      rw (same, equal) (twice_or (str_eq t x) (any (λ u. str_eq u x) ts))
  | inr other ↦ elim (Bool-cases (before s t)) [
    | inl first ↦ rw (other, first) refl
    | inr later ↦ rw (other, later) (ground (arith, insert_name-has x s ts))
  ]
]

still_has :
    (s : String) (names : List String) (rows : List ProductRow)
    → All (λ r. is_named names r ≡ true) rows
    → All (λ r. is_named (insert_name s names) r ≡ true) rows
still_has s names [] h = tt
still_has s names (r ∷ rows) h =
    (ground (arith, insert_name-has r.name s names, h.0), still_has s names rows h.1)

pub distinct_names-has :
    (rows : List ProductRow) → All (λ r. is_named (distinct_names rows) r ≡ true) rows
unfolding distinct_names
distinct_names-has [] = tt
distinct_names-has (r ∷ rows) = (
  insert_name-has r.name r.name (distinct_names rows)
      ∙ ap (λ b. b || is_named (distinct_names rows) r) ((eq_iff r.name r.name).1 refl),
  still_has r.name (distinct_names rows) rows (distinct_names-has rows),
)

-- a name that sorts before the others is none of them
absent :
    (t x : String) (ts : List String)
    → All (λ u. before t u ≡ true) ts
    → str_eq t x ≡ true
    → any (λ u. str_eq u x) ts ≡ false
absent t x [] h e = refl
absent t x (u ∷ ts) h e = elim (Bool-cases (str_eq u x)) [
  | inl same ↦ absurd (
      let equal : t ≡ u = (eq_iff t x).0 e ∙ sym ((eq_iff u x).0 same) in
      let never : before t t ≡ true = subst (λ y. before t y ≡ true) (sym equal) h.0 in
      cc (never, before_irrefl t))
  | inr other ↦ ground (arith, absent t x ts h.1 e)
]

any-take :
    (f : String → Bool) (n : ℕ) (ts : List String) → any f ts ≡ false → any f (take n ts) ≡ false
any-take f zero ts h = refl
any-take f (suc n) [] h = refl
any-take f (suc n) (t ∷ ts) h = ground (arith, any-take f n ts)

any-drop :
    (f : String → Bool) (n : ℕ) (ts : List String) → any f ts ≡ false → any f (drop n ts) ≡ false
any-drop f zero ts h = h
any-drop f (suc n) [] h = refl
any-drop f (suc n) (t ∷ ts) h = any-drop f n ts (ground arith)

pub Sorted-drop : (n : ℕ) (ts : List String) → Sorted ts → Sorted (drop n ts)
Sorted-drop zero ts h = h
Sorted-drop (suc n) [] h = tt
Sorted-drop (suc n) (t ∷ ts) h = Sorted-drop n ts h.1

-- 1 where a product has one of some names
abbrev pub hits : List String → ProductRow → ℕ
hits names r = if is_named names r then 1 else 0

-- a product is on one page, if its name is in the list
pub hits-page :
    (n : ℕ) (ts : List String) (r : ProductRow)
    → Sorted ts
    → hits (take n ts) r + hits (drop n ts) r ≡ hits ts r
hits-page zero ts r h = omega arith
hits-page (suc n) [] r h = omega arith
hits-page (suc n) (t ∷ ts) r h = elim (Bool-cases (str_eq t r.name)) [
  | inl same ↦
      let none_left = absent t r.name ts h.0 same in
      rw (same, any-drop (λ u. str_eq u r.name) n ts none_left) (omega arith)
  | inr other ↦ rw other (hits-page n ts r h.1)
]
