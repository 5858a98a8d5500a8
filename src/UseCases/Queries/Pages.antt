-- ===== src/UseCases/Queries/Pages.antt =====
-- The pages of the menu: GetMenu on the product repository.
use mathlib.Core.List.{Permᴰ}
use coffee_shop_api.Prelude.{
  ℕ, zero, suc, ◌+◌, ◌*◌, ◌≤◌, ◌≡◌, refl, sym, ap, ◌∙◌, String, Bool, true, false, Bool-cases, inl,
  inr, List, [], ◌∷◌, map, select, take, drop, length, All, arith, if◌then◌else◌,
}
use coffee_shop_api.Entities.{Product, MenuItem, MenuVariation}
use coffee_shop_api.Database.{ProductRow}
use coffee_shop_api.Engine.{Engine, fetch_all}
use coffee_shop_api.App.{World, Result, ok, err, pure, bind-ok}
use coffee_shop_api.Repositories.Products.{
  to_entity, distinct_names, is_named, listed_page, list_all, product_repository,
}
use coffee_shop_api.Repositories.Products.Names.{
  Sorted, Sorted-drop, distinct_names-Sorted, distinct_names-has, hits, hits-page,
}
use coffee_shop_api.UseCases.Queries.{menu_variation, group_products, get_menu}
use coffee_shop_api.UseCases.Queries.Menu.{all_variations, count_if, count_if-group_products}

count_if-perm {ℓ} :
    {A : Type ℓ} (p : A → Bool) {xs ys : List A} → Permᴰ xs ys → count_if p xs ≡ count_if p ys
count_if-perm p Permᴰ.nil = refl
count_if-perm p (Permᴰ.cons {a} {b} e h) = let ih = count_if-perm p h in rw e (ground (arith, ih))
count_if-perm p (Permᴰ.swap e f) = rw (e, f) (ground arith)
count_if-perm p (Permᴰ.trans h k) = count_if-perm p h ∙ count_if-perm p k

count_if-map {ℓ κ} :
    {A : Type ℓ} {B : Type κ} (p : B → Bool) (f : A → B) (xs : List A)
    → count_if p (map f xs) ≡ count_if (λ x. p (f x)) xs
count_if-map p f [] = refl
count_if-map p f (x ∷ xs) = let ih = count_if-map p f xs in ground (arith, ih)

module _ (p : ProductRow → Bool) where
  abbrev named_count : List String → List ProductRow → ℕ
  named_count names rows = count_if p (select (is_named names) rows)

  named_count-cons :
      (names : List String) (r : ProductRow) (rows : List ProductRow) (b : Bool)
      → p r ≡ b
      → named_count names (r ∷ rows) ≡ (if b then hits names r else 0) + named_count names rows
  named_count-cons names r rows b e = elim (Bool-cases (is_named names r)) [
    | inl named ↦ rw named (ground arith)
    | inr other ↦ rw other (ground arith)
  ]

  named_count-page :
      (n : ℕ) (ts : List String) (rows : List ProductRow)
      → Sorted ts
      → named_count (take n ts) rows + named_count (drop n ts) rows ≡ named_count ts rows
  named_count-page n ts [] h = omega arith
  named_count-page n ts (r ∷ rows) h = elim (Bool-cases (p r)) [
    | inl counted ↦ omega (
      arith,
      named_count-page n ts rows h,
      hits-page n ts r h,
      named_count-cons (take n ts) r rows true counted,
      named_count-cons (drop n ts) r rows true counted,
      named_count-cons ts r rows true counted,
    )
    | inr other ↦ omega (
      arith,
      named_count-page n ts rows h,
      named_count-cons (take n ts) r rows false other,
      named_count-cons (drop n ts) r rows false other,
      named_count-cons ts r rows false other,
    )
  ]

  named_count-all :
      (names : List String) (rows : List ProductRow)
      → All (λ r. is_named names r ≡ true) rows
      → named_count names rows ≡ count_if p rows
  named_count-all names [] h = refl
  named_count-all names (r ∷ rows) h =
      let ih = named_count-all names rows h.1 in rw h.0 (ground (arith, ih))

drop-nil : (n : ℕ) → drop {A = String} n [] ≡ []
drop-nil zero = refl
drop-nil (suc n) = refl

drop-drop : (m n : ℕ) (ts : List String) → drop n (drop m ts) ≡ drop (m + n) ts
drop-drop zero n ts = let e : 0 + n ≡ n = omega arith in rw e refl
drop-drop (suc m) n [] = drop-nil n ∙ sym (drop-nil (suc m + n))
drop-drop (suc m) n (t ∷ ts) =
    let e : suc m + n ≡ suc (m + n) = omega arith in rw e (drop-drop m n ts)

drop-all : (n : ℕ) (ts : List String) → length ts ≤ n → drop n ts ≡ []
drop-all n [] h = drop-nil n
drop-all zero (t ∷ ts) h = absurd (omega arith)
drop-all (suc n) (t ∷ ts) h = drop-all n ts (omega arith)

none_named : (rows : List ProductRow) → select (is_named []) rows ≡ []
none_named [] = refl
none_named (r ∷ rows) = none_named rows

-- the items of an answer
abbrev pub items_of : Result (List MenuItem × ℕ) × World → List MenuItem
items_of (ok (items, _), _) = items
items_of (err _, _) = []

module _ (engine : Engine) where
  -- the products of a page of names
  abbrev page : List String → World → List Product
  page names w = map to_entity (fetch_all engine (is_named names) w.db.products)

  listed_page-eq :
      (names : List String) (total : ℕ) (w : World)
      → (products : List Product) × (listed_page engine total names w ≡ (ok (products, total), w))
        × ((q : Product → Bool)
            → count_if q products
              ≡ count_if (λ r. q (to_entity r)) (select (is_named names) w.db.products))
  unfolding listed_page
  listed_page-eq [] total w =
      ([], refl, λ q. sym (ap (count_if (λ r. q (to_entity r))) (none_named w.db.products)))
  listed_page-eq (name ∷ more) total w = (
    page (name ∷ more) w,
    refl,
    λ q.
        count_if-map q to_entity (fetch_all engine (is_named (name ∷ more)) w.db.products)
        ∙ count_if-perm (λ r. q (to_entity r))
            (engine.scan_perm ProductRow (select (is_named (name ∷ more)) w.db.products)),
  )

  module _ (q : MenuVariation → Bool) where
    abbrev as_row : ProductRow → Bool
    as_row r = q (menu_variation (to_entity r))

    get_menu-page :
        (offset limit : ℕ) (w : World)
        → count_if q
            (all_variations (items_of (get_menu (product_repository engine) offset limit w)))
          ≡ named_count as_row
              (take limit (drop offset (distinct_names w.db.products)))
              w.db.products
    unfolding get_menu list_all
    get_menu-page offset limit w =
        let names = distinct_names w.db.products in
        let (products, listed, counted) =
          listed_page-eq (take limit (drop offset names)) (length names) w in
        ap (λ (o : Result (List MenuItem × ℕ) × World). count_if q (all_variations (items_of o)))
          (bind-ok (list_all engine offset limit)
            (λ (found : List Product × ℕ). pure (group_products [] found.0, found.1)) w
            (products, length names) w listed)
        ∙ count_if-group_products q products
        ∙ count_if-map q menu_variation products
        ∙ counted (λ p. q (menu_variation p))

    -- the variations on some pages, from an offset on
    abbrev pub on_pages : ℕ → ℕ → ℕ → World → ℕ
    on_pages zero size offset w = 0
    on_pages (suc k) size offset w =
        count_if q (all_variations (items_of (get_menu (product_repository engine) offset size w)))
        + on_pages k size (offset + size) w

    pages_from :
        (k size offset : ℕ) (w : World)
        → let names = distinct_names w.db.products in
          on_pages k size offset w
            + named_count as_row (drop (offset + k * size) names) w.db.products
          ≡ named_count as_row (drop offset names) w.db.products
    pages_from zero size offset w =
        let e : offset + 0 * size ≡ offset = omega arith in rw e (omega arith)
    pages_from (suc k) size offset w =
        let names = distinct_names w.db.products in
        let e : offset + suc k * size ≡ offset + size + k * size = omega arith in
        let cut = ap (λ ns. named_count as_row ns w.db.products) (drop-drop offset size names) in
        rw e (
          omega (
            arith,
            pages_from k size (offset + size) w,
            get_menu-page offset size w,
            named_count-page as_row size (drop offset names) w.db.products
                (Sorted-drop offset names (distinct_names-Sorted w.db.products)),
            cut,
          ))

    -- Reading the menu page by page, in a state that does not change, gives every product exactly
    -- once: let the pages be as many as the distinct names need. Then whatever is asked of a
    -- variation, the pages together hold as many variations for which it holds as the table holds
    -- products for which it does, in whatever order the database returns its rows.
    pub get_menu-pages :
        (k size : ℕ) (w : World)
        → length (distinct_names w.db.products) ≤ k * size
        → on_pages k size 0 w ≡ count_if q (map (λ r. menu_variation (to_entity r)) w.db.products)
    get_menu-pages k size w enough =
        let names = distinct_names w.db.products in
        let z : 0 + k * size ≡ k * size = omega arith in
        let last : named_count as_row (drop (0 + k * size) names) w.db.products ≡ 0 =
          ap (λ n. named_count as_row (drop n names) w.db.products) z
          ∙ ap (λ ns. named_count as_row ns w.db.products) (drop-all (k * size) names enough)
          ∙ ap (count_if as_row) (none_named w.db.products) in
        omega (
          arith,
          pages_from k size 0 w,
          last,
          named_count-all as_row names w.db.products (distinct_names-has w.db.products),
          count_if-map q (λ r. menu_variation (to_entity r)) w.db.products,
        )
