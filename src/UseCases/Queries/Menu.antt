-- ===== src/UseCases/Queries/Menu.antt =====
-- How the menu groups the products.
use coffee_shop_api.Prelude.{
  ℕ, ◌+◌, ◌≡◌, ap, ◌∙◌, Bool, Bool-cases, inl, inr, List, [], ◌∷◌, ◌++◌, map, select, length,
  select-append, length-append, arith,
}
use coffee_shop_api.Entities.{Product, MenuItem, MenuVariation}
use coffee_shop_api.UseCases.Queries.{menu_variation, same_key, append_variation, group_products}

-- the variations of all the items
abbrev pub all_variations : List MenuItem → List MenuVariation
all_variations [] = []
all_variations (item ∷ items) = item.variations ++ all_variations items

-- how many pass a test
abbrev pub count_if {ℓ} : {A : Type ℓ} → (A → Bool) → List A → ℕ
count_if q xs = length (select q xs)

count_if-append {ℓ} :
    {A : Type ℓ} (q : A → Bool) (xs ys : List A)
    → count_if q (xs ++ ys) ≡ count_if q xs + count_if q ys
count_if-append q xs ys =
    ap length (select-append q xs ys) ∙ length-append (select q xs) (select q ys)

module _ (q : MenuVariation → Bool) where
  count_if-append_variation :
      (p : Product) (items : List MenuItem)
      → count_if q (all_variations (append_variation p items))
        ≡ count_if q (menu_variation p ∷ []) + count_if q (all_variations items)
  unfolding append_variation
  count_if-append_variation p [] = omega arith
  count_if-append_variation p (item ∷ items) = elim (Bool-cases (same_key p item)) [
    | inl same ↦ rw same (
        omega (
          arith,
          count_if-append q (item.variations ++ menu_variation p ∷ []) (all_variations items),
          count_if-append q item.variations (menu_variation p ∷ []),
          count_if-append q item.variations (all_variations items),
        ))
    | inr other ↦ rw other (
        omega (
          arith,
          count_if-append q item.variations (all_variations (append_variation p items)),
          count_if-append q item.variations (all_variations items),
          count_if-append_variation p items,
        ))
  ]

  count_if-from :
      (items : List MenuItem) (products : List Product)
      → count_if q (all_variations (group_products items products))
        ≡ count_if q (map menu_variation products) + count_if q (all_variations items)
  unfolding group_products
  count_if-from items [] = omega arith
  count_if-from items (p ∷ products) =
      count_if-from (append_variation p items) products
      ∙ omega (
        arith,
        count_if-append_variation p items,
        count_if-append q (menu_variation p ∷ []) (map menu_variation products),
      )

  -- The menu loses no product and lists none twice: whatever is asked of a variation, the groups
  -- together have as many variations for which it holds as there are products for which it does.
  pub count_if-group_products :
      (products : List Product)
      → count_if q (all_variations (group_products [] products))
        ≡ count_if q (map menu_variation products)
  count_if-group_products products = omega (arith, count_if-from [] products)
