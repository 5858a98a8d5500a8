-- ===== src/Seed/Once.antt =====
-- What seeding stores, and that it is done once.
use mathlib.Core.Path.{subst}
use coffee_shop_api.Prelude.{
  ℕ, zero, suc, ◌+◌, ◌≤◌, ◌≡◌, refl, sym, ap, ◌∙◌, Bool, false, Bool-cases, inl, inr, List, [], ◌∷◌,
  ◌++◌, any, length, length-append, ◌==◌, arith,
}
use coffee_shop_api.Entities.{Uuid}
use coffee_shop_api.Database.{ProductRow}
use coffee_shop_api.App.{World, Error, Result, ok, err, Uuids, next_uuid, pure, bind-ok}
use coffee_shop_api.Seed.{
  CatalogItem, catalog, product_row, draw_rows, insert_rows, insert_catalog, seed_counted,
  seed_catalog,
}

-- the rows that are drawn from the n-th UUID on
abbrev pub rows_from : Uuids → ℕ → List CatalogItem → List ProductRow
rows_from uuids n [] = []
rows_from uuids n (i ∷ items) = product_row (uuids.uuid4 n) i ∷ rows_from uuids (n + 1) items

-- the process after rows were stored
abbrev pub with_products : List ProductRow → World → World
with_products rows w = record w { db = record w.db { products = w.db.products ++ rows } }

abbrev pub same_product : Uuid → ProductRow → Bool
same_product id r = r.id == id

module _ (uuids : Uuids) where
  draw_rows-eq :
      (items : List CatalogItem) (w : World)
      → draw_rows uuids items w
        ≡ (ok (rows_from uuids w.uuids items), record w { uuids = w.uuids + length items })
  unfolding draw_rows next_uuid
  draw_rows-eq [] w = let e : w.uuids + 0 ≡ w.uuids = omega arith in rw e refl
  draw_rows-eq (i ∷ items) w =
      let v = record w { uuids = w.uuids + 1 } in
      let e : w.uuids + 1 + length items ≡ w.uuids + length (i ∷ items) = omega arith in
      bind-ok (draw_rows uuids items) (λ rows. pure (product_row (uuids.uuid4 w.uuids) i ∷ rows)) v
        (rows_from uuids (w.uuids + 1) items) (record w { uuids = w.uuids + 1 + length items })
        (draw_rows-eq items v)
      ∙ ap (λ n. (ok (rows_from uuids w.uuids (i ∷ items)), record w { uuids = n })) e

  insert_rows-length :
      (rows : List ProductRow) (w u : World)
      → insert_rows rows w ≡ (ok tt, u)
      → length u.db.products ≡ length w.db.products + length rows
  unfolding insert_rows
  insert_rows-length [] w u e = let same : w ≡ u = cc in rw (sym same) (omega arith)
  insert_rows-length (row ∷ rows) w u e =
      elim (Bool-cases (any (λ r. r.id == row.id) w.db.products)) [
        | inl taken ↦ absurd (
            let f : insert_rows (row ∷ rows) w ≡ (err Error.integrity_error, w) = rw taken refl in
            cc)
        | inr free ↦
            let v = with_products (row ∷ []) w in
            let f : insert_rows (row ∷ rows) w ≡ insert_rows rows v = rw free refl in
            let grown = insert_rows-length rows v u (sym f ∙ e) in
            let one = length-append w.db.products (row ∷ []) in omega (arith, grown, one)
      ]

  -- the rows that are inserted stay, also where a later one raises
  insert_rows-le :
      (rows : List ProductRow) (w : World)
      → length w.db.products ≤ length (insert_rows rows w).1.db.products
  unfolding insert_rows
  insert_rows-le [] w = omega arith
  insert_rows-le (row ∷ rows) w = elim (Bool-cases (any (λ r. r.id == row.id) w.db.products)) [
    | inl taken ↦ rw taken (omega arith)
    | inr free ↦
        let one = length-append w.db.products (row ∷ []) in
        let rest = insert_rows-le rows (with_products (row ∷ []) w) in
        rw free (omega (arith, rest, one))
  ]

  none_taken :
      (row : ProductRow) (products : List ProductRow)
      → length products ≡ 0
      → any (λ r. r.id == row.id) products ≡ false
  none_taken row [] e = refl
  none_taken row (r ∷ products) e = absurd (omega (arith, e))

  -- the first of some rows is inserted into an empty table, whatever the later ones do
  insert_first :
      (rows : List ProductRow) (w : World)
      → 1 ≤ length rows
      → length w.db.products ≡ 0
      → 1 ≤ length (insert_rows rows w).1.db.products
  unfolding insert_rows
  insert_first [] w le e = absurd (omega arith)
  insert_first (row ∷ rows) w le e =
      let one = length-append w.db.products (row ∷ []) in
      let rest = insert_rows-le rows (with_products (row ∷ []) w) in
      rw (none_taken row w.db.products e) (omega (arith, rest, one))

  seed_counted-nonempty :
      (n : ℕ) (w : World)
      → length w.db.products ≡ n
      → 1 ≤ length (seed_counted uuids n w).1.db.products
  unfolding seed_counted insert_catalog
  seed_counted-nonempty zero w count =
      let v = record w { uuids = w.uuids + 13 } in
      let rows = rows_from uuids w.uuids catalog in
      let len : length rows ≡ 13 = refl in
      let f = bind-ok (draw_rows uuids catalog) insert_rows w rows v (draw_rows-eq catalog w) in
      subst (λ (o : Result (Unit {0}) × World). 1 ≤ length o.1.db.products) (sym f)
        (insert_first rows v (omega (arith, len)) count)
  seed_counted-nonempty (suc n) w count = omega (arith, count)

  seed_counted_again : (n : ℕ) (v : World) → 1 ≤ n → seed_counted uuids n v ≡ (ok tt, v)
  unfolding seed_counted
  seed_counted_again zero v le = absurd (omega arith)
  seed_counted_again (suc n) v le = refl

  -- A seeding returns and changes nothing in every state whose products are those that an earlier
  -- seeding left, whatever the database held before it and whether it returned or raised: so at the
  -- next start no second catalog is added, and one that was cut short is not completed.
  pub seed_catalog_twice :
      (w v : World)
      → v.db.products ≡ (seed_catalog uuids w).1.db.products
      → seed_catalog uuids v ≡ (ok tt, v)
  unfolding seed_catalog
  seed_catalog_twice w v e = seed_counted_again (length v.db.products) v (
      subst (λ rows. 1 ≤ length rows) (sym e) (seed_counted-nonempty (length w.db.products) w refl))
