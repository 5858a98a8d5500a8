-- ===== src/UseCases/CreateOrder/Selection.antt =====
-- Which product lists an order is accepted for.
use mathlib.Core.List.{Permᴰ}
use mathlib.Core.Path.{ap₂}
use coffee_shop_api.Prelude.{
  suc, ◌+◌, ◌≤◌, ◌≡◌, refl, ap, ◌∙◌, Bool, true, false, not, ◌&&◌, ◌||◌, List, [], ◌∷◌, map, arith,
  ◌==◌, if◌then◌else◌, select, elem, All, All-elem_self, length, length-map,
}
use coffee_shop_api.Entities.{Uuid}
use coffee_shop_api.Database.{ProductRow}
use coffee_shop_api.Engine.{Engine}
use coffee_shop_api.Repositories.Products.{is_listed, to_entity}
use coffee_shop_api.UseCases.CreateOrder.{is_found, missing_ids}

-- The catalogue has a product with this id.
abbrev pub exists_id : Uuid → List ProductRow → Bool
exists_id k [] = false
exists_id k (r ∷ rows) = r.id == k || exists_id k rows

-- `id` is the primary key of the products.
abbrev pub UniqueIds : List ProductRow → Type 0
UniqueIds [] = Unit
UniqueIds (r ∷ rows) = (exists_id r.id rows ≡ false) × UniqueIds rows

-- Every id is in the catalogue, and none is listed twice.
abbrev pub is_orderable : List ProductRow → List Uuid → Bool
is_orderable rows [] = true
is_orderable rows (k ∷ ks) = exists_id k rows && not (elem k ks) && is_orderable rows ks

-- the ids that are not in the catalogue, in their order
abbrev pub absent : List ProductRow → List Uuid → List Uuid
absent rows ids = select (λ k. not (exists_id k rows)) ids

length-select_cons :
    (k : Uuid) (ks : List Uuid) (rows : List ProductRow)
    → UniqueIds rows
    → length (select (is_listed (k ∷ ks)) rows)
      ≡ length (select (is_listed ks) rows) + (if exists_id k rows && not (elem k ks) then 1 else 0)
length-select_cons k ks [] u = refl
length-select_cons k ks (r ∷ rows) u = ground (arith, length-select_cons k ks rows u.1)

length-select_nil : (rows : List ProductRow) → length (select (is_listed []) rows) ≡ 0
length-select_nil [] = refl
length-select_nil (r ∷ rows) = length-select_nil rows

length-select_listed :
    (ids : List Uuid) (rows : List ProductRow)
    → UniqueIds rows
    → length (select (is_listed ids) rows) ≤ length ids
length-select_listed [] rows u = omega (arith, length-select_nil rows)
length-select_listed (k ∷ ks) rows u =
    ground (arith, length-select_cons k ks rows u, length-select_listed ks rows u)

selects_all :
    (ids : List Uuid) (rows : List ProductRow)
    → UniqueIds rows
    → (length (select (is_listed ids) rows) == length ids) ≡ is_orderable rows ids
selects_all [] rows u = ground (arith, length-select_nil rows)
selects_all (k ∷ ks) rows u =
    ground
      (arith, length-select_cons k ks rows u, length-select_listed ks rows u, selects_all ks rows u)

length-perm {ℓ} : {A : Type ℓ} {xs ys : List A} → Permᴰ xs ys → length xs ≡ length ys
length-perm Permᴰ.nil = refl
length-perm (Permᴰ.cons p q) = ap suc (length-perm q)
length-perm (Permᴰ.swap p q) = refl
length-perm (Permᴰ.trans p q) = length-perm p ∙ length-perm q

exists_id-perm :
    (k : Uuid) {xs ys : List ProductRow} → Permᴰ xs ys → exists_id k xs ≡ exists_id k ys
exists_id-perm k Permᴰ.nil = refl
exists_id-perm k (Permᴰ.cons {a} {b} {l₁} {l₂} p q) =
    ap₂ (λ (x : ProductRow) e. x.id == k || e) p (exists_id-perm k q)
exists_id-perm k (Permᴰ.swap {a} {b} {a'} {b'} {l} p q) = rw (p, q) (ground arith)
exists_id-perm k (Permᴰ.trans p q) = exists_id-perm k p ∙ exists_id-perm k q

exists_id-select :
    (k : Uuid) (ids : List Uuid) (rows : List ProductRow)
    → elem k ids ≡ true
    → exists_id k (select (is_listed ids) rows) ≡ exists_id k rows
exists_id-select k ids [] h = refl
exists_id-select k ids (r ∷ rows) h = ground (arith, exists_id-select k ids rows h)

is_found-map :
    (k : Uuid) (rows : List ProductRow) → is_found (map to_entity rows) k ≡ exists_id k rows
unfolding to_entity
is_found-map k [] = refl
is_found-map k (r ∷ rows) = ap (λ e. r.id == k || e) (is_found-map k rows)

module _ (engine : Engine) (rows : List ProductRow) (ids : List Uuid) where
  abbrev pub found : List ProductRow
  found = engine.scan ProductRow (select (is_listed ids) rows)

  is_found-exists_id :
      (k : Uuid) → elem k ids ≡ true → is_found (map to_entity found) k ≡ exists_id k rows
  is_found-exists_id k h =
      is_found-map k found
      ∙ exists_id-perm k (engine.scan_perm ProductRow (select (is_listed ids) rows))
      ∙ exists_id-select k ids rows h

  missing_from :
      (ks : List Uuid)
      → All (λ k. elem k ids ≡ true) ks
      → missing_ids (map to_entity found) ks ≡ absent rows ks
  missing_from [] h = refl
  missing_from (k ∷ ks) h = ground (arith, is_found-exists_id k h.0, missing_from ks h.1)

  pub missing_ids-absent : missing_ids (map to_entity found) ids ≡ absent rows ids
  missing_ids-absent = missing_from ids (All-elem_self ids)

  pub length-found :
      UniqueIds rows → (length (map to_entity found) == length ids) ≡ is_orderable rows ids
  length-found u =
      ap (λ n. n == length ids)
        (length-map found to_entity
          ∙ length-perm (engine.scan_perm ProductRow (select (is_listed ids) rows)))
      ∙ selects_all ids rows u
