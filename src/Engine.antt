-- ===== src/Engine.antt =====
-- SQLite, as far as the repositories rely on it. A SELECT without ORDER BY may return its rows in
-- any order, so the engine is a parameter that reorders a result; what it owes is documented: it
-- returns each row as often as it is there, and CURRENT_TIMESTAMP is the current time cut to
-- whole seconds.
use mathlib.Core.List.{Permᴰ, tail-eq_of_cons-eq}
use coffee_shop_api.Prelude.{
  ◌+◌, ◌≤◌, ◌<◌, ◌≡◌, refl, Bool, Option, none, some, List, [], ◌∷◌, head?, select, any, false,
  true, ◌++◌, select-eq-nil, select_last, ap, ◌∙◌,
}
use coffee_shop_api.Entities.{Datetime}

pub record Engine : Type 1 where
  pub scan : (R : Type 0) → List R → List R
  pub scan_perm : (R : Type 0) (rows : List R) → Permᴰ (scan R rows) rows
  pub current_timestamp : Datetime → Datetime
  pub timestamp_le : (now : Datetime) → current_timestamp now ≤ now
  pub timestamp_near : (now : Datetime) → now < current_timestamp now + 1000000

eq-nil_of_perm {ℓ} : {A : Type ℓ} {xs ys : List A} → Permᴰ xs ys → ys ≡ [] → xs ≡ []
eq-nil_of_perm Permᴰ.nil e = refl
eq-nil_of_perm (Permᴰ.cons p q) e = cc
eq-nil_of_perm (Permᴰ.swap p q) e = cc
eq-nil_of_perm (Permᴰ.trans p q) e = eq-nil_of_perm p (eq-nil_of_perm q e)

eq-singleton_of_perm {ℓ} :
    {A : Type ℓ} {xs ys : List A} (r : A) → Permᴰ xs ys → ys ≡ r ∷ [] → xs ≡ r ∷ []
eq-singleton_of_perm r Permᴰ.nil e = e
eq-singleton_of_perm r (Permᴰ.cons p q) e = cc (eq-nil_of_perm q (tail-eq_of_cons-eq e))
eq-singleton_of_perm r (Permᴰ.swap p q) e = cc
eq-singleton_of_perm r (Permᴰ.trans p q) e = eq-singleton_of_perm r p (eq-singleton_of_perm r q e)

module _ (engine : Engine) {R : Type 0} where
  -- `fetch_all(table.select().where(p))`
  abbrev pub fetch_all : (R → Bool) → List R → List R
  fetch_all p rows = engine.scan R (select p rows)

  -- `fetch_one(table.select().where(p))`
  abbrev pub fetch_one : (R → Bool) → List R → Option R
  fetch_one p rows = head? (fetch_all p rows)

  pub scan-nil : engine.scan R [] ≡ []
  scan-nil = eq-nil_of_perm (engine.scan_perm R []) refl

  pub scan-singleton : (r : R) → engine.scan R (r ∷ []) ≡ r ∷ []
  scan-singleton r = eq-singleton_of_perm r (engine.scan_perm R (r ∷ [])) refl

  pub fetch_one-nil : (p : R → Bool) (rows : List R) → select p rows ≡ [] → fetch_one p rows ≡ none
  fetch_one-nil p rows h = ap (λ l. head? (engine.scan R l)) h ∙ ap head? scan-nil

  pub fetch_one-only :
      (p : R → Bool) (rows : List R) (r : R) → select p rows ≡ r ∷ [] → fetch_one p rows ≡ some r
  fetch_one-only p rows r h = ap (λ l. head? (engine.scan R l)) h ∙ ap head? (scan-singleton r)

  pub fetch_one-none : (p : R → Bool) (rows : List R) → any p rows ≡ false → fetch_one p rows ≡ none
  fetch_one-none p rows h = fetch_one-nil p rows (select-eq-nil p rows h)

  -- the row that is inserted last is found if it is the only one that passes the test
  pub fetch_one-last :
      (p : R → Bool) (rows : List R) (r : R)
      → any p rows ≡ false
      → p r ≡ true
      → fetch_one p (rows ++ r ∷ []) ≡ some r
  fetch_one-last p rows r h e = fetch_one-only p (rows ++ r ∷ []) r (select_last p rows r h e)
