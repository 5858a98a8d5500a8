-- ===== src/Migrations/Downgrades.antt =====
-- A migration that is undone.
use coffee_shop_api.Prelude.{
  ℕ, zero, suc, ◌<◌, ◌≡◌, refl, sym, ap, ◌∙◌, String, some, List, [], ◌∷◌, ◌++◌, All, All-map, take,
  drop, arith,
}
use coffee_shop_api.Migrations.{Tables, Operation, Migration, Alembic, documented, run_all}
use coffee_shop_api.Migrations.Versions.{versions}
use coffee_shop_api.Migrations.Schema.{
  no_tables, upgrades, documented_all, result, run_all-documented,
}

-- The first k migrations, and the one after them up and down again.
abbrev pub upgrades_to : ℕ → List Operation
upgrades_to k = upgrades (take k versions)

abbrev pub and_back : List Migration → List Operation
and_back [] = []
and_back (m ∷ _) = m.upgrade ++ m.downgrade

abbrev pub table_names : List String
table_names =
    "products" ∷ "orders" ∷ "order_products" ∷ "users" ∷ "idempotency_keys" ∷ "revoked_tokens" ∷ []

module _ (alembic : Alembic) (s : alembic.Schema) (new : alembic.tables s ≡ no_tables) where
  abbrev at : ℕ → Tables
  at k = result (documented_all (upgrades_to k) no_tables)

  abbrev returned : ℕ → Tables
  returned k = result (documented_all (and_back (drop k versions)) (at k))

  -- the tables before and after
  abbrev Returns : ℕ → Type 0
  Returns k =
      (u v : alembic.Schema) × (run_all alembic (upgrades_to k) s ≡ some u)
      × (run_all alembic (and_back (drop k versions)) u ≡ some v)
      × All (λ name. alembic.tables v name ≡ alembic.tables u name) table_names

  run_all-and_back :
      (k : ℕ)
      → documented_all (upgrades_to k) no_tables ≡ some (at k)
      → documented_all (and_back (drop k versions)) (at k) ≡ some (returned k)
      → All (λ name. returned k name ≡ at k name) table_names
      → Returns k
  run_all-and_back k up back same =
      let (u, ran, shown) =
        run_all-documented alembic (upgrades_to k) s (at k)
          (ap (documented_all (upgrades_to k)) new ∙ up) in
      let (v, ran_back, shown_back) =
        run_all-documented alembic (and_back (drop k versions)) u (returned k)
          (ap (documented_all (and_back (drop k versions))) shown ∙ back) in
      (
        u,
        v,
        ran,
        ran_back,
        All-map (λ name. returned k name ≡ at k name)
            (λ name. alembic.tables v name ≡ alembic.tables u name)
            (λ name e. ap (λ t. t name) shown_back ∙ e ∙ sym (ap (λ t. t name) shown)) table_names
            same,
      )

  -- Let Alembic start on a database without tables. After the first k migrations, the next one runs
  -- up and down again, and each of the six tables is then as it was before it, or absent as before.
  pub downgrade-upgrade :
      (k : ℕ)
      → k < 9
      → (u v : alembic.Schema) × (run_all alembic (upgrades_to k) s ≡ some u)
        × (run_all alembic (and_back (drop k versions)) u ≡ some v)
        × All (λ name. alembic.tables v name ≡ alembic.tables u name) table_names
  unfolding documented_all documented
  downgrade-upgrade zero lt =
      run_all-and_back 0 refl refl (refl, (refl, (refl, (refl, (refl, (refl, tt))))))
  downgrade-upgrade (suc zero) lt =
      run_all-and_back 1 refl refl (refl, (refl, (refl, (refl, (refl, (refl, tt))))))
  downgrade-upgrade (suc (suc zero)) lt =
      run_all-and_back 2 refl refl (refl, (refl, (refl, (refl, (refl, (refl, tt))))))
  downgrade-upgrade (suc (suc (suc zero))) lt =
      run_all-and_back 3 refl refl (refl, (refl, (refl, (refl, (refl, (refl, tt))))))
  downgrade-upgrade (suc (suc (suc (suc zero)))) lt =
      run_all-and_back 4 refl refl (refl, (refl, (refl, (refl, (refl, (refl, tt))))))
  downgrade-upgrade (suc (suc (suc (suc (suc zero))))) lt =
      run_all-and_back 5 refl refl (refl, (refl, (refl, (refl, (refl, (refl, tt))))))
  downgrade-upgrade (suc (suc (suc (suc (suc (suc zero)))))) lt =
      run_all-and_back 6 refl refl (refl, (refl, (refl, (refl, (refl, (refl, tt))))))
  downgrade-upgrade (suc (suc (suc (suc (suc (suc (suc zero))))))) lt =
      run_all-and_back 7 refl refl (refl, (refl, (refl, (refl, (refl, (refl, tt))))))
  downgrade-upgrade (suc (suc (suc (suc (suc (suc (suc (suc zero)))))))) lt =
      run_all-and_back 8 refl refl (refl, (refl, (refl, (refl, (refl, (refl, tt))))))
  downgrade-upgrade (suc (suc (suc (suc (suc (suc (suc (suc (suc k))))))))) lt =
      absurd (omega arith)
