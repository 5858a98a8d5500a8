-- ===== src/System/Overlaps.antt =====
-- Requests that overlap. A handler gives way at each await, so other requests are served between a
-- payment's POSTs, between the payment and the storing of its order, and the process can die there.
pub mod Accounts
pub mod Handler
use mathlib.Core.Path.{subst}
use mathlib.Core.List.{Permᴰ}
use mathlib.Core.List.Permᴰ
use coffee_shop_api.Prelude.{
  ℕ, suc, ◌+◌, ◌≡◌, refl, sym, ap, ◌∙◌, String, Bool, true, false, Bool-cases, inl, inr, Option,
  List, [], ◌∷◌, ◌++◌, map, append-nil, append_assoc, Distinct, length, arith,
}
use coffee_shop_api.Decimal.{Decimal}
use coffee_shop_api.Entities.{Uuid, Datetime}
use coffee_shop_api.Breaker.{CircuitBreaker, init}
use coffee_shop_api.Breaker.Steps as Blocks
use coffee_shop_api.App.{World, Result, ok, err, advance}
use coffee_shop_api.Payment.{Answer, PaymentApi, is_success, read_answer, attempt}
use coffee_shop_api.Payment.Charges.{replicate, confirmed}
use coffee_shop_api.Payment.Ledger.{charges}
use coffee_shop_api.Repositories.Idempotency.{idempotency_repository}
use coffee_shop_api.Repositories.Orders.{order_repository}
use coffee_shop_api.Repositories.RevokedTokens.{revoked_token_repository}
use coffee_shop_api.Seed.{seed_catalog}
use coffee_shop_api.Tasks.{purge_round}
use coffee_shop_api.UseCases.CreateOrder.{store}
use coffee_shop_api.System.{Environment, Request, serve}
use coffee_shop_api.System.Ledger.{Accounting, Grows, Consistent, IsSound, same_order}
use coffee_shop_api.System.Ledger.Orders.{stored-IsSound}
use coffee_shop_api.System.Ledger.Requests.{serve-IsSound}
use coffee_shop_api.System.Runs.{start, seed_catalog-Keeps, purge_round-Keeps}

-- a request whose payment was confirmed and whose order is not stored yet
pub record Paid : Type 0 where
  pub product_ids : List Uuid
  pub user_id : Uuid
  pub total : Decimal

-- the state with these requests, and the totals of those that died with an earlier process
pub record Service : Type 0 where
  pub world : World
  pub paid : List Paid
  pub lost : List Decimal

abbrev pub after_attempt : Paid → Service → Result (Unit {0}) × World → Service
after_attempt p s (ok _, w) = record s { world = w; paid = p ∷ s.paid }
after_attempt p s (err e, w) = record s { world = w }

abbrev pub with_world : Service → World → Service
with_world s w = record s { world = w }

abbrev pub totals_of : List Paid → List Decimal
totals_of = map (λ (p : Paid). p.total)

-- One step: a request is served to its end; a payment of any request makes one POST, and it is paid
-- if that is confirmed; a block of the circuit breaker runs; a paid request stores its order; the
-- purge runs or the catalog is seeded; time passes; or the process dies and is started again.
-- Nothing ties the POSTs of a payment to its other steps, so there are at least the runs that the
-- handlers make.
pub data Step (env : Environment) : Service → Service → Type 0 where
  served :
      (s : Service) (header : Option String) (request : Request)
      → Step env s (with_world s (serve env header request s.world).1)
  attempted :
      (s : Service) (p : Paid) → Step env s (after_attempt p s (attempt env.api p.total s.world))
  breaker :
      (s : Service) (b : CircuitBreaker)
      → Blocks.Step s.world.breaker b
      → Step env s (with_world s (record s.world { breaker = b }))
  stored :
      (w : World) (before after : List Paid) (p : Paid) (lost : List Decimal)
      → Step env
          (record { world = w; paid = before ++ p ∷ after; lost = lost })
          (record {
            world =
                (store env.uuids (order_repository env.engine) p.product_ids p.user_id p.total w).1;
            paid = before ++ after;
            lost = lost;
          })
  purged :
      (s : Service)
      → Step env s (
          with_world s
            (purge_round
              (idempotency_repository env.engine)
              (revoked_token_repository env.engine)
              s.world).1)
  seeded : (s : Service) → Step env s (with_world s (seed_catalog env.uuids s.world).1)
  elapsed : (s : Service) (t : ℕ) → Step env s (with_world s (advance t s.world))
  died :
      (s : Service) (threshold timeout monotonic : ℕ)
      → Step env s (record {
        world = record s.world { breaker = init threshold timeout; monotonic = monotonic };
        paid = [];
        lost = totals_of s.paid ++ s.lost;
      })

pub data Reach (env : Environment) (s : Service) : Service → Type 0 where
  here : Reach env s s
  next : (t u : Service) → Reach env s t → Step env t u → Reach env s u

-- the confirmed payments are the totals of the orders and these amounts
abbrev pub Open : List Decimal → Accounting
Open extra paid totals = Permᴰ paid (totals ++ extra)

last_first : (xs : List Decimal) (a : Decimal) → Permᴰ (xs ++ a ∷ []) (a ∷ xs)
last_first xs a = Permᴰ.trans (Permᴰ.middle a xs []) (Permᴰ.cons refl (Permᴰ.append-nil xs))

-- one payment more
opens :
    (extra paid totals : List Decimal) (a : Decimal)
    → Open extra paid totals
    → Open (a ∷ extra) (paid ++ a ∷ []) totals
opens extra paid totals a h =
    Permᴰ.trans (last_first paid a)
      (Permᴰ.trans (Permᴰ.cons refl h) (Permᴰ.symm (Permᴰ.middle a totals extra)))

-- a payment becomes an order
settles :
    (extra rest paid totals : List Decimal) (a : Decimal)
    → Permᴰ extra (a ∷ rest)
    → Open extra paid totals
    → Open rest paid (totals ++ a ∷ [])
settles extra rest paid totals a p h =
    subst (Permᴰ paid) (sym (append_assoc totals (a ∷ []) rest))
      (Permᴰ.trans h (Permᴰ.append_left totals p))

Open-Grows : (extra : List Decimal) → Grows (Open extra)
Open-Grows extra paid totals a h =
    settles (a ∷ extra) extra (paid ++ a ∷ []) totals a (Permᴰ.refl (a ∷ extra))
      (opens extra paid totals a h)
