-- ===== src/System/Overlaps/Accounts.antt =====
-- The accounts of payments and orders while requests overlap.
use mathlib.Core.Path.{subst}
use mathlib.Core.List.{Permᴰ}
use mathlib.Core.List.Permᴰ
use coffee_shop_api.Prelude.{
  ℕ, true, false, ◌≡◌, refl, sym, ap, ◌∙◌, Bool-cases, inl, inr, List, [], ◌∷◌, ◌++◌, map,
  append-nil, Distinct, length,
}
use coffee_shop_api.Decimal.{Decimal}
use coffee_shop_api.Entities.{Datetime}
use coffee_shop_api.Breaker.{CircuitBreaker}
use coffee_shop_api.App.{World, advance}
use coffee_shop_api.Payment.{Answer, is_success, read_answer, attempt}
use coffee_shop_api.Payment.Charges.{replicate, confirmed}
use coffee_shop_api.Payment.Ledger.{charges, taken, orphans, taken-charges}
use coffee_shop_api.System.{Environment}
use coffee_shop_api.System.Ledger.{IsSound, same_order, with_ledger}
use coffee_shop_api.System.Ledger.Orders.{stored-IsSound}
use coffee_shop_api.System.Ledger.Requests.{serve-IsSound}
use coffee_shop_api.System.Runs.{start, seed_catalog-Keeps, purge_round-Keeps}
use coffee_shop_api.System.Overlaps.{
  Paid, Service, Step, Reach, after_attempt, with_world, totals_of, Open, opens, settles,
  Open-Grows,
}

module _ (env : Environment)
    (fresh : (i j : ℕ) → env.uuids.uuid4 i ≡ env.uuids.uuid4 j → i ≡ j) where
  -- what is neither lost nor in a stored order
  abbrev extra : Service → List Decimal
  extra s = totals_of s.paid ++ s.lost

  abbrev Sound : Service → Type 0
  Sound s = IsSound (Open (extra s)) env.api env.uuids s.world

  -- the confirmed payments after a POST
  charges_more :
      (n : ℕ) (a : Decimal) (posts : List Decimal)
      → confirmed (env.api.answer (length posts)) ≡ n
      → charges env.api (a ∷ posts) ≡ charges env.api posts ++ replicate n a
  charges_more n a posts h = ap (λ m. charges env.api posts ++ replicate m a) h

  module _ (p : Paid) (s : Service) (t : ℕ) (sound : Sound s) where
    abbrev after_post : World
    after_post = advance t (record s.world { posts = p.total ∷ s.world.posts })

    abbrev totals : List Decimal
    totals = map (λ r. r.total_price) s.world.db.orders

    refused-Sound :
        confirmed (env.api.answer (length s.world.posts)) ≡ 0 → Sound (with_world s after_post)
    unfolding advance
    refused-Sound h = with_ledger sound (Open (extra s)) (p.total ∷ s.world.posts) (
        subst (λ cs. Open (extra s) cs totals)
          (sym
            (charges_more 0 p.total s.world.posts h ∙ append-nil (charges env.api s.world.posts)))
          sound.ledger)

    confirmed-Sound :
        confirmed (env.api.answer (length s.world.posts)) ≡ 1
        → Sound (record s { world = after_post; paid = p ∷ s.paid })
    unfolding advance
    confirmed-Sound h = with_ledger sound (Open (p.total ∷ extra s)) (p.total ∷ s.world.posts) (
        subst (λ cs. Open (p.total ∷ extra s) cs totals)
          (sym (charges_more 1 p.total s.world.posts h))
          (opens (extra s) (charges env.api s.world.posts) totals p.total sound.ledger))

    answered-Sound :
        (answer : Answer)
        → env.api.answer (length s.world.posts) ≡ answer
        → Sound (after_attempt p s (read_answer answer, after_post))
    answered-Sound Answer.request_failed e = refused-Sound (ap confirmed e)
    answered-Sound (Answer.response code false) e = refused-Sound (ap confirmed e)
    answered-Sound (Answer.response code true) e = elim (Bool-cases (is_success code)) [
      | inl success ↦ rw success (confirmed-Sound (ap confirmed e ∙ rw success refl))
      | inr failure ↦ rw failure (refused-Sound (ap confirmed e ∙ rw failure refl))
    ]

  totals_middle :
      (before after : List Paid) (p : Paid) (lost : List Decimal)
      → Permᴰ
          (totals_of (before ++ p ∷ after) ++ lost)
          (p.total ∷ totals_of (before ++ after) ++ lost)
  totals_middle [] after p lost = Permᴰ.refl _
  totals_middle (q ∷ before) after p lost =
      Permᴰ.trans (Permᴰ.cons refl (totals_middle before after p lost)) (Permᴰ.swap refl refl)

  Step-Sound : (s u : Service) → Step env s u → Sound s → Sound u
  unfolding attempt advance
  Step-Sound s _ (Step.served _ header request) h =
      serve-IsSound (Open (extra s)) (Open-Grows (extra s)) env fresh header request s.world h
  Step-Sound s _ (Step.attempted _ p) h =
      answered-Sound p s (env.api.elapsed (length s.world.posts)) h
        (env.api.answer (length s.world.posts)) refl
  Step-Sound s _ (Step.breaker _ b block) h = h
  Step-Sound _ _ (Step.stored w before after p lost) h =
      let rest = totals_of (before ++ after) ++ lost in
      let all = totals_of (before ++ p ∷ after) ++ lost in
      stored-IsSound (Open all) (Open rest) env.engine env.uuids env.api fresh p.product_ids
        p.user_id p.total w w h
        (settles all rest (charges env.api w.posts) (map (λ r. r.total_price) w.db.orders) p.total
          (totals_middle before after p lost) h.ledger)
        refl refl
  Step-Sound s _ (Step.purged _) h =
      (purge_round-Keeps (Open (extra s)) (Open-Grows (extra s)) env fresh).kept s.world h
  Step-Sound s _ (Step.seeded _) h =
      (seed_catalog-Keeps (Open (extra s)) (Open-Grows (extra s)) env fresh).kept s.world h
  Step-Sound s _ (Step.elapsed _ t) h = h
  Step-Sound s _ (Step.died _ threshold timeout monotonic) h = h

  Reach-Sound : (s u : Service) → Reach env s u → Sound s → Sound u
  Reach-Sound s _ Reach.here h = h
  Reach-Sound s u (Reach.next t _ r step) h = Step-Sound t u step (Reach-Sound s t r h)

  -- Let the generator of UUIDs not repeat itself. In every state that the service reaches from its
  -- start on the migrated database, with requests that overlap in any way between their payments'
  -- POSTs and between payment and storing, and with processes that die at any time: the amounts
  -- that the payment service has charged are, each exactly once and in some order, the totals of
  -- the stored orders, of the paid requests that have still to store theirs, of the paid requests
  -- that died with a process before they stored theirs, and the amounts of the POSTs that the
  -- service charged without a 2xx with a JSON body coming back; and no two orders have one id.
  pub Reach-charges :
      (breaker : CircuitBreaker) (monotonic : ℕ) (now : Datetime) (s : Service)
      → Reach env (record { world = start breaker monotonic now; paid = []; lost = [] }) s
      → Permᴰ (taken env.api s.world.posts) (
          (map (λ r. r.total_price) s.world.db.orders ++ (totals_of s.paid ++ s.lost))
          ++ orphans env.api s.world.posts)
        × Distinct same_order s.world.db.orders
  Reach-charges breaker monotonic now s r =
      let sound =
        Reach-Sound (record { world = start breaker monotonic now; paid = []; lost = [] }) s r
          (record {
            ledger = Permᴰ.nil;
            drawn = tt;
            readable = tt;
            order_ids = tt;
            emails = tt;
            key_ids = tt;
          }) in
      (
        Permᴰ.trans (taken-charges env.api s.world.posts)
            (Permᴰ.append_right (orphans env.api s.world.posts) sound.ledger),
        sound.order_ids,
      )
