-- ===== src/Payment/Charges.antt =====
-- How often a payment is sent, what comes of it, and what it leaves alone.
use mathlib.Core.Path.{subst}
use coffee_shop_api.Prelude.{
  ℕ, zero, suc, ◌+◌, ◌≤◌, ◌≡◌, ◌⊎◌, refl, inl, inr, Bool, true, false, ◌&&◌, not, Bool-cases, sym,
  ap, ◌∙◌, List, [], ◌∷◌, ◌++◌, length, arith, if◌then◌else◌,
}
use coffee_shop_api.Decimal.{Decimal}
use coffee_shop_api.App.{World, App, Error, Failure, Result, ok, err, advance}
use coffee_shop_api.Breaker.{CircuitBreaker, Admission, enter}
use coffee_shop_api.Payment.{
  Answer, PaymentApi, Tenacity, is_confirmation, is_retried, again, attempt, call, process, wrap,
  ended, process_from, max_retries, admission, rewrapped, end_call, fail_call,
}

abbrev pub replicate {ℓ} : {A : Type ℓ} → ℕ → A → List A
replicate zero a = []
replicate (suc n) a = a ∷ replicate n a

abbrev pub count : Bool → ℕ
count b = if b then 1 else 0

abbrev pub confirmed : Answer → ℕ
confirmed answer = count (is_confirmation answer)

-- how many of the POSTs number k, k + 1, …, k + n - 1 were confirmed
abbrev pub confirmed_from : PaymentApi → ℕ → ℕ → ℕ
confirmed_from api k zero = 0
confirmed_from api k (suc n) = confirmed (api.answer k) + confirmed_from api (suc k) n

-- how many of them the service charged
abbrev pub charged_from : PaymentApi → ℕ → ℕ → ℕ
charged_from api k zero = 0
charged_from api k (suc n) = count (api.charged k) + charged_from api (suc k) n

-- charged, and not confirmed
abbrev pub is_orphan : PaymentApi → ℕ → Bool
is_orphan api k = api.charged k && not (is_confirmation (api.answer k))

abbrev pub orphans_from : PaymentApi → ℕ → ℕ → ℕ
orphans_from api k zero = 0
orphans_from api k (suc n) = count (is_orphan api k) + orphans_from api (suc k) n

count_charged :
    (charged confirmation : Bool)
    → (confirmation ≡ true → charged ≡ true)
    → count charged ≡ count confirmation + count (charged && not confirmation)
count_charged true true h = refl
count_charged true false h = refl
count_charged false true h = absurd (cc (h refl))
count_charged false false h = refl

pub charged_from-eq :
    (api : PaymentApi) (k n : ℕ)
    → charged_from api k n ≡ confirmed_from api k n + orphans_from api k n
charged_from-eq api k zero = refl
charged_from-eq api k (suc n) =
    let here =
      count_charged (api.charged k) (is_confirmation (api.answer k)) (api.confirmed_charged k) in
    omega (arith, here, charged_from-eq api (suc k) n)

abbrev pub is_ok : Result (Unit {0}) → ℕ
is_ok (ok _) = 1
is_ok (err _) = 0

-- What a run from `w` that sent `n` POSTs of `value` has done.
pub record Sent (api : PaymentApi) (value : Decimal) (n : ℕ) (w : World) (r : Result (Unit {0}))
    (w' : World) : Type 0 where
  pub posts : w'.posts ≡ replicate n value ++ w.posts
  pub confirms : confirmed_from api (length w.posts) n ≡ is_ok r
  pub breaker : w'.breaker ≡ w.breaker
  pub db : w'.db ≡ w.db
  pub stream : w'.stream ≡ w.stream
  pub uuids : w'.uuids ≡ w.uuids
  pub xadds : w'.xadds ≡ w.xadds

pub replicate_shift {ℓ} :
    {A : Type ℓ} (n : ℕ) (a : A) (xs : List A) → replicate n a ++ a ∷ xs ≡ a ∷ (replicate n a ++ xs)
replicate_shift zero a xs = refl
replicate_shift (suc n) a xs = ap (◌∷◌ a) (replicate_shift n a xs)

module _ (api : PaymentApi) (value : Decimal) where
  attempt-Sent : (w : World) → let (r, w') = attempt api value w in Sent api value 1 w r w'
  unfolding attempt advance
  attempt-Sent w = record {
    posts = refl;
    confirms = ground arith;
    breaker = refl;
    db = refl;
    stream = refl;
    uuids = refl;
    xadds = refl;
  }

  -- a refused attempt, a pause, and what follows
  Sent-more :
      (n delay : ℕ) (w w' : World) (r : Result (Unit {0})) (e : Error)
      → (attempt api value w).0 ≡ err e
      → Sent api value n (advance delay (attempt api value w).1) r w'
      → Sent api value (suc n) w r w'
  unfolding attempt advance
  Sent-more n delay w w' r e refused s = record {
    posts = s.posts ∙ replicate_shift n value w.posts;
    confirms = ground (arith, s.confirms);
    breaker = s.breaker;
    db = s.db;
    stream = s.stream;
    uuids = s.uuids;
    xadds = s.xadds;
  }

  -- the retried attempts, n at most after the first
  abbrev pub Retried : ℕ → World → Result (Unit {0}) × World → Type 0
  Retried n w (r, w') = (k : ℕ) × (1 ≤ k) × (k ≤ suc n) × Sent api value k w r w'

  again-Retried :
      (n delay : ℕ) (rest : App (Unit {0})) (w : World) (o : Result (Unit {0}) × World)
      → attempt api value w ≡ o
      → ((u : World) → Retried n u (rest u))
      → Retried (suc n) w (again is_retried delay rest o)
  again-Retried n delay rest w (ok a, u) p ih =
      (1, omega arith, omega arith, subst (λ q. Sent api value 1 w q.0 q.1) p (attempt-Sent w))
  again-Retried n delay rest w (err e, u) p ih = elim (Bool-cases (is_retried e)) [
    | inl retried ↦
        let (k, lo, hi, s) = ih (advance delay u) in
        let (r, w') = rest (advance delay u) in
        rw retried (
          suc k,
          omega arith,
          omega arith,
          Sent-more k delay w w' r e (ap (λ q. q.0) p)
              (subst (λ u. Sent api value k (advance delay u) r w') (sym (ap (λ q. q.1) p)) s),
        )
    | inr final ↦
        rw final
          (1, omega arith, omega arith, subst (λ q. Sent api value 1 w q.0 q.1) p (attempt-Sent w))
  ]

  pub retry-Retried :
      (tenacity : Tenacity) (n : ℕ) (w : World)
      → Retried n w (tenacity.retry is_retried (suc n) (attempt api value) w)
  retry-Retried tenacity zero w =
      rw (tenacity.last is_retried (attempt api value) w)
        (1, omega arith, omega arith, attempt-Sent w)
  retry-Retried tenacity (suc n) w = rw (tenacity.more is_retried n (attempt api value) w) (
      again-Retried n (tenacity.delay n) (tenacity.retry is_retried (suc n) (attempt api value)) w
        (attempt api value w) refl (retry-Retried tenacity n))

  -- `w'`, but for the breaker
  abbrev pub apart : World → World → World
  apart w w' = record w' { breaker = w.breaker }

  abbrev pub Processed : World → Result (Unit {0}) × World → Type 0
  Processed w (r, w') =
      (k : ℕ) × (k ≤ max_retries)
      × Sent api value k w r (apart w w')
      × ((r ≡ ok tt) ⊎ ((f : Failure) × (r ≡ err (Error.payment_failed f))))

  -- the count and the rest do not depend on the breaker or on which exception was raised
  Sent-apart :
      (k : ℕ) (b : CircuitBreaker) (r r' : Result (Unit {0})) (w u : World)
      → is_ok r ≡ is_ok r'
      → Sent api value k (record w { breaker = b }) r u
      → Sent api value k w r' (apart w u)
  Sent-apart k b r r' w u e s = record {
    posts = s.posts;
    confirms = s.confirms ∙ e;
    breaker = refl;
    db = s.db;
    stream = s.stream;
    uuids = s.uuids;
    xadds = s.xadds;
  }

  ended-Processed :
      (b : CircuitBreaker) (w v : World) (o : Result (Unit {0}) × World)
      → Retried 2 (record w { breaker = b }) o
      → Processed w (ended (λ _. o) v)
  unfolding ended fail_call end_call wrap
  ended-Processed b w v (ok done, u) (k, lo, hi, s) =
      (k, hi, Sent-apart k b (ok done) (ok done) w u refl s, inl refl)
  ended-Processed b w v (err e, u) (k, lo, hi, s) = (
    k,
    hi,
    Sent-apart k b (err e) (err (Error.payment_failed (rewrapped e))) w u refl s,
    inr (rewrapped e, refl),
  )

  process_from-Processed :
      (tenacity : Tenacity) (a : Admission) (b : CircuitBreaker) (w : World)
      → Processed w (process_from api tenacity value a b w)
  unfolding process_from ended admission wrap
  process_from-Processed tenacity Admission.admit b w =
      ended-Processed b w (record w { breaker = b }) _
        (retry-Retried tenacity 2 (record w { breaker = b }))
  process_from-Processed tenacity _ b w = (
    0,
    omega arith,
    record {
      posts = refl;
      confirms = refl;
      breaker = refl;
      db = refl;
      stream = refl;
      uuids = refl;
      xadds = refl;
    },
    inr (_, refl),
  )

  pub process_any-Processed :
      (tenacity : Tenacity) (w : World) → Processed w (process api tenacity value w)
  unfolding process call process_from
  process_any-Processed tenacity w =
      let (a, b) = enter w.monotonic w.breaker in process_from-Processed tenacity a b w

  -- `process`, whatever the payment service answers and whatever the breaker's state: it sends the
  -- amount at most three times and sends nothing else; exactly one of those POSTs was confirmed, by
  -- a 2xx with a JSON body, if it returns, and none if it raises; the service charged the amount
  -- once if it returns, and besides, returning or raising, once for each of those POSTs that it
  -- charged without confirming it; it raises only PaymentFailedError; and the database, the
  -- notification stream and the UUIDs drawn are as before.
  pub process-Processed :
      (tenacity : Tenacity) (w : World)
      → let (r, w') = process api tenacity value w in
        (k : ℕ) × (k ≤ max_retries)
        × Sent api value k w r (apart w w')
        × (charged_from api (length w.posts) k ≡ is_ok r + orphans_from api (length w.posts) k)
        × ((r ≡ ok tt) ⊎ ((f : Failure) × (r ≡ err (Error.payment_failed f))))
  process-Processed tenacity w =
      let (k, le, s, ending) = process_any-Processed tenacity w in
      (
        k,
        le,
        s,
        charged_from-eq api (length w.posts) k
            ∙ ap (λ m. m + orphans_from api (length w.posts) k) s.confirms,
        ending,
      )
