-- ===== src/Payment/Ledger.antt =====
-- The amounts that the payment service has confirmed, as a ledger of the POSTs.
use mathlib.Core.Path.{subst}
use mathlib.Core.List.{Permᴰ}
use mathlib.Core.List.Permᴰ
use coffee_shop_api.Prelude.{
  Bool, true, false, ◌&&◌, not, if◌then◌else◌, ℕ, zero, suc, ◌+◌, ◌≡◌, refl, sym, ap, ◌∙◌, List, [],
  ◌∷◌, ◌++◌, append-nil, append_assoc, length, arith,
}
use coffee_shop_api.Decimal.{Decimal}
use coffee_shop_api.Payment.{PaymentApi, is_confirmation}
use coffee_shop_api.Payment.Charges.{
  replicate, replicate_shift, confirmed, confirmed_from, count, is_orphan,
}

-- the amounts of the confirmed POSTs, the first one first; `posts` has the last one first
abbrev pub charges : PaymentApi → List Decimal → List Decimal
charges api [] = []
charges api (a ∷ posts) = charges api posts ++ replicate (confirmed (api.answer (length posts))) a

-- the amounts that the service charged, the last one first
abbrev pub taken : PaymentApi → List Decimal → List Decimal
taken api [] = []
taken api (a ∷ posts) = if api.charged (length posts) then a ∷ taken api posts else taken api posts

-- those of the POSTs that it charged and did not confirm
abbrev pub orphans : PaymentApi → List Decimal → List Decimal
orphans api [] = []
orphans api (a ∷ posts) =
    if is_orphan api (length posts) then a ∷ orphans api posts else orphans api posts

taken_more :
    (charged confirmation : Bool) (a : Decimal) (ts cs os : List Decimal)
    → (confirmation ≡ true → charged ≡ true)
    → Permᴰ ts (cs ++ os)
    → Permᴰ (if charged then a ∷ ts else ts) (
        (cs ++ replicate (count confirmation) a)
        ++ (if charged && not confirmation then a ∷ os else os))
taken_more true true a ts cs os h p =
    subst (Permᴰ (a ∷ ts)) (sym (append_assoc cs (a ∷ []) os))
      (Permᴰ.trans (Permᴰ.cons refl p) (Permᴰ.symm (Permᴰ.middle a cs os)))
taken_more true false a ts cs os h p =
    subst (λ l. Permᴰ (a ∷ ts) (l ++ a ∷ os)) (sym (append-nil cs))
      (Permᴰ.trans (Permᴰ.cons refl p) (Permᴰ.symm (Permᴰ.middle a cs os)))
taken_more false true a ts cs os h p = absurd (cc (h refl))
taken_more false false a ts cs os h p = subst (λ l. Permᴰ ts (l ++ os)) (sym (append-nil cs)) p

-- what was charged is what was confirmed, and what was charged without that
pub taken-charges :
    (api : PaymentApi) (posts : List Decimal)
    → Permᴰ (taken api posts) (charges api posts ++ orphans api posts)
taken-charges api [] = Permᴰ.nil
taken-charges api (a ∷ posts) =
    taken_more (api.charged (length posts)) (is_confirmation (api.answer (length posts))) a
      (taken api posts) (charges api posts) (orphans api posts)
      (api.confirmed_charged (length posts)) (taken-charges api posts)

replicate-append {ℓ} :
    {A : Type ℓ} (m n : ℕ) (a : A) → replicate m a ++ replicate n a ≡ replicate (m + n) a
replicate-append zero n a = let e : 0 + n ≡ n = omega arith in rw e refl
replicate-append (suc m) n a =
    let e : suc m + n ≡ suc (m + n) = omega arith in rw e (ap (◌∷◌ a) (replicate-append m n a))

module _ (api : PaymentApi) (a : Decimal) where
  -- the ledger after n POSTs of one amount
  pub charges-replicate :
      (n : ℕ) (posts : List Decimal)
      → charges api (replicate n a ++ posts)
        ≡ charges api posts ++ replicate (confirmed_from api (length posts) n) a
  charges-replicate zero posts = sym (append-nil (charges api posts))
  charges-replicate (suc n) posts =
      let k = length posts in
      ap (charges api) (sym (replicate_shift n a posts))
      ∙ charges-replicate n (a ∷ posts)
      ∙ append_assoc (charges api posts) (replicate (confirmed (api.answer k)) a)
          (replicate (confirmed_from api (suc k) n) a)
      ∙ ap (λ l. charges api posts ++ l)
          (replicate-append (confirmed (api.answer k)) (confirmed_from api (suc k) n) a)
