-- ===== src/Worker/Liveness.antt =====
-- What the worker gets done where Redis and the notification URL answer.
use coffee_shop_api.Prelude.{
  ℕ, zero, suc, ◌≡◌, ◌≢◌, refl, ap, ◌∙◌, String, Bool, true, Bool-cases, inl, inr, Option, none,
  some, sym, ◌++◌, append_assoc, List, [], ◌∷◌, length,
}
use coffee_shop_api.App.{Error, Result, ok, err}
use coffee_shop_api.Payment.{is_success}
use coffee_shop_api.Worker.{
  Message, Reply, Outbox, Remote, max_attempts, xack, pause, after_reply, attempts, deliver,
  deliver_all, deliver_given, process_batch, noted, after_xack,
}
use coffee_shop_api.Worker.Deliveries.{continue-ok, process_batch-acks}
use coffee_shop_api.Worker.Loop.{after_batch, worker_rounds}

module _ {G : Type 0} (remote : Remote G)
    (reached : (id : String) (g : G) → (remote.xack id g).0 ≡ true)
    (posts_end : (n : ℕ) (e : Error) → remote.reply n ≢ Reply.post_raised e) where
  after_xack-ok :
      (m : Message) (o : Outbox G) (p : Bool × G) → p.0 ≡ true → (after_xack remote m o p).0 ≡ ok tt
  after_xack-ok m o (b, group) h = rw h refl

  xack-ok : (m : Message) (o : Outbox G) → (xack remote m o).0 ≡ ok tt
  unfolding xack
  xack-ok m o = after_xack-ok m o (remote.xack m.id o.group) (reached m.id o.group)

  after_reply-ok :
      (reply : Reply) (attempt : ℕ) (m : Message) (o : Outbox G)
      (rest : Outbox G → Result (Unit {0}) × Outbox G)
      → ((e : Error) → reply ≢ Reply.post_raised e)
      → ((v : Outbox G) → (rest v).0 ≡ ok tt)
      → (after_reply remote m attempt rest reply o).0 ≡ ok tt
  after_reply-ok Reply.request_failed attempt m o rest ends h = h (pause remote attempt o)
  after_reply-ok (Reply.post_raised e) attempt m o rest ends h = absurd (ends e refl)
  after_reply-ok (Reply.responded code) attempt m o rest ends h =
      elim (Bool-cases (is_success code)) [
        | inl delivered ↦ rw delivered (xack-ok m o)
        | inr refused ↦ rw refused (h (pause remote attempt o))
      ]

  attempts-ok :
      (left attempt : ℕ) (m : Message) (o : Outbox G) → (attempts remote left attempt m o).0 ≡ ok tt
  unfolding attempts
  attempts-ok zero attempt m o = xack-ok m o
  attempts-ok (suc left) attempt m o =
      after_reply-ok (remote.reply (length o.posts)) attempt m (record o { posts = m ∷ o.posts })
        (attempts remote left (suc attempt) m) (posts_end (length o.posts))
        (attempts-ok left (suc attempt) m)

  pub deliver-ok : (m : Message) (o : Outbox G) → (deliver remote m o).0 ≡ ok tt
  unfolding deliver
  deliver-ok m o = attempts-ok max_attempts 1 m o

  deliver_all-ok : (ms : List Message) (o : Outbox G) → (deliver_all remote ms o).0 ≡ ok tt
  unfolding deliver_all
  deliver_all-ok [] o = refl
  deliver_all-ok (m ∷ ms) o =
      ap (λ (q : Result (Unit {0}) × Outbox G). q.0)
        (continue-ok remote (deliver remote m o) (deliver_all remote ms) (deliver-ok m o))
      ∙ deliver_all-ok ms (deliver remote m o).1

  pub deliver_given-ok :
      (p : Option (List Message) × G) (o : Outbox G)
      → p.0 ≢ none
      → (deliver_given remote p o).0 ≡ ok tt
  deliver_given-ok (none, group) o h = absurd (h refl)
  deliver_given-ok (some messages, group) o h =
      deliver_all-ok messages (record o { given = noted messages o.given; group = group })

  module _ (claims : (g : G) → (remote.xautoclaim g).0 ≢ none)
      (reads : (g : G) → (remote.xreadgroup g).0 ≢ none) where
    pub process_batch-ok : (o : Outbox G) → (process_batch remote o).0 ≡ ok tt
    unfolding process_batch
    process_batch-ok o =
        let p = deliver_given remote (remote.xautoclaim o.group) o in
        let first : p.0 ≡ ok tt = deliver_given-ok (remote.xautoclaim o.group) o (claims o.group) in
        ap (λ (q : Result (Unit {0}) × Outbox G). q.0)
          (continue-ok remote p (λ v. deliver_given remote (remote.xreadgroup v.group) v) first)
        ∙ deliver_given-ok (remote.xreadgroup p.1.group) p.1 (reads p.1.group)

    pub after_batch-ok : (p : Result (Unit {0}) × Outbox G) → p.0 ≡ ok tt → after_batch p ≡ p.1
    after_batch-ok (ok done, o) h = refl
    after_batch-ok (err e, o) h = absurd (cc)

    -- Let Redis answer every XACK, XAUTOCLAIM and XREADGROUP, and let each POST end in a response
    -- or a RequestError, whatever the status codes. Then after any number of rounds the worker has
    -- acknowledged every message that it was given in them, each once and in the order in which it
    -- was given, and no other.
    pub worker_rounds-acks :
        (n : ℕ) (o : Outbox G)
        → let o' = worker_rounds remote n o in
          (gave : List String) × (o'.given ≡ gave ++ o.given) × (o'.acks ≡ gave ++ o.acks)
    unfolding worker_rounds
    worker_rounds-acks zero o = ([], refl, refl)
    worker_rounds-acks (suc n) o =
        let p = process_batch remote o in
        let (gave, given, acked) = process_batch-acks remote o in
        let same : after_batch p ≡ p.1 = after_batch-ok p (process_batch-ok o) in
        let (more, given', acked') = worker_rounds-acks n (after_batch p) in
        (
          more ++ gave,
          given'
              ∙ ap (λ (v : Outbox G). more ++ v.given) same
              ∙ ap (λ xs. more ++ xs) given
              ∙ sym (append_assoc more gave o.given),
          acked'
              ∙ ap (λ (v : Outbox G). more ++ v.acks) same
              ∙ ap (λ xs. more ++ xs) (acked (process_batch-ok o))
              ∙ sym (append_assoc more gave o.acks),
        )
