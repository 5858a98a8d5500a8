-- ===== src/Worker/Deliveries.antt =====
-- What a delivery does.
use coffee_shop_api.Prelude.{
  ℕ, zero, suc, ◌+◌, ◌^◌, ◌≤◌, ◌≡◌, refl, sym, ap, some, ◌∙◌, Bool, true, false, ◌⊎◌, inl, inr,
  List, [], ◌∷◌, ◌++◌, append_assoc, Option, none, String, length, ltb, if◌then◌else◌, arith,
}
use coffee_shop_api.App.{Error, Result, ok, err}
use coffee_shop_api.Payment.{is_success}
use coffee_shop_api.Payment.Charges.{replicate, replicate_shift}
use coffee_shop_api.Worker.{
  Message, Reply, Outbox, Remote, max_attempts, xack, after_reply, attempts, deliver, deliver_all,
  continue, process_batch, noted, deliver_given, after_xack,
}

module _ {G : Type 0} (remote : Remote G) (message : Message) where
  -- From `o` to `o'`: at most `n` more POSTs, of this status; and the message is acknowledged once,
  -- if the run returns, and otherwise not at all.
  abbrev pub Delivered : ℕ → Outbox G → Result (Unit {0}) × Outbox G → Type 0
  Delivered n o (r, o') =
      (k : ℕ) × (k ≤ n)
      × (o'.posts ≡ replicate k message ++ o.posts)
      × (o'.given ≡ o.given)
      × (((r ≡ ok tt) × (o'.acks ≡ message.id ∷ o.acks))
          ⊎ ((e : Error) × (r ≡ err e) × (o'.acks ≡ o.acks)))

  after_xack-Delivered :
      (p : Bool × G) (o : Outbox G) → Delivered 0 o (after_xack remote message o p)
  after_xack-Delivered (true, group) o = (0, omega arith, refl, refl, inl (refl, refl))
  after_xack-Delivered (false, group) o =
      (0, omega arith, refl, refl, inr (Error.redis_error, refl, refl))

  xack-Delivered : (o : Outbox G) → Delivered 0 o (xack remote message o)
  unfolding xack
  xack-Delivered o = after_xack-Delivered (remote.xack message.id o.group) o

  -- one POST more
  posted :
      (n : ℕ) (o : Outbox G) (p : Result (Unit {0}) × Outbox G)
      → Delivered n (record o { posts = message ∷ o.posts }) p
      → Delivered (suc n) o p
  posted n o p (k, le, sent, same, ending) =
      (suc k, omega arith, sent ∙ replicate_shift k message o.posts, same, ending)

  -- fewer POSTs than allowed
  weaker :
      (n : ℕ) (o : Outbox G) (p : Result (Unit {0}) × Outbox G) → Delivered 0 o p → Delivered n o p
  weaker n o p (k, le, sent, same, ending) = (k, omega arith, sent, same, ending)

  -- a pause posts and acknowledges nothing
  unpause-if :
      (b : Bool) (n slept : ℕ) (o : Outbox G) (rest : Outbox G → Result (Unit {0}) × Outbox G)
      → ((v : Outbox G) → Delivered n v (rest v))
      → Delivered n o (rest (if b then record o { slept = slept } else o))
  unpause-if true n slept o rest h = h (record o { slept = slept })
  unpause-if false n slept o rest h = h o

  success-if :
      (b : Bool) (n slept : ℕ) (o : Outbox G) (paused : Bool)
      (rest : Outbox G → Result (Unit {0}) × Outbox G)
      → ((v : Outbox G) → Delivered n v (rest v))
      → Delivered n o (
          if b
          then xack remote message o
          else rest (if paused then record o { slept = slept } else o))
  success-if true n slept o paused rest h = weaker n o (xack remote message o) (xack-Delivered o)
  success-if false n slept o paused rest h = unpause-if paused n slept o rest h

  after_reply-Delivered :
      (n attempt : ℕ) (reply : Reply) (o : Outbox G)
      (rest : Outbox G → Result (Unit {0}) × Outbox G)
      → ((v : Outbox G) → Delivered n v (rest v))
      → Delivered n o (after_reply remote message attempt rest reply o)
  after_reply-Delivered n attempt Reply.request_failed o rest h =
      unpause-if (ltb attempt max_attempts) n (o.slept + 2 ^ attempt) o rest h
  after_reply-Delivered n attempt (Reply.post_raised e) o rest h =
      (0, omega arith, refl, refl, inr (e, refl, refl))
  after_reply-Delivered n attempt (Reply.responded code) o rest h =
      success-if (is_success code) n (o.slept + 2 ^ attempt) o (ltb attempt max_attempts) rest h

  attempts-Delivered :
      (n attempt : ℕ) (o : Outbox G) → Delivered n o (attempts remote n attempt message o)
  unfolding attempts
  attempts-Delivered zero attempt o = xack-Delivered o
  attempts-Delivered (suc n) attempt o =
      let v = record o { posts = message ∷ o.posts } in
      posted n o (attempts remote (suc n) attempt message o) (
        after_reply-Delivered n attempt (remote.reply (length o.posts)) v
          (attempts remote n (suc attempt) message) (attempts-Delivered n (suc attempt)))

  -- A delivery, whatever the notification URL answers: it posts the message's status once to three
  -- times and nothing else; if it returns, it has acknowledged this message, once, and no other,
  -- and if it raises, none. So no message is acknowledged that was not posted.
  pub deliver-Delivered :
      (o : Outbox G)
      → let p = deliver remote message o in
        (k : ℕ) × (1 ≤ k)
        × (k ≤ max_attempts)
        × (p.1.posts ≡ replicate k message ++ o.posts)
        × (p.1.given ≡ o.given)
        × (((p.0 ≡ ok tt) × (p.1.acks ≡ message.id ∷ o.acks))
            ⊎ ((e : Error) × (p.0 ≡ err e) × (p.1.acks ≡ o.acks)))
  unfolding deliver attempts
  deliver-Delivered o =
      let v = record o { posts = message ∷ o.posts } in
      let (k, le, sent, same, ending) =
        after_reply-Delivered 2 1 (remote.reply (length o.posts)) v (attempts remote 2 2 message)
          (attempts-Delivered 2 2) in
      (suc k, omega arith, omega arith, sent ∙ replicate_shift k message o.posts, same, ending)

module _ {G : Type 0} (remote : Remote G) where
  pub continue-ok :
      (p : Result (Unit {0}) × Outbox G) (rest : Outbox G → Result (Unit {0}) × Outbox G)
      → p.0 ≡ ok tt
      → continue p rest ≡ rest p.1
  continue-ok (ok done, o) rest h = refl
  continue-ok (err e, o) rest h = absurd (cc)

  continue-first :
      (p : Result (Unit {0}) × Outbox G) (rest : Outbox G → Result (Unit {0}) × Outbox G)
      → (continue p rest).0 ≡ ok tt
      → p.0 ≡ ok tt
  continue-first (ok done, o) rest h = refl
  continue-first (err e, o) rest h = absurd (cc)

  continue-err :
      (p : Result (Unit {0}) × Outbox G) (rest : Outbox G → Result (Unit {0}) × Outbox G)
      (e : Error)
      → p.0 ≡ err e
      → continue p rest ≡ p
  continue-err (ok done, o) rest e h = absurd (cc)
  continue-err (err e', o) rest e h = refl

  pub noted_from :
      (messages : List Message) (ids : List String) → noted messages ids ≡ noted messages [] ++ ids
  noted_from [] ids = refl
  noted_from (m ∷ messages) ids =
      noted_from messages (m.id ∷ ids)
      ∙ sym (append_assoc (noted messages []) (m.id ∷ []) ids)
      ∙ ap (λ xs. xs ++ ids) (sym (noted_from messages (m.id ∷ [])))

  deliver_all-acks :
      (messages : List Message) (o : Outbox G)
      → let p = deliver_all remote messages o in
        (p.1.given ≡ o.given) × (p.0 ≡ ok tt → p.1.acks ≡ noted messages o.acks)
  unfolding deliver_all
  deliver_all-acks [] o = (refl, λ h. refl)
  deliver_all-acks (m ∷ messages) o =
      let p = deliver remote m o in
      let rest = deliver_all remote messages in
      let (k, lo, le, sent, kept, ending) = deliver-Delivered remote m o in
      let (same, acked) = deliver_all-acks messages p.1 in
      elim ending [
        | inl (returned, first) ↦
            rw (continue-ok p rest returned) (same ∙ kept, λ h. acked h ∙ ap (noted messages) first)
        | inr (e, raised, none_acked) ↦
            rw (continue-err p rest e raised) (kept, λ h. absurd (cc (raised, h)))
      ]

  -- what was given, and if the run returned also acknowledged, from `o` to the end
  abbrev pub Answered : Outbox G → Result (Unit {0}) × Outbox G → Type 0
  Answered o (r, o') =
      (gave : List String) × (o'.given ≡ gave ++ o.given) × (r ≡ ok tt → o'.acks ≡ gave ++ o.acks)

  pub deliver_given-Answered :
      (p : Option (List Message) × G) (o : Outbox G) → Answered o (deliver_given remote p o)
  deliver_given-Answered (none, group) o = ([], refl, λ h. absurd (cc))
  deliver_given-Answered (some messages, group) o =
      let v = record o { given = noted messages o.given; group = group } in
      let (same, acked) = deliver_all-acks messages v in
      (
        noted messages [],
        same ∙ noted_from messages o.given,
        λ h. acked h ∙ noted_from messages o.acks,
      )

  pub continue-Answered :
      (o : Outbox G) (p : Result (Unit {0}) × Outbox G)
      (rest : Outbox G → Result (Unit {0}) × Outbox G)
      → Answered o p
      → ((v : Outbox G) → Answered v (rest v))
      → Answered o (continue p rest)
  continue-Answered o (ok done, v) rest (gave, given, acked) f =
      let (more, given', acked') = f v in
      (
        more ++ gave,
        given' ∙ ap (λ xs. more ++ xs) given ∙ sym (append_assoc more gave o.given),
        λ h. acked' h ∙ ap (λ xs. more ++ xs) (acked refl) ∙ sym (append_assoc more gave o.acks),
      )
  continue-Answered o (err e, v) rest (gave, given, acked) f = (gave, given, λ h. absurd (cc))

  -- A batch, whatever Redis and the notification URL do: if it returns, it has acknowledged each
  -- message that Redis gave it, once, in the order in which they were given, and no other message.
  pub process_batch-acks :
      (o : Outbox G)
      → let p = process_batch remote o in
        (gave : List String) × (p.1.given ≡ gave ++ o.given)
        × (p.0 ≡ ok tt → p.1.acks ≡ gave ++ o.acks)
  unfolding process_batch
  process_batch-acks o =
      continue-Answered o (deliver_given remote (remote.xautoclaim o.group) o)
        (λ v. deliver_given remote (remote.xreadgroup v.group) v)
        (deliver_given-Answered (remote.xautoclaim o.group) o)
        (λ v. deliver_given-Answered (remote.xreadgroup v.group) v)
