-- ===== src/Worker/Group/Accounts.antt =====
-- A delivery keeps what the group handed out accounted for.
use mathlib.Core.Path.{subst}
use mathlib.Core.List.{Memᴰ}
use coffee_shop_api.Prelude.{
  ℕ, ◌+◌, ◌≤◌, sym, eq_iff, str_eq, arith, zero, suc, ◌≡◌, ◌⊎◌, inl, inr, refl, ◌∙◌, String, Bool,
  true, false, Bool-cases, List, ◌∷◌, All, All-map, length, ltb,
}
use coffee_shop_api.App.{Result}
use coffee_shop_api.Payment.{is_success}
use coffee_shop_api.Worker.{
  Message, Reply, Outbox, Remote, max_attempts, after_xack, xack, pause, after_reply, attempts,
  deliver,
}
use coffee_shop_api.Worker.Group.{
  Group, Claims, Reads, Acknowledges, is_delivery, tries, is_delivered, IsTried,
}

str_eq_self : (s : String) → str_eq s s ≡ true
str_eq_self s = (eq_iff s s).1 refl

-- one POST more for `m`, and what it does to the accounts of an id
tries_more : (m : Message) (posts : List Message) → tries m.id (m ∷ posts) ≡ suc (tries m.id posts)
tries_more m posts = rw (str_eq_self m.id) (omega arith)

delivered_now :
    (reply : ℕ → Reply) (m : Message) (posts : List Message)
    → is_delivery (reply (length posts)) ≡ true
    → is_delivered reply m.id (m ∷ posts) ≡ true
delivered_now reply m posts h = rw (str_eq_self m.id, h) refl

IsTried-more :
    (reply : ℕ → Reply) (id : String) (m : Message) (posts : List Message)
    → IsTried reply id posts
    → IsTried reply id (m ∷ posts)
IsTried-more reply id m posts (inl delivered) = inl (ground (arith, delivered))
IsTried-more reply id m posts (inr enough) = inr (ground (arith, enough))

module _ {G : Type 0} (group : Group G) (remote : Remote G) where
  -- the worker may be done with the message, or its id is pending
  abbrev pub Accounted : Outbox G → Message → Type 0
  Accounted o m = (group.is_pending o.group m.id ≡ true) ⊎ IsTried remote.reply m.id o.posts

  -- the group has handed out `hs`, each of them is accounted for, and only they were posted
  abbrev pub Safe : List Message → Outbox G → Type 0
  Safe hs o = (group.handed o.group ≡ hs) × All (Accounted o) hs × All (λ m. Memᴰ m hs) o.posts

  -- and the worker may be done with `m`
  abbrev pub Settled : Message → List Message → Outbox G → Type 0
  Settled m hs o = Safe hs o × IsTried remote.reply m.id o.posts

  -- and the attempts that are left make up three
  abbrev pub Trying : ℕ → Message → List Message → Outbox G → Type 0
  Trying left m hs o = Safe hs o × (3 ≤ left + tries m.id o.posts)

  module _ (claims : Claims group remote) (reads : Reads group remote)
      (acknowledges : Acknowledges group remote) where
    module _ (m : Message) (hs : List Message) where
      still :
          (o : Outbox G) (acks : List String) (x : Message)
          → IsTried remote.reply m.id o.posts
          → Accounted o x
          → Accounted (record o { acks = acks; group = (remote.xack m.id o.group).1 }) x
      still o acks x tried (inl pending) = elim ((acknowledges m.id o.group).2 x.id pending) [
        | inl kept ↦ inl kept
        | inr same ↦ inr (subst (λ id. IsTried remote.reply id o.posts) (sym same) tried)
      ]
      still o acks x tried (inr done) = inr done

      after_xack-Safe :
          (b : Bool) (o : Outbox G)
          → Settled m hs o
          → Safe hs (after_xack remote m o (b, (remote.xack m.id o.group).1)).1
      after_xack-Safe true o (safe, tried) = (
        (acknowledges m.id o.group).0 ∙ safe.0,
        All-map (Accounted o)
            (Accounted (record o { acks = m.id ∷ o.acks; group = (remote.xack m.id o.group).1 }))
            (λ x. still o (m.id ∷ o.acks) x tried) hs safe.1,
        safe.2,
      )
      after_xack-Safe false o (safe, tried) = (
        (acknowledges m.id o.group).0 ∙ safe.0,
        All-map (Accounted o) (Accounted (record o { group = (remote.xack m.id o.group).1 }))
            (λ x. still o o.acks x tried) hs safe.1,
        safe.2,
      )

      xack-Safe : (o : Outbox G) → Settled m hs o → Safe hs (xack remote m o).1
      unfolding xack
      xack-Safe o h = after_xack-Safe (remote.xack m.id o.group).0 o h

      pause-Trying :
          (left attempt : ℕ) (o : Outbox G)
          → Trying left m hs o
          → Trying left m hs (pause remote attempt o)
      pause-Trying left attempt o h = elim (Bool-cases (ltb attempt max_attempts)) [
        | inl more ↦ rw more h
        | inr last ↦ rw last h
      ]

      after_reply-Safe :
          (reply : Reply) (left attempt : ℕ) (o : Outbox G)
          (rest : Outbox G → Result (Unit {0}) × Outbox G)
          → ((v : Outbox G) → Trying left m hs v → Safe hs (rest v).1)
          → (is_delivery reply ≡ true → IsTried remote.reply m.id o.posts)
          → Trying left m hs o
          → Safe hs (after_reply remote m attempt rest reply o).1
      after_reply-Safe Reply.request_failed left attempt o rest f d h =
          f (pause remote attempt o) (pause-Trying left attempt o h)
      after_reply-Safe (Reply.post_raised e) left attempt o rest f d h = h.0
      after_reply-Safe (Reply.responded code) left attempt o rest f d h =
          elim (Bool-cases (is_success code)) [
            | inl delivered ↦ rw delivered (xack-Safe o (h.0, d delivered))
            | inr refused ↦ rw refused (f (pause remote attempt o) (pause-Trying left attempt o h))
          ]

      -- a POST of a message that was handed out
      post-Safe :
          (o : Outbox G) → Memᴰ m hs → Safe hs o → Safe hs (record o { posts = m ∷ o.posts })
      post-Safe o listed safe = (
        safe.0,
        All-map (Accounted o) (Accounted (record o { posts = m ∷ o.posts }))
            (λ x a. elim a [
              | inl pending ↦ inl pending
              | inr tried ↦ inr (IsTried-more remote.reply x.id m o.posts tried)
            ])
            hs safe.1,
        (listed, safe.2),
      )

      attempts-Safe :
          (left attempt : ℕ) (o : Outbox G)
          → Memᴰ m hs
          → Trying left m hs o
          → Safe hs (attempts remote left attempt m o).1
      unfolding attempts
      attempts-Safe zero attempt o listed h = xack-Safe o (h.0, inr (omega (arith, h.1)))
      attempts-Safe (suc left) attempt o listed h =
          let one = tries_more m o.posts in
          after_reply-Safe (remote.reply (length o.posts)) left attempt
            (record o { posts = m ∷ o.posts }) (attempts remote left (suc attempt) m)
            (λ v. attempts-Safe left (suc attempt) v listed)
            (λ d. inl (delivered_now remote.reply m o.posts d))
            (post-Safe o listed h.0, omega (arith, one, h.1))

      pub deliver-Safe : (o : Outbox G) → Memᴰ m hs → Safe hs o → Safe hs (deliver remote m o).1
      unfolding deliver
      deliver-Safe o listed h = attempts-Safe max_attempts 1 o listed (h, omega arith)
