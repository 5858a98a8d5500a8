-- ===== src/Worker/Group/Extends.antt =====
-- What a delivery does to the stream: nothing but what other clients add meanwhile.
use coffee_shop_api.Prelude.{
  ℕ, zero, suc, ◌≡◌, refl, sym, ap, ◌∙◌, Bool, true, false, Bool-cases, inl, inr, List, [], ◌∷◌,
  ◌++◌, append-nil, append_assoc, length, ltb,
}
use coffee_shop_api.App.{Result}
use coffee_shop_api.Payment.{is_success}
use coffee_shop_api.Worker.{
  Message, Reply, Outbox, Remote, max_attempts, after_xack, xack, pause, after_reply, attempts,
  deliver,
}
use coffee_shop_api.Worker.Group.{Group, Acknowledges}

module _ {G : Type 0} (group : Group G) where
  -- the messages that wait in `g` wait in `g'`, with new ones behind them, and none was handed out
  abbrev pub Extends : G → G → Type 0
  Extends g g' =
      (group.handed g' ≡ group.handed g)
      × ((new : List Message) × (group.waiting g' ≡ group.waiting g ++ new))

  pub Extends-refl : (g : G) → Extends g g
  Extends-refl g = (refl, ([], sym (append-nil (group.waiting g))))

  pub Extends-trans : (a b c : G) → Extends a b → Extends b c → Extends a c
  Extends-trans a b c (same, (new, more)) (same', (new', more')) = (
    same' ∙ same,
    (new ++ new', more' ∙ ap (λ xs. xs ++ new') more ∙ append_assoc (group.waiting a) new new'),
  )

  module _ (remote : Remote G) (acknowledges : Acknowledges group remote) (m : Message) where
    after_xack-group : (o : Outbox G) (p : Bool × G) → (after_xack remote m o p).1.group ≡ p.1
    after_xack-group o (true, g) = refl
    after_xack-group o (false, g) = refl

    xack-Extends : (o : Outbox G) → Extends o.group (xack remote m o).1.group
    unfolding xack
    xack-Extends o =
        let (same, new, kept) = acknowledges m.id o.group in
        rw (after_xack-group o (remote.xack m.id o.group)) (same, new)

    pause-group : (attempt : ℕ) (o : Outbox G) → (pause remote attempt o).group ≡ o.group
    pause-group attempt o = elim (Bool-cases (ltb attempt max_attempts)) [
      | inl more ↦ rw more refl
      | inr last ↦ rw last refl
    ]

    after_reply-Extends :
        (reply : Reply) (attempt : ℕ) (o : Outbox G)
        (rest : Outbox G → Result (Unit {0}) × Outbox G)
        → ((v : Outbox G) → Extends v.group (rest v).1.group)
        → Extends o.group (after_reply remote m attempt rest reply o).1.group
    after_reply-Extends Reply.request_failed attempt o rest h =
        let v = pause remote attempt o in
        Extends-trans o.group v.group (rest v).1.group
          (rw (pause-group attempt o) (Extends-refl o.group)) (h v)
    after_reply-Extends (Reply.post_raised e) attempt o rest h = Extends-refl o.group
    after_reply-Extends (Reply.responded code) attempt o rest h =
        elim (Bool-cases (is_success code)) [
          | inl delivered ↦ rw delivered (xack-Extends o)
          | inr refused ↦ rw refused (
              let v = pause remote attempt o in
              Extends-trans o.group v.group (rest v).1.group
                (rw (pause-group attempt o) (Extends-refl o.group)) (h v))
        ]

    attempts-Extends :
        (left attempt : ℕ) (o : Outbox G)
        → Extends o.group (attempts remote left attempt m o).1.group
    unfolding attempts
    attempts-Extends zero attempt o = xack-Extends o
    attempts-Extends (suc left) attempt o =
        after_reply-Extends (remote.reply (length o.posts)) attempt
          (record o { posts = m ∷ o.posts }) (attempts remote left (suc attempt) m)
          (attempts-Extends left (suc attempt))

    pub deliver-Extends : (o : Outbox G) → Extends o.group (deliver remote m o).1.group
    unfolding deliver
    deliver-Extends o = attempts-Extends max_attempts 1 o
