-- ===== src/Worker/Group/Done.antt =====
-- Messages that are posted and acknowledged, where Redis and the notification URL answer.
use mathlib.Core.Path.{subst}
use mathlib.Core.List.{Memᴰ}
use mathlib.Core.List.Memᴰ
use coffee_shop_api.Prelude.{
  ℕ, zero, suc, ◌≤◌, ◌≡◌, ◌≢◌, refl, sym, inl, inr, String, true, List, [], ◌∷◌, ◌++◌, All, arith,
}
use coffee_shop_api.App.{Error, Result}
use coffee_shop_api.Payment.Charges.{replicate}
use coffee_shop_api.Worker.{Message, Reply, Outbox, Remote, deliver, deliver_all}
use coffee_shop_api.Worker.Deliveries.{deliver-Delivered, continue-ok}
use coffee_shop_api.Worker.Liveness.{deliver-ok}
use coffee_shop_api.Worker.Group.{Group, Acknowledges}
use coffee_shop_api.Worker.Group.Extends.{Extends, Extends-refl, Extends-trans, deliver-Extends}

-- posted and acknowledged
abbrev pub Done : {G : Type 0} → Outbox G → Message → Type 0
Done o m = Memᴰ m o.posts × Memᴰ m.id o.acks

in_replicate : (m : Message) (k : ℕ) (ms : List Message) → 1 ≤ k → Memᴰ m (replicate k m ++ ms)
in_replicate m zero ms h = absurd (omega arith)
in_replicate m (suc k) ms h = Memᴰ.head refl

module _ {G : Type 0} (group : Group G) where
  -- Nothing that was done is undone, and the stream only grows.
  abbrev pub Later : Outbox G → Outbox G → Type 0
  Later o o' = Extends group o.group o'.group × ((x : Message) → Done o x → Done o' x)

  pub Later-trans : (a b c : Outbox G) → Later a b → Later b c → Later a c
  Later-trans a b c h k =
      (Extends-trans group a.group b.group c.group h.0 k.0, λ x d. k.1 x (h.1 x d))

  module _ (remote : Remote G) (acknowledges : Acknowledges group remote)
      (reached : (id : String) (g : G) → (remote.xack id g).0 ≡ true)
      (posts_end : (n : ℕ) (e : Error) → remote.reply n ≢ Reply.post_raised e) where
    deliver-Done :
        (m : Message) (o : Outbox G) → let o' = (deliver remote m o).1 in Later o o' × Done o' m
    deliver-Done m o =
        let o' = (deliver remote m o).1 in
        let (k, lo, le, sent, same, ending) = deliver-Delivered remote m o in
        let acked : o'.acks ≡ m.id ∷ o.acks = elim ending [
          | inl (returned, first) ↦ first
          | inr (e, raised, kept) ↦
              absurd
                (let returned = deliver-ok remote reached posts_end m o in cc (returned, raised))
        ] in
        (
          (
            deliver-Extends group remote acknowledges m o,
            λ x d. (
              subst (Memᴰ x) (sym sent) (Memᴰ.append_right (replicate k m) d.0),
              subst (Memᴰ x.id) (sym acked) (Memᴰ.tail d.1),
            ),
          ),
          (
            subst (Memᴰ m) (sym sent) (in_replicate m k o.posts lo),
            subst (Memᴰ m.id) (sym acked) (Memᴰ.head refl),
          ),
        )

    pub deliver_all-Done :
        (ms : List Message) (o : Outbox G)
        → let o' = (deliver_all remote ms o).1 in Later o o' × All (Done o') ms
    unfolding deliver_all
    deliver_all-Done [] o = ((Extends-refl group o.group, λ x d. d), tt)
    deliver_all-Done (m ∷ ms) o =
        let v = (deliver remote m o).1 in
        let (first, done) = deliver-Done m o in
        let (rest, all) = deliver_all-Done ms v in
        subst (λ (p : Result (Unit {0}) × Outbox G). Later o p.1 × All (Done p.1) (m ∷ ms))
          (sym (
            continue-ok remote (deliver remote m o) (deliver_all remote ms)
              (deliver-ok remote reached posts_end m o)))
          (Later-trans o v (deliver_all remote ms v).1 first rest, (rest.1 m done, all))
