-- ===== src/Worker/Group/Safety.antt =====
-- What the group handed out is pending until it was delivered or tried three times.
use mathlib.Core.Path.{subst}
use mathlib.Core.List.{Memᴰ}
use mathlib.Core.List.Memᴰ
use coffee_shop_api.Prelude.{
  ℕ, zero, suc, ◌≡◌, ◌⊎◌, inl, inr, refl, sym, ap, ◌∙◌, String, true, Option, none, some, List, [],
  ◌∷◌, ◌++◌, All, All-map, All-append,
}
use coffee_shop_api.App.{Result, ok, err}
use coffee_shop_api.Worker.{
  Message, Outbox, Remote, deliver, deliver_all, deliver_given, continue, process_batch, noted,
}
use coffee_shop_api.Worker.Loop.{after_batch, worker_rounds}
use coffee_shop_api.Worker.Group.{Group, Each, IsTried, Served, Claims, Reads, Acknowledges}
use coffee_shop_api.Worker.Group.Listed.{all_listed}
use coffee_shop_api.Worker.Group.Accounts.{Accounted, Safe, deliver-Safe}

module _ {G : Type 0} (group : Group G) (remote : Remote G) (claims : Claims group remote)
    (reads : Reads group remote) (acknowledges : Acknowledges group remote) where
  continue_keeps :
      (Q : Outbox G → Type 0) (p : Result (Unit {0}) × Outbox G)
      (rest : Outbox G → Result (Unit {0}) × Outbox G)
      → Q p.1
      → ((v : Outbox G) → Q v → Q (rest v).1)
      → Q (continue p rest).1
  continue_keeps Q (ok done, v) rest h f = f v h
  continue_keeps Q (err e, v) rest h f = h

  abbrev Secure : Outbox G → Type 0
  Secure o = (hs : List Message) × Safe group remote hs o

  deliver_all-Safe :
      (messages hs : List Message) (o : Outbox G)
      → All (λ m. Memᴰ m hs) messages
      → Safe group remote hs o
      → Safe group remote hs (deliver_all remote messages o).1
  unfolding deliver_all
  deliver_all-Safe [] hs o listed h = h
  deliver_all-Safe (m ∷ messages) hs o listed h =
      continue_keeps (Safe group remote hs) (deliver remote m o) (deliver_all remote messages)
        (deliver-Safe group remote claims reads acknowledges m hs o listed.0 h)
        (λ v. deliver_all-Safe messages hs v listed.1)

  -- what is pending in `o` is in the state `g`
  still :
      (o : Outbox G) (g : G) (given : List String) (hs : List Message)
      → ((id : String) → group.is_pending o.group id ≡ true → group.is_pending g id ≡ true)
      → All (Accounted group remote o) hs
      → All (Accounted group remote (record o { given = given; group = g })) hs
  still o g given hs kept =
      All-map (Accounted group remote o)
        (Accounted group remote (record o { given = given; group = g }))
        (λ m a. elim a [ inl pending ↦ inl (kept m.id pending) | inr sent ↦ inr sent ]) hs

  claimed-Safe :
      (hs : List Message) (o : Outbox G) (g : G) (given : Option (List Message))
      → group.handed g ≡ group.handed o.group
      → ((id : String) → group.is_pending o.group id ≡ true → group.is_pending g id ≡ true)
      → Each group (λ m. Memᴰ m hs) given
      → Safe group remote hs o
      → Safe group remote hs (deliver_given remote (given, g) o).1
  claimed-Safe hs o g none handed kept listed h = (handed ∙ h.0, still o g o.given hs kept h.1, h.2)
  claimed-Safe hs o g (some messages) handed kept listed h =
      deliver_all-Safe messages hs (record o { given = noted messages o.given; group = g }) listed
        (handed ∙ h.0, still o g (noted messages o.given) hs kept h.1, h.2)

  -- XAUTOCLAIM and what follows
  claim-Safe :
      (hs : List Message) (o : Outbox G)
      → Safe group remote hs o
      → Safe group remote hs (deliver_given remote (remote.xautoclaim o.group) o).1
  claim-Safe hs o h =
      let (handed, new, kept, listed) = claims o.group in
      let (given, g) = remote.xautoclaim o.group in
      claimed-Safe hs o g given handed kept
        (subst (λ xs. Each group (λ m. Memᴰ m xs) given) h.0 listed) h

  -- the messages `out` are handed out and pending
  grown :
      (o : Outbox G) (g : G) (given : List String) (hs out : List Message)
      → ((id : String) → group.is_pending o.group id ≡ true → group.is_pending g id ≡ true)
      → All (λ m. group.is_pending g m.id ≡ true) out
      → group.handed g ≡ group.handed o.group ++ out
      → Safe group remote hs o
      → Safe group remote (hs ++ out) (record o { given = given; group = g })
  grown o g given hs out kept new handed (same, accounted, posted) =
      let v = record o { given = given; group = g } in
      (
        handed ∙ ap (λ xs. xs ++ out) same,
        All-append (Accounted group remote v) hs out (still o g given hs kept accounted) (
            All-map (λ m. group.is_pending g m.id ≡ true) (Accounted group remote v) (λ m h. inl h)
              out new),
        All-map (λ m. Memᴰ m hs) (λ m. Memᴰ m (hs ++ out)) (λ m h. Memᴰ.append_left out h) o.posts
            posted,
      )

  -- XREADGROUP and what follows
  read-Safe :
      (hs : List Message) (o : Outbox G)
      → Safe group remote hs o
      → (out : List Message) × Safe group remote
          (hs ++ out)
          (deliver_given remote (remote.xreadgroup o.group) o).1
  read-Safe hs o h =
      let (out, handed, new, kept, pending, answer) = reads o.group in
      let (given, g) = remote.xreadgroup o.group in
      (
        out,
        elim answer [
          | inl lost ↦ rw lost (grown o g o.given hs out kept pending handed h)
          | inr answered ↦ rw answered (
              deliver_all-Safe out (hs ++ out) (record o { given = noted out o.given; group = g })
                (all_listed hs out) (grown o g (noted out o.given) hs out kept pending handed h))
        ],
      )

  process_batch-Secure : (o : Outbox G) → Secure o → Secure (process_batch remote o).1
  unfolding process_batch
  process_batch-Secure o (hs, h) =
      continue_keeps Secure (deliver_given remote (remote.xautoclaim o.group) o)
        (λ v. deliver_given remote (remote.xreadgroup v.group) v) (hs, claim-Safe hs o h)
        (λ v k. (k.0 ++ (read-Safe k.0 v k.1).0, (read-Safe k.0 v k.1).1))

  after_batch-Secure : (p : Result (Unit {0}) × Outbox G) → Secure p.1 → Secure (after_batch p)
  after_batch-Secure (ok done, o) h = h
  after_batch-Secure (err e, o) h = h

  worker_rounds-Secure : (n : ℕ) (o : Outbox G) → Secure o → Secure (worker_rounds remote n o)
  unfolding worker_rounds
  worker_rounds-Secure zero o h = h
  worker_rounds-Secure (suc n) o h =
      worker_rounds-Secure n (after_batch (process_batch remote o))
        (after_batch-Secure (process_batch remote o) (process_batch-Secure o h))

  -- Let XAUTOCLAIM, XREADGROUP and XACK do to the group what Redis documents, with other clients
  -- adding messages at any time. Let each message that the group has handed out be pending, or let
  -- a POST for its id have got a 2xx, or three POSTs have been tried for it; and let no other
  -- message have been posted. Then this holds again after any number of rounds of the worker,
  -- whatever the notification URL answers, and whichever commands of Redis raise or lose their
  -- answer: the worker gives a message up only after three tries.
  pub worker_rounds-Served :
      (n : ℕ) (o : Outbox G)
      → Served group remote.reply o
      → Served group remote.reply (worker_rounds remote n o)
  worker_rounds-Served n o (accounted, posted) =
      let (hs, (same, accounted', posted')) =
        worker_rounds-Secure n o (group.handed o.group, (refl, accounted, posted)) in
      let o' = worker_rounds remote n o in
      subst
        (λ xs.
          All (λ m. (group.is_pending o'.group m.id ≡ true) ⊎ IsTried remote.reply m.id o'.posts) xs
          × All (λ m. Memᴰ m xs) o'.posts)
        (sym same) (accounted', posted')
