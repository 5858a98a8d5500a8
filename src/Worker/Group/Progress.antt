-- ===== src/Worker/Group/Progress.antt =====
-- Every message gets through where Redis and the notification URL answer.
use mathlib.Core.Path.{subst}
use coffee_shop_api.Prelude.{
  ℕ, zero, suc, ◌≤◌, ◌≡◌, ◌≢◌, ◌⊎◌, refl, sym, ap, ◌∙◌, inl, inr, String, true, Option, none, some,
  List, [], ◌∷◌, ◌++◌, All, All-map, All-append, append_assoc, append-nil, length, length-append,
  arith,
}
use coffee_shop_api.App.{Error, Result, ok}
use coffee_shop_api.Worker.{
  Message, Reply, Outbox, Remote, deliver_all, deliver_given, process_batch, noted,
}
use coffee_shop_api.Worker.Loop.{after_batch, worker_rounds}
use coffee_shop_api.Worker.Deliveries.{continue-ok}
use coffee_shop_api.Worker.Liveness.{deliver_given-ok, process_batch-ok, after_batch-ok}
use coffee_shop_api.Worker.Group.{Group, entries, Claims, Reads, Acknowledges, Advances}
use coffee_shop_api.Worker.Group.Extends.{Extends}
use coffee_shop_api.Worker.Group.Done.{Done, Later, Later-trans, deliver_all-Done}

-- one of two beginnings of a list is as long as the other or longer
split :
    (out w target rest : List Message)
    → out ++ w ≡ target ++ rest
    → ((more : List Message) × (out ≡ target ++ more))
      ⊎ ((left : List Message) × (target ≡ out ++ left) × (w ≡ left ++ rest))
split [] w target rest e = inr (target, refl, e)
split (x ∷ out) w [] rest e = inl (x ∷ out, refl)
split (x ∷ out) w (y ∷ target) rest e =
    let first : x ≡ y = cc (e) in
    let others : out ++ w ≡ target ++ rest = cc (e) in
    elim (split out w target rest others) [
      | inl (more, h) ↦ inl (more, cc (first, h))
      | inr (left, h, k) ↦ inr (left, cc (first, h), k)
    ]

All_first {ℓ κ} : {A : Type ℓ} (Q : A → Type κ) (xs ys : List A) → All Q (xs ++ ys) → All Q xs
All_first Q [] ys h = tt
All_first Q (x ∷ xs) ys h = (h.0, All_first Q xs ys h.1)

-- what is left after a beginning that is not empty
shorter :
    (out left target : List Message) (n : ℕ)
    → target ≡ out ++ left
    → out ≢ []
    → length target ≤ suc n
    → length left ≤ n
shorter [] left target n e h le = absurd (h refl)
shorter (x ∷ out) left target n e h le = omega (arith, ap length e, length-append out left, le)

module _ {G : Type 0} (group : Group G) (remote : Remote G) (claims : Claims group remote)
    (reads : Reads group remote) (acknowledges : Acknowledges group remote)
    (advances : Advances group remote)
    (reached : (id : String) (g : G) → (remote.xack id g).0 ≡ true)
    (posts_end : (n : ℕ) (e : Error) → remote.reply n ≢ Reply.post_raised e)
    (claims_answer : (g : G) → (remote.xautoclaim g).0 ≢ none)
    (reads_answer : (g : G) → (remote.xreadgroup g).0 ≢ none) where
  claimed-Later :
      (o : Outbox G) (given : Option (List Message)) (g : G)
      → Extends group o.group g
      → Later group o (deliver_given remote (given, g) o).1
  claimed-Later o none g h = (h, λ x d. d)
  claimed-Later o (some messages) g h =
      let v = record o { given = noted messages o.given; group = g } in
      Later-trans group o v (deliver_all remote messages v).1 (h, λ x d. d)
        (deliver_all-Done group remote acknowledges reached posts_end messages v).0

  -- in a round the messages `out` are handed out, from the front of those that wait, and delivered
  abbrev Round : Outbox G → Outbox G → List Message → Type 0
  Round o o' out =
      ((x : Message) → Done o x → Done o' x)
      × All (Done o') out
      × (group.handed o'.group ≡ group.handed o.group ++ out)
      × ((new : List Message) × (out ++ group.waiting o'.group ≡ group.waiting o.group ++ new))
      × (group.waiting o.group ≢ [] → out ≢ [])

  read-Round :
      (o : Outbox G)
      → (out : List Message) × Round o (deliver_given remote (remote.xreadgroup o.group) o).1 out
  read-Round o =
      let (out, handed, (new, from), kept, pending, answer) = reads o.group in
      let (given, g) = remote.xreadgroup o.group in
      let answered : given ≡ some out = elim answer [
        | inl lost ↦ absurd (reads_answer o.group lost)
        | inr all ↦ all
      ] in
      let v = record o { given = noted out o.given; group = g } in
      let ((extends, keep), done) =
        deliver_all-Done group remote acknowledges reached posts_end out v in
      let (same, (more, wait)) = extends in
      (
        out,
        subst (λ a. Round o (deliver_given remote (a, g) o).1 out) (sym answered)
            (
              keep,
              done,
              same ∙ handed,
              (
                new ++ more,
                ap (λ xs. out ++ xs) wait
                    ∙ sym (append_assoc out (group.waiting g) more)
                    ∙ ap (λ xs. xs ++ more) from
                    ∙ append_assoc (group.waiting o.group) new more,
              ),
              λ some_wait e. advances o.group some_wait (answered ∙ ap some e),
            ),
      )

  -- what waits after more has come
  still_waits : (xs ys : List Message) → xs ≢ [] → xs ++ ys ≢ []
  still_waits [] ys h e = h refl
  still_waits (x ∷ xs) ys h e = absurd (cc (e))

  after_claim :
      (o v o' : Outbox G) (out : List Message) → Later group o v → Round v o' out → Round o o' out
  after_claim o v o' out ((same, (more, wait)), keep) (keep', done, handed, (new, from), advanced) =
      (
        λ x d. keep' x (keep x d),
        done,
        handed ∙ ap (λ xs. xs ++ out) same,
        (
          more ++ new,
          from ∙ ap (λ xs. xs ++ new) wait ∙ append_assoc (group.waiting o.group) more new,
        ),
        λ h.
            advanced
              (subst (λ xs. xs ≢ []) (sym wait) (still_waits (group.waiting o.group) more h)),
      )

  process_batch-Round :
      (o : Outbox G) → (out : List Message) × Round o (process_batch remote o).1 out
  unfolding process_batch
  process_batch-Round o =
      let p = deliver_given remote (remote.xautoclaim o.group) o in
      let (same, more, kept, listed) = claims o.group in
      let (given, g) = remote.xautoclaim o.group in
      let first : p.0 ≡ ok tt =
        deliver_given-ok remote reached posts_end (given, g) o (claims_answer o.group) in
      let (out, round) = read-Round p.1 in
      (
        out,
        subst (λ (q : Result (Unit {0}) × Outbox G). Round o q.1 out)
            (sym (
              continue-ok remote p (λ v. deliver_given remote (remote.xreadgroup v.group) v) first))
            (after_claim o p.1 (deliver_given remote (remote.xreadgroup p.1.group) p.1).1 out
              (claimed-Later o given g (same, more)) round),
      )

  after_batch-Round :
      (o : Outbox G) → (out : List Message) × Round o (after_batch (process_batch remote o)) out
  after_batch-Round o =
      let (out, round) = process_batch-Round o in
      (
        out,
        subst (λ v. Round o v out)
            (sym (
              after_batch-ok remote reached posts_end claims_answer reads_answer
                (process_batch remote o)
                (process_batch-ok remote reached posts_end claims_answer reads_answer o)))
            round,
      )

  worker_rounds-keep :
      (n : ℕ) (o : Outbox G) (x : Message) → Done o x → Done (worker_rounds remote n o) x
  unfolding worker_rounds
  worker_rounds-keep zero o x d = d
  worker_rounds-keep (suc n) o x d =
      worker_rounds-keep n (after_batch (process_batch remote o)) x ((after_batch-Round o).1.0 x d)

  through :
      (n : ℕ) (o : Outbox G) (target rest : List Message)
      → group.waiting o.group ≡ target ++ rest
      → length target ≤ n
      → All (Done (worker_rounds remote n o)) target
  unfolding worker_rounds
  through n o [] rest e le = tt
  through zero o (x ∷ target) rest e le = absurd (omega arith)
  through (suc n) o (x ∷ target) rest e le =
      let v = after_batch (process_batch remote o) in
      let (out, (keep, done, handed, (new, from), advanced)) = after_batch-Round o in
      let later = worker_rounds-keep n v in
      let all : All (Done (worker_rounds remote n v)) out =
        All-map (Done v) (Done (worker_rounds remote n v)) later out done in
      let joined : out ++ group.waiting v.group ≡ (x ∷ target) ++ (rest ++ new) =
        from ∙ ap (λ xs. xs ++ new) e ∙ append_assoc (x ∷ target) rest new in
      let waits : group.waiting o.group ≢ [] = λ h. absurd (cc (e, h)) in
      elim (split out (group.waiting v.group) (x ∷ target) (rest ++ new) joined) [
        | inl (more, longer) ↦
            All_first (Done (worker_rounds remote n v)) (x ∷ target) more
              (subst (All (Done (worker_rounds remote n v))) longer all)
        | inr (left, cut, next) ↦ subst (All (Done (worker_rounds remote n v))) (sym cut) (
            All-append (Done (worker_rounds remote n v)) out left all (
              through n v left (rest ++ new) next
                (shorter out left (x ∷ target) n cut (advanced waits) le)))
      ]

  -- Let the commands do to the group what Redis documents, with other clients adding messages at
  -- any time; let Redis answer every command, XREADGROUP with something where a message waits, and
  -- let each POST end in a response or a RequestError, whatever the status codes. Then after as
  -- many rounds of the worker as messages wait, or more, each message of the stream was posted and
  -- is acknowledged, those that were handed out before only if they were posted and acknowledged
  -- then.
  pub worker_rounds-Done :
      (n : ℕ) (o : Outbox G)
      → All (Done o) (group.handed o.group)
      → length (group.waiting o.group) ≤ n
      → All (Done (worker_rounds remote n o)) (entries group o.group)
  worker_rounds-Done n o h le =
      let o' = worker_rounds remote n o in
      All-append (Done o') (group.handed o.group) (group.waiting o.group)
        (All-map (Done o) (Done o') (worker_rounds-keep n o) (group.handed o.group) h)
        (through n o (group.waiting o.group) [] (sym (append-nil (group.waiting o.group))) le)
