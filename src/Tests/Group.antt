-- ===== src/Tests/Group.antt =====
-- The worker with a stream and its consumer group that keep their messages in lists.
use mathlib.Core.List.{Memᴰ}
use coffee_shop_api.Prelude.{
  ℕ, ◌≡◌, ◌≢◌, ◌⊎◌, inl, inr, refl, ◌==◌, sym, ◌∙◌, String, true, not, Bool-cases, Option, none,
  some, List, [], ◌∷◌, ◌++◌, any, select, All, All-selected, str_eq, eq_iff, append-nil, arith,
  if◌then◌else◌,
}
use coffee_shop_api.App.{Error}
use coffee_shop_api.Worker.{Message, Reply, Outbox, Remote}
use coffee_shop_api.Worker.Loop.{worker_rounds}
use coffee_shop_api.Worker.Group.{Group, Claims, Reads, Acknowledges, Advances, Served}
use coffee_shop_api.Worker.Group.Listed.{all_listed}
use coffee_shop_api.Worker.Group.Safety.{worker_rounds-Served}

pub record Lists : Type 0 where
  pub handed : List Message
  pub waiting : List Message
  pub pending : List String

abbrev pub lists : Group Lists
lists = record {
  handed = λ g. g.handed;
  waiting = λ g. g.waiting;
  is_pending = λ g id. any (str_eq id) g.pending;
}

abbrev read_one : List Message → Lists → Option (List Message) × Lists
read_one [] g = (some [], g)
read_one (m ∷ ms) g = (
  some (m ∷ []),
  record { handed = g.handed ++ m ∷ []; waiting = ms; pending = m.id ∷ g.pending },
)

-- the first POST fails, and the later ones are refused or delivered in turn
abbrev pub in_lists : Remote Lists
in_lists = record {
  reply =
      λ n. if n == 0 then Reply.request_failed else Reply.responded (if n == 1 then 500 else 200);
  xautoclaim = λ g. (some (select (λ m. any (str_eq m.id) g.pending) g.handed), g);
  xreadgroup = λ g. read_one g.waiting g;
  xack = λ id g. (true, record g { pending = select (λ x. not (str_eq x id)) g.pending });
}

abbrev two_waiting : Lists
two_waiting = record {
  handed = [];
  waiting =
      record { id = "1-0"; status = "READY" } ∷ record { id = "2-0"; status = "DELIVERED" } ∷ [];
  pending = [];
}

abbrev pub begin : Lists → Outbox Lists
begin g = record { posts = []; acks = []; given = []; slept = 0; group = g }

pub claims : Claims lists in_lists
claims g = (
  refl,
  ([], sym (append-nil g.waiting)),
  λ id h. h,
  All-selected (λ m. Memᴰ m g.handed) (λ m. any (str_eq m.id) g.pending) g.handed
      (all_listed [] g.handed),
)

read_law :
    (ms : List Message) (g : Lists)
    → g.waiting ≡ ms
    → ((out : List Message) × ((read_one ms g).1.handed ≡ g.handed ++ out)
        × ((new : List Message) × (out ++ (read_one ms g).1.waiting ≡ g.waiting ++ new))
        × ((id : String)
            → any (str_eq id) g.pending ≡ true
            → any (str_eq id) (read_one ms g).1.pending ≡ true)
        × All (λ m. any (str_eq m.id) (read_one ms g).1.pending ≡ true) out
        × (((read_one ms g).0 ≡ none) ⊎ ((read_one ms g).0 ≡ some out)))
read_law [] g e =
    ([], sym (append-nil g.handed), ([], sym (append-nil g.waiting)), λ id h. h, tt, inr refl)
read_law (m ∷ ms) g e = (
  m ∷ [],
  refl,
  ([], sym (append-nil g.waiting ∙ e)),
  λ id h. ground (arith, h),
  (ground (arith, eq_iff m.id m.id), tt),
  inr refl,
)

pub reads : Reads lists in_lists
reads g = read_law g.waiting g refl

-- taking one id off leaves the others
taken_off :
    (acked id : String) (xs : List String)
    → any (str_eq id) xs ≡ true
    → (any (str_eq id) (select (λ x. not (str_eq x acked)) xs) ≡ true) ⊎ (id ≡ acked)
taken_off acked id [] h = absurd (cc (h))
taken_off acked id (x ∷ xs) h = elim (Bool-cases (str_eq id x)) [
  | inl first ↦ elim (Bool-cases (str_eq x acked)) [
    | inl off ↦ inr ((eq_iff id x).0 first ∙ (eq_iff x acked).0 off)
    | inr on ↦ inl (ground (arith, on, first))
  ]
  | inr other ↦ elim (taken_off acked id xs (ground (arith, h, other))) [
    | inl kept ↦ inl (ground (arith, kept))
    | inr same ↦ inr same
  ]
]

pub acknowledges : Acknowledges lists in_lists
acknowledges acked g =
    (refl, ([], sym (append-nil g.waiting)), λ id h. taken_off acked id g.pending h)

advances_law : (ms : List Message) (g : Lists) → ms ≢ [] → (read_one ms g).0 ≢ some []
advances_law [] g h e = h refl
advances_law (m ∷ ms) g h e = absurd (cc (e))

reads_law : (ms : List Message) (g : Lists) → (read_one ms g).0 ≢ none
reads_law [] g e = absurd (cc (e))
reads_law (m ∷ ms) g e = absurd (cc (e))

pub posts_end : (n : ℕ) (e : Error) → in_lists.reply n ≢ Reply.post_raised e
posts_end n e h = elim (Bool-cases (n == 0)) [ inl first ↦ ground arith | inr later ↦ ground arith ]

pub advances : Advances lists in_lists
advances g = advances_law g.waiting g

pub claims_answer : (g : Lists) → (in_lists.xautoclaim g).0 ≢ none
claims_answer g e = absurd (cc (e))

pub reads_answer : (g : Lists) → (in_lists.xreadgroup g).0 ≢ none
reads_answer g = reads_law g.waiting g

worker_rounds-Served_example :
    Served lists in_lists.reply (worker_rounds in_lists 2 (begin two_waiting))
worker_rounds-Served_example =
    worker_rounds-Served lists in_lists claims reads acknowledges 2 (begin two_waiting) (tt, tt)
