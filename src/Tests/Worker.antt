-- ===== src/Tests/Worker.antt =====
-- The worker.
use coffee_shop_api.Prelude.{
  ℕ, ◌+◌, ◌++◌, ◌≡◌, ◌≢◌, refl, ◌==◌, true, some, arith, inl, inr, Bool-cases, [], ◌∷◌, List,
  String, if◌then◌else◌,
}
use coffee_shop_api.App.{Error, ok}
use coffee_shop_api.Worker.{Message, Reply, Outbox, Remote, deliver}
use coffee_shop_api.Worker.Loop.{worker_rounds}
use coffee_shop_api.Worker.Liveness.{worker_rounds-acks}

-- Redis as the number of its XREADGROUPs so far; it gives the same two messages each time
abbrev pub second_time : Remote ℕ
second_time = record {
  reply = λ n. if n == 0 then Reply.request_failed else Reply.responded 200;
  xautoclaim = λ g. (some (record { id = "0-9"; status = "DELIVERED" } ∷ []), g);
  xreadgroup = λ g. (some (record { id = "1-0"; status = "READY" } ∷ []), g + 1);
  xack = λ id g. (true, g);
}

abbrev ready_message : Message
ready_message = record { id = "1-0"; status = "READY" }

abbrev pub start : Outbox ℕ
start = record { posts = []; acks = []; given = []; slept = 0; group = 0 }

delivered : deliver second_time ready_message start ≡ (
  ok tt,
  record {
    posts = ready_message ∷ ready_message ∷ [];
    acks = "1-0" ∷ [];
    given = [];
    slept = 2;
    group = 0;
  },
)
unfolding deliver
delivered = refl

posts_end : (n : ℕ) (e : Error) → second_time.reply n ≢ Reply.post_raised e
posts_end n e h = elim (Bool-cases (n == 0)) [ inl first ↦ ground arith | inr later ↦ ground arith ]

worker_rounds-acks_example :
    let o' = worker_rounds second_time 2 start in
    (gave : List String) × (o'.given ≡ gave ++ []) × (o'.acks ≡ gave ++ [])
worker_rounds-acks_example =
    worker_rounds-acks second_time (λ id g. refl) posts_end (λ g e. absurd (cc (e)))
      (λ g e. absurd (cc (e))) 2 start
