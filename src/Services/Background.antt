-- ===== src/Services/Background.antt =====
-- src/infrastructure/services/notification_service.py: notifications that are posted by a task of
-- their own, without Redis. httpx is a parameter; the event loop, which runs
-- the scheduled tasks or loses them, is not modelled.
use coffee_shop_api.Prelude.{ℕ, ◌+◌, String, Bool, List, [], ◌∷◌, ◌++◌, length, if◌then◌else◌}
use coffee_shop_api.App.{Error, Result, ok, err}

-- What comes of a POST: an exception of httpx, or a response whose body is JSON or not.
pub data Reply : Type 0 where
  post_raised : Error → Reply
  responded : ℕ → Bool → Reply

-- the statuses of the tasks that have not run, the statuses that were posted, and how many failures
-- and successes were logged
pub record Sender : Type 0 where
  pub scheduled : List String
  pub posts : List String
  pub failures : ℕ
  pub deliveries : ℕ

-- `notify`
unfoldable pub notify : String → Sender → Result (Unit {0}) × Sender
notify status s = (ok tt, record s { scheduled = s.scheduled ++ status ∷ [] })

-- the `try` block after the POST: the body is read for the log, and may be no JSON
abbrev pub read_reply : Reply → Sender → Result (Unit {0}) × Sender
read_reply (Reply.post_raised e) s = (err e, s)
read_reply (Reply.responded code is_json) s =
    if is_json
    then (ok tt, record s { deliveries = s.deliveries + 1 })
    else (err Error.json_error, s)

-- `except Exception`
abbrev pub logged : Result (Unit {0}) × Sender → Result (Unit {0}) × Sender
logged (ok done, s) = (ok done, s)
logged (err e, s) = (ok tt, record s { failures = s.failures + 1 })

module _ (reply : ℕ → Reply) where
  -- `_send`
  unfoldable pub send : String → Sender → Result (Unit {0}) × Sender
  send status s =
      logged (read_reply (reply (length s.posts)) (record s { posts = s.posts ++ status ∷ [] }))
