-- ===== src/Worker.antt =====
-- src/infrastructure/tasks/notification_worker.py: how a message is delivered to the notification
-- URL, and how a batch of messages is. httpx and Redis are parameters; the worker's messages come
-- from XAUTOCLAIM and XREADGROUP.
pub mod Deliveries
pub mod Loop
pub mod Liveness
pub mod Group
use coffee_shop_api.Prelude.{
  ℕ, zero, suc, ◌+◌, ◌^◌, String, Bool, true, false, Option, none, some, List, [], ◌∷◌, length, ltb,
  if◌then◌else◌,
}
use coffee_shop_api.App.{Error, Result, ok, err}
use coffee_shop_api.Payment.{is_success}

-- a message of the stream: its id, and `fields.get("status", "")`
pub record Message : Type 0 where
  pub id : String
  pub status : String

-- What comes of a POST: a RequestError, a response with a status code, or another exception.
pub data Reply : Type 0 where
  request_failed : Reply
  post_raised : Error → Reply
  responded : ℕ → Reply

-- What the worker has done, the last ones first: the messages that it posted, whose body is their
-- status, the ids that it acknowledged, and the ids of the messages that Redis gave it; and
-- the seconds that it slept. Beside it, the state of Redis.
pub record Outbox (G : Type 0) : Type 0 where
  pub posts : List Message
  pub acks : List String
  pub given : List String
  pub slept : ℕ
  pub group : G

-- The replies of the notification URL by the number of POSTs before, and the commands of Redis on
-- its state: the messages that XAUTOCLAIM and XREADGROUP answer with, and whether XACK is answered.
-- `none` and `false` are exceptions of the client.
pub record Remote (G : Type 0) : Type 0 where
  pub reply : ℕ → Reply
  pub xautoclaim : G → Option (List Message) × G
  pub xreadgroup : G → Option (List Message) × G
  pub xack : String → G → Bool × G

abbrev pub max_attempts : ℕ
max_attempts = 3

-- the ids of some messages, noted one after the other
abbrev pub noted : List Message → List String → List String
noted [] ids = ids
noted (m ∷ messages) ids = noted messages (m.id ∷ ids)

-- the exception of one message ends the batch
abbrev pub continue :
    {G : Type 0}
    → Result (Unit {0}) × Outbox G
    → (Outbox G → Result (Unit {0}) × Outbox G)
    → Result (Unit {0}) × Outbox G
continue (ok _, o) rest = rest o
continue (err e, o) rest = (err e, o)

module _ {G : Type 0} (remote : Remote G) where
  abbrev pub after_xack : Message → Outbox G → Bool × G → Result (Unit {0}) × Outbox G
  after_xack message o (answered, group) =
      if answered
      then (ok tt, record o { acks = message.id ∷ o.acks; group = group })
      else (err Error.redis_error, record o { group = group })

  unfoldable pub xack : Message → Outbox G → Result (Unit {0}) × Outbox G
  xack message o = after_xack message o (remote.xack message.id o.group)

  -- `if attempt < MAX_RETRIES: await asyncio.sleep(2 ** attempt)`
  abbrev pub pause : ℕ → Outbox G → Outbox G
  pause attempt o =
      if ltb attempt max_attempts then record o { slept = o.slept + 2 ^ attempt } else o

  -- what follows the reply: the message is acknowledged, or the loop goes on
  abbrev pub after_reply :
      Message
      → ℕ
      → (Outbox G → Result (Unit {0}) × Outbox G)
      → Reply
      → Outbox G
      → Result (Unit {0}) × Outbox G
  after_reply message attempt rest Reply.request_failed o = rest (pause attempt o)
  after_reply message attempt rest (Reply.post_raised e) o = (err e, o)
  after_reply message attempt rest (Reply.responded code) o =
      if is_success code then xack message o else rest (pause attempt o)

  -- the loop, with the attempts that are left and the number of this one
  unfoldable pub attempts : ℕ → ℕ → Message → Outbox G → Result (Unit {0}) × Outbox G
  unfolding xack
  attempts zero attempt message o = xack message o
  attempts (suc left) attempt message o =
      after_reply message attempt (attempts left (suc attempt) message)
        (remote.reply (length o.posts)) (record o { posts = message ∷ o.posts })

  -- `_deliver`
  unfoldable pub deliver : Message → Outbox G → Result (Unit {0}) × Outbox G
  unfolding attempts
  deliver message o = attempts max_attempts 1 message o

  unfoldable pub deliver_all : List Message → Outbox G → Result (Unit {0}) × Outbox G
  deliver_all [] o = (ok tt, o)
  deliver_all (m ∷ messages) o = continue (deliver m o) (deliver_all messages)

  -- the messages that XAUTOCLAIM or XREADGROUP gave, unless it raised
  abbrev pub deliver_given : Option (List Message) × G → Outbox G → Result (Unit {0}) × Outbox G
  deliver_given (none, group) o = (err Error.redis_error, record o { group = group })
  deliver_given (some messages, group) o =
      deliver_all messages (record o { given = noted messages o.given; group = group })

  -- `_process_batch`
  unfoldable pub process_batch : Outbox G → Result (Unit {0}) × Outbox G
  unfolding deliver_all
  process_batch o =
      continue (deliver_given (remote.xautoclaim o.group) o)
        (λ v. deliver_given (remote.xreadgroup v.group) v)
