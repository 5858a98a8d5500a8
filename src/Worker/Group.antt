-- ===== src/Worker/Group.antt =====
-- The stream "notifications" with its consumer group, as Redis documents them: the messages that the
-- group has handed out, those that wait, and the pending ones. Other clients may add messages to
-- the stream before each command.
pub mod Accounts
pub mod Listed
pub mod Extends
pub mod Done
pub mod Safety
pub mod Progress
use mathlib.Core.List.{Memᴰ}
use coffee_shop_api.Prelude.{
  ℕ, ◌+◌, ◌≤◌, ◌&&◌, ◌||◌, false, ◌∷◌, length, str_eq, if◌then◌else◌, ◌≡◌, ◌≢◌, ◌⊎◌, String, Bool,
  true, Option, none, some, List, [], ◌++◌, All,
}
use coffee_shop_api.Payment.{is_success}
use coffee_shop_api.Worker.{Message, Reply, Outbox, Remote}

-- what can be seen of the stream and the group: the messages up to the last one handed out, the
-- messages after it, and whether an id is on the list of pending entries
pub record Group (G : Type 0) : Type 0 where
  pub handed : G → List Message
  pub waiting : G → List Message
  pub is_pending : G → String → Bool

module _ {G : Type 0} (group : Group G) where
  -- the messages of the stream, in the order in which they were added
  abbrev pub entries : G → List Message
  entries g = group.handed g ++ group.waiting g

  -- the messages of an answer pass a test, if there is an answer
  abbrev pub Each : (Message → Type 0) → Option (List Message) → Type 0
  Each Q none = Unit
  Each Q (some messages) = All Q messages

  -- XAUTOCLAIM answers with pending messages; it hands out nothing and drops nothing.
  abbrev pub Claims : Remote G → Type 0
  Claims remote =
      (g : G)
      → let (given, g') = remote.xautoclaim g in
        (group.handed g' ≡ group.handed g)
        × ((new : List Message) × (group.waiting g' ≡ group.waiting g ++ new))
        × ((id : String) → group.is_pending g id ≡ true → group.is_pending g' id ≡ true)
        × Each (λ m. Memᴰ m (group.handed g)) given

  -- XREADGROUP with the id ">" hands out messages from the front of those that wait, and makes them
  -- pending, also where its answer is lost; where it answers, it answers with these.
  abbrev pub Reads : Remote G → Type 0
  Reads remote =
      (g : G)
      → let (given, g') = remote.xreadgroup g in
        (out : List Message) × (group.handed g' ≡ group.handed g ++ out)
        × ((new : List Message) × (out ++ group.waiting g' ≡ group.waiting g ++ new))
        × ((id : String) → group.is_pending g id ≡ true → group.is_pending g' id ≡ true)
        × All (λ m. group.is_pending g' m.id ≡ true) out
        × ((given ≡ none) ⊎ (given ≡ some out))

  -- XACK drops no other id from the pending ones, whether its answer arrives or not.
  abbrev pub Acknowledges : Remote G → Type 0
  Acknowledges remote =
      (acked : String) (g : G)
      → let g' = (remote.xack acked g).1 in
        (group.handed g' ≡ group.handed g)
        × ((new : List Message) × (group.waiting g' ≡ group.waiting g ++ new))
        × ((id : String)
            → group.is_pending g id ≡ true
            → (group.is_pending g' id ≡ true) ⊎ (id ≡ acked))

  -- XREADGROUP hands something out where something waits: it blocks for five seconds only where
  -- nothing does.
  abbrev pub Advances : Remote G → Type 0
  Advances remote = (g : G) → group.waiting g ≢ [] → (remote.xreadgroup g).0 ≢ some []

-- a reply with which `_deliver` is content
abbrev pub is_delivery : Reply → Bool
is_delivery (Reply.responded code) = is_success code
is_delivery _ = false

-- how many POSTs were tried for an id, and whether one of them got a 2xx; the last one is first
abbrev pub tries : String → List Message → ℕ
tries id [] = 0
tries id (m ∷ posts) = (if str_eq m.id id then 1 else 0) + tries id posts

abbrev pub is_delivered : (ℕ → Reply) → String → List Message → Bool
is_delivered reply id [] = false
is_delivered reply id (m ∷ posts) =
    (str_eq m.id id && is_delivery (reply (length posts))) || is_delivered reply id posts

-- The worker may be done with an id: a POST got a 2xx, or three were tried.
abbrev pub IsTried : (ℕ → Reply) → String → List Message → Type 0
IsTried reply id posts = (is_delivered reply id posts ≡ true) ⊎ (3 ≤ tries id posts)

module _ {G : Type 0} (group : Group G) where
  -- Each message that the group handed out is pending or tried, and no other was posted.
  abbrev pub Served : (ℕ → Reply) → Outbox G → Type 0
  Served reply o =
      All (λ m. (group.is_pending o.group m.id ≡ true) ⊎ IsTried reply m.id o.posts)
        (group.handed o.group)
      × All (λ m. Memᴰ m (group.handed o.group)) o.posts
