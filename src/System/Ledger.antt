-- ===== src/System/Ledger.antt =====
-- The invariant of the service's state: the orders against the payments, and the unique columns.
pub mod Rows
pub mod Orders
pub mod Requests
use mathlib.Core.Path.{subst}
use coffee_shop_api.Prelude.{
  ℕ, ◌+◌, ◌<◌, ◌≤◌, ◌≡◌, ◌≢◌, refl, sym, ap, ◌∙◌, Bool, false, List, [], ◌∷◌, ◌++◌, map, ◌==◌,
  str_eq, All, All-map, Distinct, any, arith,
}
use coffee_shop_api.Decimal.{Decimal}
use coffee_shop_api.Entities.{Uuid, OrderStatus}
use coffee_shop_api.Database.{OrderRow, UserRow, IdempotencyKeyRow}
use coffee_shop_api.App.{World, Uuids}
use coffee_shop_api.Payment.{PaymentApi}
use coffee_shop_api.Payment.Ledger.{charges}
use coffee_shop_api.Repositories.Orders.{has_id}
use coffee_shop_api.Repositories.Orders.Lookup.{IsReadable}
use coffee_shop_api.Repositories.Users.Emails.{same_user}

-- the primary keys
abbrev pub same_order : OrderRow → OrderRow → Bool
same_order r s = r.id == s.id

abbrev pub same_key : IdempotencyKeyRow → IdempotencyKeyRow → Bool
same_key r s = str_eq r.key s.key

-- the id is one of the first `n` UUIDs
abbrev pub Drawn : Uuids → ℕ → OrderRow → Type 0
Drawn source n r = (i : ℕ) × (i < n) × (r.id ≡ source.uuid4 i)

-- a row that the repository can read
abbrev pub CanRead : OrderRow → Type 0
CanRead r = (s : OrderStatus) × (u : Uuid) × IsReadable r s u

-- how the confirmed payments stand to the totals of the stored orders
abbrev pub Accounting : Type 1
Accounting = List Decimal → List Decimal → Type 0

-- one for one and in their order
abbrev pub SameAmounts : Accounting
SameAmounts paid totals = paid ≡ totals

-- an order that is paid and stored keeps the accounts
abbrev pub Grows : Accounting → Type 0
Grows balance =
    (paid totals : List Decimal) (a : Decimal)
    → balance paid totals
    → balance (paid ++ a ∷ []) (totals ++ a ∷ [])

-- The accounts of the confirmed payments and the totals of the stored orders balance; each order has
-- a UUID that was drawn and can be read; and the primary keys and the unique emails are unique.
pub record Consistent (balance : Accounting) (api : PaymentApi) (source : Uuids)
    (posts : List Decimal) (n : ℕ) (orders : List OrderRow) (users : List UserRow)
    (keys : List IdempotencyKeyRow) : Type 0 where
  pub ledger : balance (charges api posts) (map (λ r. r.total_price) orders)
  pub drawn : All (Drawn source n) orders
  pub readable : All CanRead orders
  pub order_ids : Distinct same_order orders
  pub emails : Distinct same_user users
  pub key_ids : Distinct same_key keys

abbrev pub IsSound : Accounting → PaymentApi → Uuids → World → Type 0
IsSound balance api source w =
    Consistent balance api source w.posts w.uuids w.db.orders w.db.users w.db.idempotency_keys

pub drawn_later :
    (source : Uuids) (n m : ℕ) (r : OrderRow) → n ≤ m → Drawn source n r → Drawn source m r
drawn_later source n m r le (i, lt, e) = (i, omega arith, e)

module _ (source : Uuids) (fresh : (i j : ℕ) → source.uuid4 i ≡ source.uuid4 j → i ≡ j) where
  -- no stored order has the UUID that comes next
  pub drawn_before :
      (n : ℕ) (orders : List OrderRow)
      → All (Drawn source n) orders
      → any (has_id (source.uuid4 n)) orders ≡ false
  drawn_before n [] h = refl
  drawn_before n (r ∷ orders) ((i, lt, e), rest) =
      let other : i ≢ n = λ same. omega arith in
      let differs : r.id ≢ source.uuid4 n = λ same. other (fresh i n (sym e ∙ same)) in
      ground (arith, drawn_before n orders rest, differs)

-- The invariant after a change of one part.
module _ {balance : Accounting} {api : PaymentApi} {source : Uuids} {posts : List Decimal} {n : ℕ}
    {orders : List OrderRow} {users : List UserRow} {keys : List IdempotencyKeyRow}
    (s : Consistent balance api source posts n orders users keys) where
  pub with_drawn : (m : ℕ) → n ≤ m → Consistent balance api source posts m orders users keys
  with_drawn m le = record {
    ledger = s.ledger;
    drawn =
        All-map (Drawn source n) (Drawn source m) (λ r. drawn_later source n m r le) orders s.drawn;
    readable = s.readable;
    order_ids = s.order_ids;
    emails = s.emails;
    key_ids = s.key_ids;
  }

  pub with_ledger :
      (balance' : Accounting) (posts' : List Decimal)
      → balance' (charges api posts') (map (λ r. r.total_price) orders)
      → Consistent balance' api source posts' n orders users keys
  with_ledger balance' posts' ledger = record {
    ledger = ledger;
    drawn = s.drawn;
    readable = s.readable;
    order_ids = s.order_ids;
    emails = s.emails;
    key_ids = s.key_ids;
  }

  pub with_users :
      (rows : List UserRow)
      → Distinct same_user rows
      → Consistent balance api source posts n orders rows keys
  with_users rows d = record {
    ledger = s.ledger;
    drawn = s.drawn;
    readable = s.readable;
    order_ids = s.order_ids;
    emails = d;
    key_ids = s.key_ids;
  }

  pub with_keys :
      (rows : List IdempotencyKeyRow)
      → Distinct same_key rows
      → Consistent balance api source posts n orders users rows
  with_keys rows d = record {
    ledger = s.ledger;
    drawn = s.drawn;
    readable = s.readable;
    order_ids = s.order_ids;
    emails = s.emails;
    key_ids = d;
  }

  pub with_orders :
      (rows : List OrderRow)
      → map (λ r. r.total_price) rows ≡ map (λ r. r.total_price) orders
      → All (Drawn source n) rows
      → All CanRead rows
      → Distinct same_order rows
      → Consistent balance api source posts n rows users keys
  with_orders rows totals drawn readable distinct = record {
    ledger = subst (balance (charges api posts)) (sym totals) s.ledger;
    drawn = drawn;
    readable = readable;
    order_ids = distinct;
    emails = s.emails;
    key_ids = s.key_ids;
  }
