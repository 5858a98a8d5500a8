-- ===== src/Repositories/Users.antt =====
-- src/infrastructure/database/repositories/user_repository.py.
pub mod Emails
use coffee_shop_api.Prelude.{
  String, Bool, ◌||◌, Option, none, some, List, [], ◌∷◌, ◌++◌, str_eq, ◌==◌, if◌then◌else◌, any,
}
use coffee_shop_api.Entities.{Uuid, Role, role_value, User}
use coffee_shop_api.Database.{UserRow}
use coffee_shop_api.Engine.{Engine, fetch_one}
use coffee_shop_api.App.{
  App, Error, pure, raise, gets, or_raise, catch, modify, raise_if, ◌>>=◌, ◌>>◌,
}
use coffee_shop_api.Repositories.{UserRepository}

-- `Role(text)`, which raises a ValueError for any other text
unfoldable pub parse_role : String → Option Role
parse_role s =
    if str_eq s "CUSTOMER"
    then some Role.customer
    else if str_eq s "MANAGER"
    then some Role.manager
    else none

-- `_to_entity`
unfoldable pub to_entity : UserRow → App User
unfolding parse_role
to_entity row = do
  role ← or_raise (parse_role row.role) Error.value_error
  pure (record { id = row.id; email = row.email; role = role; password_hash = row.password_hash })

abbrev pub user_row : User → UserRow
user_row user = record {
  id = user.id;
  email = user.email;
  role = role_value user.role;
  password_hash = user.password_hash;
}

-- the primary key and the unique column
abbrev pub clashes : User → UserRow → Bool
clashes user r = r.id == user.id || str_eq r.email user.email

insert_user : User → App (Unit {0})
insert_user user = do
  users ← gets (λ w. w.db.users)
  raise_if (any (clashes user) users) Error.integrity_error
  modify (λ w. record w { db = record w.db { users = w.db.users ++ user_row user ∷ [] } })

-- `except sqlite3.IntegrityError`
abbrev as_duplicate : Error → App (Unit {0})
as_duplicate Error.integrity_error = raise Error.duplicate_email
as_duplicate e = raise e

unfoldable pub create : User → App User
unfolding insert_user
create user = do catch (insert_user user) as_duplicate; pure user

unfoldable pub found : Option UserRow → App (Option User)
found none = pure none
found (some row) = do user ← to_entity row; pure (some user)

unfoldable pub get_by_id : Engine → Uuid → App (Option User)
unfolding found to_entity
get_by_id engine user_id = do
  row ← gets (λ w. fetch_one engine (λ r. r.id == user_id) w.db.users)
  found row

unfoldable pub get_by_email : Engine → String → App (Option User)
unfolding found to_entity
get_by_email engine email = do
  row ← gets (λ w. fetch_one engine (λ r. str_eq r.email email) w.db.users)
  found row

to_entities : List UserRow → App (List User)
unfolding to_entity
to_entities [] = pure []
to_entities (row ∷ rows) = do user ← to_entity row; users ← to_entities rows; pure (user ∷ users)

unfoldable pub list_all : Engine → App (List User)
unfolding to_entities
list_all engine = do rows ← gets (λ w. engine.scan UserRow w.db.users); to_entities rows

-- `UserRepository(database)`
abbrev pub user_repository : Engine → UserRepository
user_repository engine = record {
  create = create;
  get_by_id = get_by_id engine;
  get_by_email = get_by_email engine;
  list_all = list_all engine;
}
