-- ===== src/UseCases/Users.antt =====
-- src/use_cases/user.
pub mod SignIn
use coffee_shop_api.Prelude.{String, Bool, Option, none, some, if◌then◌else◌}
use coffee_shop_api.Entities.{Uuid, Role, User}
use coffee_shop_api.App.{App, Error, pure, raise, Uuids, next_uuid, ◌>>=◌}
use coffee_shop_api.Auth.{
  UuidText, Jose, Bcrypt, dummy_hash, hash_password, verify_password, create_access_token,
}
use coffee_shop_api.Repositories.{UserRepository}

-- `CreateUser(repository).execute`
unfoldable pub create_user : Uuids → Bcrypt → UserRepository → String → String → App User
unfolding next_uuid hash_password
create_user uuids bcrypt repository email password = do
  id ← next_uuid uuids
  hashed ← hash_password bcrypt password
  repository.create
      (record { id = id; email = email; role = Role.customer; password_hash = hashed })

-- `GetUser(repository).execute`
abbrev pub get_user : UserRepository → Uuid → App (Option User)
get_user repository user_id = repository.get_by_id user_id

-- the password is checked against a hash also where there is no such user
abbrev pub hash_to_check : Bcrypt → Option User → String
hash_to_check bcrypt none = dummy_hash bcrypt
hash_to_check bcrypt (some user) = user.password_hash

abbrev pub checked : Bool → Option User → App User
checked b none = raise Error.invalid_credentials
checked b (some user) = if b then pure user else raise Error.invalid_credentials

-- `SignIn(repository).execute`
unfoldable pub sign_in :
    Uuids → Bcrypt → UuidText → Jose → UserRepository → String → String → App String
unfolding create_access_token
sign_in uuids bcrypt texts jose repository email password = do
  found ← repository.get_by_email email
  user ← checked (verify_password bcrypt password (hash_to_check bcrypt found)) found
  create_access_token texts jose uuids user.id user.role
