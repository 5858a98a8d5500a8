-- ===== src/Repositories/Users/Emails.antt =====
-- The users that are stored, and how they are found by their email.
use text.Mathlib.TextPositions.{eq_refl}
use coffee_shop_api.Prelude.{
  ◌≡◌, refl, ap, ◌∙◌, Bool, false, ◌||◌, some, [], ◌∷◌, ◌++◌, ◌==◌, str_eq, if◌then◌else◌, any,
  any_weaken, arith,
}
use coffee_shop_api.Entities.{User, Role, role_value}
use coffee_shop_api.Database.{UserRow}
use coffee_shop_api.Engine.{Engine, fetch_one, fetch_one-last}
use coffee_shop_api.App.{World, Error, ok, err, pure, gets, or_raise, bind-ok}
use coffee_shop_api.Repositories.Users.{
  clashes, user_row, create, get_by_email, found, to_entity, parse_role,
}

-- the primary key and the unique column
abbrev pub same_user : UserRow → UserRow → Bool
same_user r s = r.id == s.id || str_eq r.email s.email

-- the process after a user was stored
abbrev pub with_user : User → World → World
with_user user w = record w { db = record w.db { users = w.db.users ++ user_row user ∷ [] } }

pub create-eq :
    (user : User) (w : World)
    → create user w ≡ (
        if any (clashes user) w.db.users
        then (err Error.duplicate_email, w)
        else (ok user, with_user user w))
unfolding create
create-eq user w = ground arith

pub parse-role_value : (r : Role) → parse_role (role_value r) ≡ some r
unfolding parse_role
parse-role_value Role.customer = refl
parse-role_value Role.manager = refl

to_entity-user_row : (user : User) (w : World) → to_entity (user_row user) w ≡ (ok user, w)
unfolding to_entity
to_entity-user_row user w =
    bind-ok (or_raise (parse_role (role_value user.role)) Error.value_error)
      (λ role. pure (record {
        id = user.id;
        email = user.email;
        role = role;
        password_hash = user.password_hash;
      }))
      w user.role w (ap (λ o. or_raise o Error.value_error w) (parse-role_value user.role))

-- A user that was just stored is found by the email.
pub get_by_email-with_user :
    (engine : Engine) (user : User) (w : World)
    → any (clashes user) w.db.users ≡ false
    → get_by_email engine user.email (with_user user w) ≡ (ok (some user), with_user user w)
unfolding get_by_email found
get_by_email-with_user engine user w fresh =
    let v = with_user user w in
    let by_email : UserRow → Bool = λ r. str_eq r.email user.email in
    let absent : any by_email w.db.users ≡ false =
      any_weaken (clashes user) by_email w.db.users (λ r e. ground arith) fresh in
    bind-ok (gets (λ x. fetch_one engine by_email x.db.users)) found v (some (user_row user)) v (
      ap (λ o. (ok o, v))
        (fetch_one-last engine by_email w.db.users (user_row user) absent (eq_refl user.email)))
    ∙ bind-ok (to_entity (user_row user)) (λ u. pure (some u)) v user v (to_entity-user_row user v)
