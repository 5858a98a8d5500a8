-- ===== src/UseCases/Users/SignIn.antt =====
-- Signing up and signing in.
use coffee_shop_api.Prelude.{
  ◌+◌, ◌≡◌, refl, ◌∙◌, String, false, Bool-cases, inl, inr, some, any, if◌then◌else◌,
}
use coffee_shop_api.Entities.{Role, User}
use coffee_shop_api.Engine.{Engine}
use coffee_shop_api.App.{World, Error, ok, err, Uuids, next_uuid, ◌>>=◌, bind-ok}
use coffee_shop_api.Auth.{
  UuidText, Jose, Bcrypt, hash_password, verify_password, create_access_token,
}
use coffee_shop_api.Repositories.Users.{clashes, get_by_email, user_repository}
use coffee_shop_api.Repositories.Users.Emails.{with_user, create-eq, get_by_email-with_user}
use coffee_shop_api.UseCases.Users.{create_user, sign_in, hash_to_check, checked}

module _ (engine : Engine) (uuids : Uuids) (bcrypt : Bcrypt) (email : String)
    (password : String) where
  -- the user that `create_user` makes: the first draw is the id, the second one the salt
  abbrev pub new_user : World → User
  new_user w = record {
    id = uuids.uuid4 w.uuids;
    email = email;
    role = Role.customer;
    password_hash = bcrypt.hashpw (w.uuids + 1 + 1) password;
  }

  -- the process after both draws
  abbrev pub drawn : World → World
  drawn w = record w { uuids = w.uuids + 1 + 1 }

  create_user-eq :
      (w : World)
      → create_user uuids bcrypt (user_repository engine) email password w ≡ (
          if any (clashes (new_user w)) w.db.users
          then (err Error.duplicate_email, drawn w)
          else (ok (new_user w), with_user (new_user w) (drawn w)))
  unfolding create_user next_uuid hash_password
  create_user-eq w = create-eq (new_user w) (drawn w)

  sign_in-new_user :
      (texts : UuidText) (jose : Jose) (w v : World)
      → get_by_email engine email v ≡ (ok (some (new_user w)), v)
      → sign_in uuids bcrypt texts jose (user_repository engine) email password v
        ≡ create_access_token texts jose uuids (uuids.uuid4 w.uuids) Role.customer v
  unfolding sign_in
  sign_in-new_user texts jose w v h =
      bind-ok (get_by_email engine email)
        (λ found.
          checked (verify_password bcrypt password (hash_to_check bcrypt found)) found >>= λ user.
          create_access_token texts jose uuids user.id user.role)
        v (some (new_user w)) v h
      ∙ rw (bcrypt.check_hash (w.uuids + 1 + 1) password) refl

  -- Where signing up succeeds, neither the email nor the drawn id was taken, and the user has the
  -- role CUSTOMER; and signing in next with the same email and password hands out a token for that
  -- user and role. bcrypt accepts a password against its own hash.
  pub sign_in-create_user :
      (texts : UuidText) (jose : Jose) (user : User) (w w' : World)
      → create_user uuids bcrypt (user_repository engine) email password w ≡ (ok user, w')
      → (any (clashes (new_user w)) w.db.users ≡ false)
        × (user ≡ new_user w)
        × (sign_in uuids bcrypt texts jose (user_repository engine) email password w'
            ≡ create_access_token texts jose uuids user.id Role.customer w')
  sign_in-create_user texts jose user w w' h =
      elim (Bool-cases (any (clashes (new_user w)) w.db.users)) [
        | inl taken ↦ absurd (
            let e : create_user uuids bcrypt (user_repository engine) email password w
                ≡ (err Error.duplicate_email, drawn w) =
              rw (create_user-eq w, taken) refl in
            cc (e, h))
        | inr fresh ↦
            let e : create_user uuids bcrypt (user_repository engine) email password w
                ≡ (ok (new_user w), with_user (new_user w) (drawn w)) =
              rw (create_user-eq w, fresh) refl in
            let same : user ≡ new_user w = cc (e, h) in
            let after : w' ≡ with_user (new_user w) (drawn w) = cc (e, h) in
            (
              fresh,
              same,
              rw (after, same)
                  (sign_in-new_user texts jose w (with_user (new_user w) (drawn w))
                    (get_by_email-with_user engine (new_user w) (drawn w) fresh)),
            )
      ]
