-- ===== src/Routes/Auth/SignOut.antt =====
-- What signing out does to a token.
use mathlib.Core.Path.{subst}
use text.Mathlib.TextPositions.{eq_refl}
use coffee_shop_api.Prelude.{
  ℕ, ◌≡◌, refl, sym, ◌∙◌, String, true, Option, none, some, [], ◌∷◌, ◌++◌, any, Bool-cases, inl,
  inr, arith,
}
use coffee_shop_api.Entities.{Datetime}
use coffee_shop_api.App.{
  World, App, Error, Detail, Result, ok, err, advance, pure, catch, raise_if, ◌>>=◌, ◌>>◌, bind-ok,
  bind-err,
}
use coffee_shop_api.Api.{Content, Response, respond, http_error, as_unauthorized, get_current_user}
use coffee_shop_api.Database.{RevokedTokenRow}
use coffee_shop_api.Engine.{Engine, fetch_one, fetch_one-last}
use coffee_shop_api.Repositories.RevokedTokens.{
  has_jti, revoke, is_revoked, revoked_token_repository,
}
use coffee_shop_api.Routes.Auth.{sign_out}
use coffee_shop_api.Auth.{UuidText, Jose, Payload, TokenData, decode_access_token}

-- the `jti` of a decoded payload
abbrev pub jti_of : Option Payload → Option String
jti_of none = none
jti_of (some p) = p.jti

module _ (texts : UuidText) (jose : Jose) (token : String) (w : World) where
  pub decode-ok :
      (td : TokenData) (u : World)
      → decode_access_token texts jose token w ≡ (ok td, u)
      → (u ≡ w) × (jti_of (jose.decode w.now token) ≡ some td.jti)
  unfolding decode_access_token
  decode-ok td u h = ground arith

  pub decode-err :
      (e : Error) (u : World)
      → decode_access_token texts jose token w ≡ (err e, u)
      → (u ≡ w) × (e ≡ Error.invalid_credentials)
  unfolding decode_access_token
  decode-err e u h = ground arith

same_jti :
    (o o' : Option Payload) (j j' : String)
    → ((p p' : Payload) → o ≡ some p → o' ≡ some p' → p ≡ p')
    → jti_of o ≡ some j
    → jti_of o' ≡ some j'
    → j ≡ j'
same_jti none o' j j' h e e' = absurd (cc)
same_jti (some p) none j j' h e e' = absurd (cc)
same_jti (some p) (some p') j j' h e e' = let same = h p p' refl refl in cc

abbrev revoked_row : TokenData → RevokedTokenRow
revoked_row td = record { jti = td.jti; expires_at = td.expires_at }

-- the process after a token was revoked
abbrev revoked : TokenData → World → World
revoked td w = record w {
  db = record w.db { revoked_tokens = w.db.revoked_tokens ++ revoked_row td ∷ [] };
}

module _ (engine : Engine) where
  unfoldable pub guard : Result TokenData × World → App TokenData
  guard o = do
    td ← catch (λ _. o) as_unauthorized
    is_revoked ← is_revoked engine td.jti
    raise_if is_revoked (http_error 401 "Token has been revoked.")
    pure td

  guard-ok :
      (o : Result TokenData × World) (v u : World) (td : TokenData)
      → guard o v ≡ (ok td, u)
      → o ≡ (ok td, u)
  unfolding guard is_revoked
  guard-ok (ok a, x) v u td h = ground arith
  guard-ok (err e, x) v u td h = ground arith

  guard-revoked :
      (v : World) (td : TokenData)
      → is_revoked engine td.jti v ≡ (ok true, v)
      → guard (ok td, v) v ≡ (err (http_error 401 "Token has been revoked."), v)
  unfolding guard
  guard-revoked v td h =
      bind-ok (is_revoked engine td.jti)
        (λ b. raise_if b (http_error 401 "Token has been revoked.") >> pure td) v true v h

  revoked_after :
      (later : ℕ) (td : TokenData) (r : Response) (u w' : World)
      → (revoke td.jti td.expires_at >> pure (respond 204 Content.no_content)) u ≡ (ok r, w')
      → is_revoked engine td.jti (advance later w') ≡ (ok true, advance later w')
  unfolding revoke is_revoked advance
  revoked_after later td r u w' h = elim (Bool-cases (any (has_jti td.jti) u.db.revoked_tokens)) [
    | inl taken ↦ absurd (
        let e =
          bind-err (revoke td.jti td.expires_at) (λ _. pure (respond 204 Content.no_content)) u
            Error.integrity_error u (rw taken) in
        cc (e, h))
    | inr fresh ↦
        let v = revoked td u in
        let e : w' ≡ v =
          (let b =
              bind-ok (revoke td.jti td.expires_at) (λ _. pure (respond 204 Content.no_content)) u
                tt v (rw fresh) in
            cc (b, h)) in
        let found : fetch_one engine (has_jti td.jti) v.db.revoked_tokens ≡ some (revoked_row td) =
          fetch_one-last engine (has_jti td.jti) u.db.revoked_tokens (revoked_row td) fresh
            (eq_refl td.jti) in
        rw e (rw found)
  ]

module _ (engine : Engine) (texts : UuidText) (jose : Jose)
    (stable : (t t' : Datetime) (token : String) (p p' : Payload)
      → jose.decode t token ≡ some p
      → jose.decode t' token ≡ some p'
      → p ≡ p')
    (token : String) where
  -- the dependency, with the repository of the database
  abbrev pub current_user : App TokenData
  current_user = get_current_user texts jose (revoked_token_repository engine) (some token)

  current_user-guard :
      (w : World) → current_user w ≡ guard engine (decode_access_token texts jose token w) w
  unfolding get_current_user guard
  current_user-guard w = refl

  abbrev Refused : World → Result TokenData × World → Type 0
  Refused w o = (d : Detail) × (o ≡ (err (Error.http 401 d), w))

  Refused-at :
      (v : World) (td : TokenData) (w : World) (o : Result TokenData × World)
      → decode_access_token texts jose token v ≡ o
      → jti_of (jose.decode w.now token) ≡ some td.jti
      → is_revoked engine td.jti v ≡ (ok true, v)
      → Refused v (guard engine o v)
  unfolding guard
  Refused-at v td w (err e, x) at known revoked =
      let (same_w, invalid) = decode-err texts jose token v e x at in
      rw (same_w, invalid) (Detail.text "Invalid or expired token.", refl)
  Refused-at v td w (ok td', x) at known revoked =
      let (same_w, now) = decode-ok texts jose token v td' x at in
      let j : td.jti ≡ td'.jti =
        same_jti (jose.decode w.now token) (jose.decode v.now token) td.jti td'.jti
          (stable w.now v.now token) known now in
      rw same_w (
        Detail.text "Token has been revoked.",
        guard-revoked engine v td' (subst (λ k. is_revoked engine k v ≡ (ok true, v)) j revoked),
      )

  signed_from :
      (later : ℕ) (r : Response) (w w' : World) (o : Result TokenData × World)
      → current_user w ≡ o
      → ((λ (_ : World). o) >>= λ td.
            revoke td.jti td.expires_at >> pure (respond 204 Content.no_content))
          w
        ≡ (ok r, w')
      → Refused (advance later w') (current_user (advance later w'))
  signed_from later r w w' (err e, u) at h = absurd (cc)
  signed_from later r w w' (ok td, u) at h =
      let v = advance later w' in
      let decoded =
        guard-ok engine (decode_access_token texts jose token w) w u td
          (sym (current_user-guard w) ∙ at) in
      let (_, known) = decode-ok texts jose token w td u decoded in
      subst (Refused v) (sym (current_user-guard v)) (
        Refused-at v td w (decode_access_token texts jose token v) refl known
          (revoked_after engine later td r u w' h))

  -- Let the payload that jose decodes from a token not depend on the time. Once POST /auth/sign-out
  -- with a token has returned a response, the next request with that token, however much later, is
  -- refused with a 401, and the refusal changes nothing.
  pub signed_out :
      (later : ℕ) (w w' : World) (r : Response)
      → sign_out current_user (revoked_token_repository engine) w ≡ (ok r, w')
      → let v = advance later w' in (d : Detail) × (current_user v ≡ (err (Error.http 401 d), v))
  unfolding sign_out
  signed_out later w w' r h = signed_from later r w w' (current_user w) refl h
