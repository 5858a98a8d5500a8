-- ===== src/App/Laws.antt =====
-- How an action goes on from the result of its first part.
use coffee_shop_api.Prelude.{◌≡◌, refl, ap, ◌∙◌, Bool, true, false}
use coffee_shop_api.App.Monad.{World, App, Error, Result, ok, err, ◌>>=◌, catch, raise_if}

module _ {A B : Type 0} (m : App A) (f : A → App B) (w : World) where
  bind-resume : (o : Result A × World) → m w ≡ o → (m >>= f) w ≡ ((λ (_ : World). o) >>= f) w
  bind-resume o h = ap (λ (p : Result A × World). ((λ (_ : World). p) >>= f) w) h

  pub bind-ok : (a : A) (u : World) → m w ≡ (ok a, u) → (m >>= f) w ≡ f a u
  bind-ok a u h = bind-resume (ok a, u) h

  pub bind-err : (e : Error) (u : World) → m w ≡ (err e, u) → (m >>= f) w ≡ (err e, u)
  bind-err e u h = bind-resume (err e, u) h

  from_result :
      (b : B) (v : World) (o : Result A × World)
      → ((λ (_ : World). o) >>= f) w ≡ (ok b, v)
      → (a : A) × (u : World) × (o ≡ (ok a, u)) × (f a u ≡ (ok b, v))
  from_result b v (ok a, u) h = (a, u, refl, h)
  from_result b v (err e, u) h = absurd (cc)

  -- what returns has been through both parts
  pub bind-inv :
      (b : B) (v : World)
      → (m >>= f) w ≡ (ok b, v)
      → (a : A) × (u : World) × (m w ≡ (ok a, u)) × (f a u ≡ (ok b, v))
  bind-inv b v h = from_result b v (m w) h

-- the second part raises
pub bind-then-err :
    {A B C : Type 0} (m : App A) (n : A → App B) (f : A → B → App C) (w : World) (a : A) (e : Error)
    → m w ≡ (ok a, w)
    → n a w ≡ (err e, w)
    → (m >>= λ x. n x >>= f x) w ≡ (err e, w)
bind-then-err m n f w a e first second =
    bind-ok m (λ x. n x >>= f x) w a w first ∙ bind-err (n a) (f a) w e w second

module _ {A : Type 0} (m : App A) (f : Error → App A) (w : World) where
  pub catch-ok : (a : A) (u : World) → m w ≡ (ok a, u) → catch m f w ≡ (ok a, u)
  catch-ok a u h = ap (λ (p : Result A × World). catch (λ _. p) f w) h

  pub catch-err : (e : Error) (u : World) → m w ≡ (err e, u) → catch m f w ≡ f e u
  catch-err e u h = ap (λ (p : Result A × World). catch (λ _. p) f w) h

pub raise_if-false : (c : Bool) (e : Error) (w : World) → c ≡ false → raise_if c e w ≡ (ok tt, w)
raise_if-false c e w h = rw h

pub raise_if-true : (c : Bool) (e : Error) (w : World) → c ≡ true → raise_if c e w ≡ (err e, w)
raise_if-true c e w h = rw h
