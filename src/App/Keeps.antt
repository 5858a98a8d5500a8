-- ===== src/App/Keeps.antt =====
-- What an action keeps of the state, whether it returns or raises, built up along its do block.
use coffee_shop_api.Prelude.{Bool, Option, none, some}
use coffee_shop_api.App.Monad.{
  World, App, Error, Result, ok, err, pure, raise, gets, or_raise, catch, raise_if, ◌>>=◌,
}

-- `P` holds after the action if it held before it.
pub record Keeps (P : World → Type 0) {A : Type 0} (m : App A) : Type 0 where
  pub kept : (w : World) → P w → P (m w).1

module _ (P : World → Type 0) where
  module _ {A : Type 0} where
    -- an action that only reads
    pub Keeps-pure : (a : A) → Keeps P (pure a)
    Keeps-pure a = record { kept = λ w h. h }

    pub Keeps-raise : (e : Error) → Keeps P (raise {A = A} e)
    Keeps-raise e = record { kept = λ w h. h }

    pub Keeps-gets : (f : World → A) → Keeps P (gets f)
    Keeps-gets f = record { kept = λ w h. h }

    pub Keeps-or_raise : (o : Option A) (e : Error) → Keeps P (or_raise o e)
    Keeps-or_raise none e = record { kept = λ w h. h }
    Keeps-or_raise (some a) e = record { kept = λ w h. h }

  pub Keeps-raise_if : (c : Bool) (e : Error) → Keeps P (raise_if c e)
  Keeps-raise_if c e = record { kept = λ w h. h }

  module _ {A B : Type 0} where
    bind_result :
        (f : A → App B) (w : World) (o : Result A × World)
        → ((a : A) → Keeps P (f a))
        → P o.1
        → P (((λ (_ : World). o) >>= f) w).1
    bind_result f w (ok a, u) k h = (k a).kept u h
    bind_result f w (err e, u) k h = h

    pub Keeps-bind :
        (m : App A) (f : A → App B) → Keeps P m → ((a : A) → Keeps P (f a)) → Keeps P (m >>= f)
    Keeps-bind m f km k = record { kept = λ w h. bind_result f w (m w) k (km.kept w h) }

  module _ {A : Type 0} where
    catch_result :
        (f : Error → App A) (w : World) (o : Result A × World)
        → ((e : Error) → Keeps P (f e))
        → P o.1
        → P (catch (λ (_ : World). o) f w).1
    catch_result f w (ok a, u) k h = h
    catch_result f w (err e, u) k h = (k e).kept u h

    pub Keeps-catch :
        (m : App A) (f : Error → App A)
        → Keeps P m
        → ((e : Error) → Keeps P (f e))
        → Keeps P (catch m f)
    Keeps-catch m f km k = record { kept = λ w h. catch_result f w (m w) k (km.kept w h) }

-- `search keeps` follows a do block, with a rule for each action that writes.
pub ruleset keeps =
    (Keeps-bind, Keeps-catch, Keeps-pure, Keeps-raise, Keeps-gets, Keeps-or_raise, Keeps-raise_if)
