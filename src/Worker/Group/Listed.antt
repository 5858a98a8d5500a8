-- ===== src/Worker/Group/Listed.antt =====
-- The messages that were handed out, as a list that grows.
use mathlib.Core.Path.{subst}
use mathlib.Core.List.{Memᴰ}
use mathlib.Core.List.Memᴰ
use coffee_shop_api.Prelude.{refl, List, [], ◌∷◌, ◌++◌, append_assoc, All}
use coffee_shop_api.Worker.{Message}

-- the second part of a list is in the whole list
pub all_listed : (xs ys : List Message) → All (λ m. Memᴰ m (xs ++ ys)) ys
all_listed xs [] = tt
all_listed xs (y ∷ ys) = (
  Memᴰ.append_right xs (Memᴰ.head refl),
  subst (λ zs. All (λ m. Memᴰ m zs) ys) (append_assoc xs (y ∷ []) ys)
      (all_listed (xs ++ y ∷ []) ys),
)
