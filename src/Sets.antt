-- ===== src/Sets.antt =====
-- `sets.String` of k8s.io/apimachinery: what the controller relies on. `Lists` shows that lists
-- without repetitions meet it.
pub mod Lists
use inplaceu.Base.{ℕ, ◌≡◌, Bool, true, false, List, Text, text_eq, ◌==◌, if◌then◌else◌, length, any}

pub record StringSet : Type 1 where
  pub Carrier : Type 0
  pub new : Carrier
  pub insert : Text → Carrier → Carrier
  pub delete : Text → Carrier → Carrier
  pub has : Text → Carrier → Bool
  pub len : Carrier → ℕ
  pub list : Carrier → List Text
  pub has-new : (x : Text) → has x new ≡ false
  pub has-insert :
      (x y : Text) (s : Carrier) → has y (insert x s) ≡ (if x == y then true else has y s)
  pub has-delete :
      (x y : Text) (s : Carrier) → has y (delete x s) ≡ (if x == y then false else has y s)
  pub has-list : (x : Text) (s : Carrier) → any (λ y. y == x) (list s) ≡ has x s
  pub len-list : (s : Carrier) → length (list s) ≡ len s
