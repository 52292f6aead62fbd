-- ===== src/Base/Retry.antt =====
-- `retry.RetryOnConflict` of client-go, as its documentation says: the function is tried again while
-- it returns a conflict and tries are left, and what the last try returns is returned.
use mathlib.Core.Path.{◌≡◌}
use mathlib.Core.Bool.{Bool, true}
use mathlib.Core.Option.{Option, some}

module _ {S E : Type 0} (conflicts : E → Bool) (f : S → S × Option E) where
  pub data Tried : S → S × Option E → Type 0 where
    stop : (s : S) → Tried s (f s)
    again :
        (s : S) (res : S × Option E) (e : E)
        → (f s).1 ≡ some e
        → conflicts e ≡ true
        → Tried (f s).0 res
        → Tried s res

  -- What holds of every try holds of the result.
  pub Tried-last :
      (P : S × Option E → Type 0) (s : S) (res : S × Option E)
      → ((t : S) → P (f t))
      → Tried s res
      → P res
  Tried-last P s res each (stop _) = each s
  Tried-last P s res each (again _ _ e failed c rest) = Tried-last P (f s).0 res each rest

  -- What every try keeps is kept.
  pub Tried-keeps :
      (I : S → Type 0) (s : S) (res : S × Option E)
      → ((t : S) → I t → I (f t).0)
      → I s
      → Tried s res
      → I res.0
  Tried-keeps I s res each i (stop _) = each s i
  Tried-keeps I s res each i (again _ _ e failed c rest) =
      Tried-keeps I (f s).0 res each (each s i) rest
