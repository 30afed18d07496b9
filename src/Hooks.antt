-- ===== src/Hooks.antt =====
-- internal/hooks/hooks.go: the observer registry for one event. A method that takes the lock is
-- one step on the registry.
use lp.Base.{ℕ, String, List, [], ◌∷◌, ◌++◌, length}

-- Registry[T]; `T` is the type of the callbacks.
pub record Registry {ℓ} (T : Type ℓ) : Type ℓ where
  pub label : String
  pub listeners : List T

module _ {ℓ} {T : Type ℓ} where
  -- NewRegistry
  unfoldable pub new_registry : String → Registry T
  new_registry name = record { label = name; listeners = [] }

  -- Name
  unfoldable pub name : Registry T → String
  name r = r.label

  -- On
  unfoldable pub on : Registry T → T → Registry T
  on r fn = record r { listeners = r.listeners ++ fn ∷ [] }

  -- Emit: `copy(snapshot, r.listeners)`
  unfoldable pub emit : Registry T → List T
  emit r = r.listeners

  -- Len
  unfoldable pub len : Registry T → ℕ
  len r = length r.listeners

  -- Clear
  unfoldable pub clear : Registry T → Registry T
  clear r = record r { listeners = [] }
