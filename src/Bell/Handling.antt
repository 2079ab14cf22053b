-- ===== src/Bell/Handling.antt =====
-- bell.go: what is there to see of a ring once it is handled.
use mathlib.Core.List.{reverse}
use camonitor.Prelude.{◌≡◌, List, ◌∷◌}
use camonitor.Bell.Store.{Entry}
use camonitor.Bell.{BellBus}

-- A bus whose newest entry is this one.
IsNewest : Entry → BellBus → Type 0
IsNewest e b = (older : List Entry) × (reverse b.history ≡ e ∷ older)
