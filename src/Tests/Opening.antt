-- ===== src/Tests/Opening.antt =====
-- The property of the layout version at two sidecars.
use linggen_memory.Prelude.{◌≡◌, ◌⊎◌, true, false, some}
use linggen_memory.Schema.{layout_of, open_named}
use linggen_memory.Schema.Stamps
use linggen_memory.Schema.Stamps.{IsReadable}

open_named_lem_example :
    (IsReadable (some 1) × (open_named true false (some 1) ≡ (true, some (layout_of false))))
    ⊎ ((IsReadable (some 1) → ⊥) × (open_named true false (some 1) ≡ (false, some 1)))
open_named_lem_example = Stamps.open_named_lem false (some 1)
