-- ===== src/Tests/Setting.antt =====
-- The property of the settings at a file and two changes.
use linggen_memory.Prelude.{arith, refl, true, none, some, [], ◌∷◌}
use linggen_memory.Config.{Config, lan, local, default_config}
use linggen_memory.Config.Listening
use linggen_memory.Config.Listening.{Setting, sent, chosen, set_all, IsKept}

abbrev longer : Config
longer = record default_config { episodic_ttl_days = 9 }

set_all-IsKept_example : IsKept 9528 local (
    set_all 9528
      (sent true longer
        ∷ chosen true "10.0.0.2" (record { host = none; origin = none }) "0.0.0.0" lan
        ∷ [])
      (some (record default_config { network = local })))
unfolding linggen_memory.Local.require_local linggen_memory.Local.is_loopback
    linggen_memory.Text.strip_text
set_all-IsKept_example =
    Listening.set_all-IsKept 9528
      (sent true longer
        ∷ chosen true "10.0.0.2" (record { host = none; origin = none }) "0.0.0.0" lan
        ∷ [])
      local (some (record default_config { network = local })) (tt, (refl, tt))
      (refl, omega arith, refl)
