-- ===== src/Metering/Router/Billed/Once.antt =====
-- Usage is billed once: the totals of the invoices over a history of usage and closes.
use python_backend_manager.Prelude.Base.{ℕ, ◌+◌, String, List, [], ◌∷◌, ◌==◌, if◌then◌else◌}
use python_backend_manager.Prelude.Uuid.{Uuid}
use python_backend_manager.Metering.Models.{Invoice, Tables}
use python_backend_manager.Metering.Usage.{usage_for_period}
use python_backend_manager.Prelude.Dict.{get_or}
use python_backend_manager.Metering.Router.{period_start}

-- The units of a meter in the periods of the organization's invoices, as `usage_for_period` counts
-- them, added up.
abbrev pub billed : Uuid → String → Tables → List Invoice → ℕ
billed org meter t [] = 0
billed org meter t (i ∷ invoices) =
    (if i.organization_id == org
      then get_or (usage_for_period org i.period_start i.period_end t) meter 0
      else 0)
    + billed org meter t invoices
