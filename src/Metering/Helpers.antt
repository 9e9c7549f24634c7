-- ===== src/Metering/Helpers.antt =====
-- treadstone/metering/services/metering_helpers.py: template specs, the rate of a template, and
-- the shape of a consumption. A rate of v/1000 vCPU and b bytes is 0.5 * v/1000 + 0.125 * b/2^30
-- CU per hour, so in units of 1 / (125 * 2^33) CU per hour it is 2^29 * v + 125 * b.
use Prim.Native.String.{String}
use text.Mathlib.Text.{◌==◌ as str_eq}
use treadstone.Prelude.{ℕ, ◌+◌, ◌*◌, ◌^◌, Option, none, some, List, [], ◌∷◌, if◌then◌else◌}
use treadstone.Prelude.Int.{ℤ}
use treadstone.Metering.Model.{Spec, Env, bad_request, Result, ok, err}

-- `dict.get`
spec_get : String → List (String × Spec) → Option Spec
spec_get k [] = none
spec_get k ((j, s) ∷ m) = let rest = spec_get k m in if str_eq j k then some s else rest

abbrev gib : ℕ
gib = 2 ^ 30

abbrev template_specs : List (String × Spec)
template_specs =
    ("aio-sandbox-tiny", record { vcpu = 250; memory = 1 * gib })
    ∷ ("aio-sandbox-small", record { vcpu = 500; memory = 2 * gib })
    ∷ ("aio-sandbox-medium", record { vcpu = 1000; memory = 4 * gib })
    ∷ ("aio-sandbox-large", record { vcpu = 2000; memory = 8 * gib })
    ∷ ("aio-sandbox-xlarge", record { vcpu = 4000; memory = 16 * gib })
    ∷ []

abbrev or_else : Option Spec → Option Spec → Option Spec
or_else none o = o
or_else (some s) o = some s

-- The cache synced from the cluster first, then the static table.
unfoldable pub resolve_spec : Env → String → Option Spec
unfolding spec_get
resolve_spec env template =
    or_else (spec_get template env.spec_cache) (spec_get template template_specs)

abbrev spec_or_raise : Option Spec → Result Spec
spec_or_raise none = err bad_request
spec_or_raise (some s) = ok s

unfoldable pub get_template_resource_spec : Env → String → Result Spec
unfolding resolve_spec
get_template_resource_spec env template = spec_or_raise (resolve_spec env template)

abbrev rate_of_spec : Spec → ℕ
rate_of_spec s = 2 ^ 29 * s.vcpu + 125 * s.memory

abbrev rate_or_raise : Option Spec → Result ℕ
rate_or_raise none = err bad_request
rate_or_raise (some s) = ok (rate_of_spec s)

unfoldable pub calculate_cu_rate : Env → String → Result ℕ
unfolding resolve_spec
calculate_cu_rate env template = rate_or_raise (resolve_spec env template)

-- The amounts that a consumption took from each pool.
pub record ConsumeResult : Type 0 where
  pub monthly : ℤ
  pub extra : ℤ
  pub shortfall : ℤ
