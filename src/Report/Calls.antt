-- ===== src/Report/Calls.antt =====
-- The calls that a reporter makes on its `monitoring.Visitor`, in their order.
use elastic_agent_system_met.Base.{
  ℕ, Bool, List, [], ◌∷◌, ◌++◌, if◌then◌else◌, Bytes, codes, is_empty, Result, ok, err, panic,
}
use elastic_agent_system_met.Base.Int.{ℤ, signed64}
use elastic_agent_system_met.Libs.{Float64}

module _ (f : Float64) where
  -- `OnRegistryStart`, `OnRegistryFinished`, the functions `ReportInt`, `ReportFloat`,
  -- `ReportString` and `ReportBool` of package `monitoring`, and the two ends of `ReportNamespace`.
  pub data Call : Type 0 where
    registry_start registry_finished : Call
    report_int : Bytes → ℤ → Call
    report_float : Bytes → f.Float → Call
    report_string : Bytes → Bytes → Call
    report_bool : Bytes → Bool → Call
    namespace_start : Bytes → Call
    namespace_finished : Call

  -- `int64(value)` of a uint64.
  abbrev pub report_uint : Bytes → ℕ → Call
  report_uint name value = report_int name (signed64 value)

  abbrev pub report_namespace : Bytes → List Call → List Call
  report_namespace name body = namespace_start name ∷ (body ++ (namespace_finished ∷ []))

  -- `OnRegistryStart` with the deferred `OnRegistryFinished` around a body.
  abbrev pub in_registry : List Call → List Call
  in_registry body = registry_start ∷ (body ++ (registry_finished ∷ []))

  -- `if err != nil { log; return }`
  abbrev pub unless_error : {A : Type 0} → Result A → (A → List Call) → Result (List Call)
  unless_error (ok a) body = ok (body a)
  unless_error (err e) body = ok []
  unless_error panic body = panic

  abbrev pub report_id : Bytes → List Call
  report_id id = if is_empty id then [] else report_string (codes "id") id ∷ []
