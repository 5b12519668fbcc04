-- ===== src/Hwmon/Types.antt =====
-- metric/system/hwmon/hwmon_types.go: devices and sensors, and the event of a sensor.
use elastic_agent_system_met.Base.{
  ℕ, List, [], ◌∷◌, if◌then◌else◌, Bytes, codes, Result, ok, ◌>>=◌, wrap_err,
}
use elastic_agent_system_met.Base.Int.{ℤ}
use elastic_agent_system_met.Libs.{Float64, Opt}

abbrev pub base_dir : Bytes
base_dir = codes "/sys/class/hwmon"

pub record SensorType : Type 0 where
  pub file_key : Bytes
  pub units : Bytes

abbrev pub temp_sensor : SensorType
temp_sensor = record { file_key = codes "temp"; units = codes "celsius" }

abbrev pub volt_sensor : SensorType
volt_sensor = record { file_key = codes "in"; units = codes "millivolts" }

abbrev pub fan_sensor : SensorType
fan_sensor = record { file_key = codes "fan"; units = codes "rpm" }

pub record Sensor : Type 0 where
  pub dev_type : SensorType
  pub sensor_num : ℤ

pub record Device : Type 0 where
  pub name : Bytes
  pub abs_path : Bytes
  pub sensors : List Sensor

-- `structform.ExtVisitor`, with the state that its methods change.
pub record Visitor (S : Type 0) : Type 0 where
  pub on_object_start : ℕ → S → Result S
  pub on_key : Bytes → S → Result S
  pub on_uint64_object : List (Bytes × ℕ) → S → Result S
  pub on_object_finished : S → Result S

module _ (f : Float64) (o : Opt f) where
  pub record SensorMetrics : Type 0 where
    pub label : Bytes
    pub sensor_type : SensorType
    pub critical : o.Uint
    pub max : o.Uint
    pub lowest : o.Uint
    pub average : o.Uint
    pub value : o.Uint

  -- The fields of type `opt.Uint` with the keys that `Fold` gives them, in the order of the struct.
  abbrev pub folded_fields : SensorMetrics → List (Bytes × o.Uint)
  folded_fields sm =
      (codes "critical", sm.critical)
      ∷ (codes "max", sm.max)
      ∷ (codes "lowest", sm.lowest)
      ∷ (codes "average", sm.average)
      ∷ (sm.sensor_type.file_key, sm.value)
      ∷ []

  module _ {S : Type 0} (v : Visitor S) where
    unfoldable pub fold_field : Bytes → Bytes → o.Uint → S → Result S
    fold_field units skey u s =
        if o.exists u
        then (do
          s1 ← wrap_err "error in OnKey" (v.on_key skey s)
          wrap_err "error in OnKey" (v.on_uint64_object ((units, o.value_or u 0) ∷ []) s1))
        else ok s

    unfoldable pub fold_fields : Bytes → List (Bytes × o.Uint) → S → Result S
    unfolding fold_field
    fold_fields units [] s = ok s
    fold_fields units ((skey, u) ∷ fields) s = do
      next ← fold_field units skey u s
      fold_fields units fields next

    -- The struct has seven fields.
    unfoldable pub fold : SensorMetrics → S → Result S
    fold sm s = do
      s1 ← wrap_err "error starting object in Fold" (v.on_object_start 7 s)
      s2 ← fold_fields sm.sensor_type.units (folded_fields sm) s1
      wrap_err "error in OnObjectFinished" (v.on_object_finished s2)
