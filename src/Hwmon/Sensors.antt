-- ===== src/Hwmon/Sensors.antt =====
-- metric/system/hwmon/hwmon.go: the metrics of a sensor, read from its files.
use elastic_agent_system_met.Base.{
  ℕ, suc, ◌-◌, ◌/◌, Bool, ◌&&◌, List, [], ◌∷◌, ◌++◌, if◌then◌else◌, Bytes, codes, ◌==◌,
  bytes_comparable, nat_eq, no_metric, is_not_exist, errors_is_no_metric, wrap, Result, ok, err,
  panic, ◌>>=◌, wrap_err,
}
use elastic_agent_system_met.Base.Int.{ℤ, pos, negsuc, u64_mod}
use elastic_agent_system_met.Go.Strings.{trim_space, to_lower}
use elastic_agent_system_met.Go.Numbers.{atoi}
use elastic_agent_system_met.Go.Maps.{insert}
use elastic_agent_system_met.Go.Paths.{join_path}
use elastic_agent_system_met.Go.Files.{Files, File, content, failed}
use elastic_agent_system_met.Libs.{Float64, Opt}
use elastic_agent_system_met.Process.Info.{pid_text}
use elastic_agent_system_met.Hwmon.Types.{SensorType, Sensor, Device, SensorMetrics}

-- `fmt.Sprintf("%s%d_%s", fileKey, SensorNum, file)`
unfoldable pub get_name : Sensor → Bytes → Bytes
get_name s file = s.dev_type.file_key ++ (pid_text s.sensor_num ++ (codes "_" ++ file))

unfoldable pub strip_of_file : File → Result Bytes
strip_of_file (content raw) = ok (trim_space raw)
strip_of_file (failed e) = if is_not_exist e then err e else err (wrap "error reading file" e)

unfoldable pub string_strip : Files → Bytes → Bytes → Result Bytes
unfolding strip_of_file
string_strip files name path = strip_of_file (files (join_path (path ∷ name ∷ [])))

-- `uint64(conv)` of an int64.
abbrev pub to_uint64 : ℤ → ℕ
to_uint64 (pos n) = n
to_uint64 (negsuc n) = u64_mod - suc n

abbrev pub is_temp : SensorType → Bool
is_temp st = st.file_key == codes "temp" && st.units == codes "celsius"

-- A label without a file: made of the type and the number.
abbrev pub label_or : Sensor → Result Bytes → Result Bytes
label_or s (ok label) = ok label
label_or s (err e) =
    if is_not_exist e
    then ok (s.dev_type.file_key ++ (codes "_" ++ pid_text s.sensor_num))
    else err (wrap "error fetching label" e)
label_or s panic = panic

-- The test of the error that the input gives.
abbrev pub input_or {ℓ} : {A : Type ℓ} → Result A → Result A
input_or (ok input) = ok input
input_or (err e) = if is_not_exist e then err no_metric else err (wrap "error fetching input" e)
input_or panic = panic

-- `strings.Replace(s, " ", "_", -1)`
unfoldable pub underscored : Bytes → Bytes
underscored [] = []
underscored (c ∷ cs) = (if nat_eq c b' ' then b'_' else c) ∷ underscored cs

unfoldable pub label_name : Bytes → Bytes
unfolding underscored to_lower
label_name label = to_lower (underscored label)

module _ (f : Float64) (o : Opt f) where
  unfoldable pub string_strip_int : Files → Bytes → Bytes → Result o.Uint
  string_strip_int files name path = do
    raw ← string_strip files name path
    conv ← wrap_err "error converting value" (atoi raw)
    ok (o.uint_with (to_uint64 conv))

  unfoldable pub millicelsius_to_celsius : o.Uint → o.Uint
  millicelsius_to_celsius value = o.uint_with (o.value_or value 0 / 1000)

  unfoldable pub get_value_for_sensor : Files → Bytes → Bytes → SensorType → Result o.Uint
  get_value_for_sensor files name path st = do
    intval ← wrap_err "error fetching int val" (string_strip_int files name path)
    ok (if is_temp st then millicelsius_to_celsius intval else intval)

  -- The value beside an error.
  abbrev pub value_or_none : Result o.Uint → o.Uint
  value_or_none (ok u) = u
  value_or_none _ = o.uint_none

  -- A metric that some sensors have; an error means that there is none.
  unfoldable pub special_metric : Files → Sensor → Bytes → Bytes → o.Uint
  special_metric files s path file =
      value_or_none (get_value_for_sensor files (get_name s file) path s.dev_type)

  unfoldable pub fetch_sensor : Files → Sensor → Bytes → Result (SensorMetrics f o)
  fetch_sensor files s path = do
    label ← label_or s (string_strip files (get_name s (codes "label")) path)
    input ← input_or (get_value_for_sensor files (get_name s (codes "input")) path s.dev_type)
    ok (record {
      label = label;
      sensor_type = s.dev_type;
      critical = special_metric files s path (codes "crit");
      max = special_metric files s path (codes "max");
      lowest = special_metric files s path (codes "lowest");
      average = special_metric files s path (codes "average");
      value = input;
    })

  abbrev pub MonData : Type 0
  MonData = List (Bytes × SensorMetrics f o)

  -- The entry of a sensor; one without a metric is skipped.
  abbrev pub add_sensor :
      Result (SensorMetrics f o) → (MonData → Result MonData) → MonData → Result MonData
  add_sensor (ok data') continue metrics = continue (insert (label_name data'.label) data' metrics)
  add_sensor (err e) continue metrics =
      if errors_is_no_metric e then continue metrics else err (wrap "error fetching sensor data" e)
  add_sensor panic continue metrics = panic

  unfoldable pub each_sensor : Files → Bytes → List Sensor → MonData → Result MonData
  each_sensor files path [] metrics = ok metrics
  each_sensor files path (s ∷ sensors) metrics =
      add_sensor (fetch_sensor files s path) (λ next. each_sensor files path sensors next) metrics

  unfoldable pub report_sensors : Files → Device → Result MonData
  report_sensors files dev = each_sensor files dev.abs_path dev.sensors []
