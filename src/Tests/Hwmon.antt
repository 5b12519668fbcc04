-- ===== src/Tests/Hwmon.antt =====
-- The hardware monitors.
use elastic_agent_system_met.Base.{
  false, List, [], ◌∷◌, ◌≡◌, refl, codes, bytes_eq, Bool-cases, inl, inr, some, none,
  errors_is_no_metric, ok, err, not_exist, All, subst,
}
use elastic_agent_system_met.Base.Int.{pos}
use elastic_agent_system_met.Go.Strings.{trim_space, contains_byte}
use elastic_agent_system_met.Go.Numbers.{atoi, parse_int, parse_uint, take_digits}
use elastic_agent_system_met.Go.Maps.{insert}
use elastic_agent_system_met.Go.Paths.{join_path}
use elastic_agent_system_met.Process.Info.{pid_text}
use elastic_agent_system_met.Go.Files.{Files, content, failed}
use elastic_agent_system_met.Hwmon.Types.{Sensor, Device, temp_sensor}
use elastic_agent_system_met.Hwmon.Sensors.{
  report_sensors, each_sensor, fetch_sensor, string_strip, get_name, get_value_for_sensor,
  string_strip_int, label_name, special_metric, millicelsius_to_celsius, MonData,
}
use elastic_agent_system_met.Hwmon.Detect.{
  DirEntry, find_from, take_letters, drop_letters, Tree, sensor_files, find_sensors_in_path,
}
use elastic_agent_system_met.Hwmon.Laws.Skips.{HasNoMetricErrors, report_sensors-All}
use elastic_agent_system_met.Hwmon.Laws.Reads.{IsRead}
use elastic_agent_system_met.Hwmon.Laws.Found.{
  HasSensor, IsSensorFile, IsSensorFileOf, Picked, find_sensors_in_path-Named,
}
use elastic_agent_system_met.Tests.Fixtures.{floats, opts, one_file}

abbrev temp1 : Sensor
temp1 = record { dev_type = temp_sensor; sensor_num = pos 1 }

abbrev chip : Device
chip = record { name = codes "chip"; abs_path = codes "/h"; sensors = temp1 ∷ [] }

abbrev input_file : Files
input_file = one_file (codes "/h/temp1_input") (codes "42000\n")

input_file-HasNoMetricErrors : HasNoMetricErrors input_file
unfolding errors_is_no_metric
input_file-HasNoMetricErrors p e h = elim (Bool-cases (bytes_eq p (codes "/h/temp1_input"))) [
  | inl k ↦ cc (rw k at h)
  | inr k ↦ missing (rw k at h)
]
  where
    missing : failed not_exist ≡ failed e → errors_is_no_metric e ≡ false
    missing k =
        subst
          (λ file. (elim file [
            | content text ↦ Unit {0}
            | failed x ↦ errors_is_no_metric x ≡ false
          ]))
          k refl

abbrev metrics : MonData floats opts
metrics =
    (
      codes "temp_1",
      record {
        label = codes "temp_1";
        sensor_type = temp_sensor;
        critical = none;
        max = none;
        lowest = none;
        average = none;
        value = some 42;
      },
    )
    ∷ []

report_sensors-All_example : All (IsRead floats opts input_file (codes "/h")) (temp1 ∷ [])
unfolding bytes_eq report_sensors each_sensor fetch_sensor string_strip join_path get_name pid_text
    get_value_for_sensor string_strip_int atoi parse_int trim_space parse_uint insert label_name
    special_metric millicelsius_to_celsius
report_sensors-All_example =
    report_sensors-All input_file input_file-HasNoMetricErrors floats opts chip {metrics = metrics}
      refl

abbrev chip_files : List DirEntry
chip_files =
    record { name = codes "name"; is_dir = false }
    ∷ record { name = codes "temp1_input"; is_dir = false }
    ∷ record { name = codes "temp1_max"; is_dir = false }
    ∷ []

abbrev chip_tree : Tree
chip_tree = record {
  files = input_file;
  stat = λ p. none;
  read_dir = λ p. ok chip_files;
  is_symlink = λ p. ok false;
  readlink = λ p. err not_exist;
}

find_sensors_in_path-Named_example :
    All (λ file. IsSensorFile file → HasSensor (temp1 ∷ []) file.name) chip_files
    × Picked (IsSensorFileOf chip_files) [] (temp1 ∷ [])
unfolding bytes_eq find_sensors_in_path find_from sensor_files contains_byte take_letters atoi
    parse_int take_digits drop_letters parse_uint
find_sensors_in_path-Named_example =
    find_sensors_in_path-Named chip_tree (codes "/h") {files = chip_files} {sensors = temp1 ∷ []}
      refl refl
