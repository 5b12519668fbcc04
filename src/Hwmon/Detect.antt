-- ===== src/Hwmon/Detect.antt =====
-- metric/system/hwmon/hwmon.go: the devices and sensors of a host.
use elastic_agent_system_met.Base.{
  Bool, true, false, not, ◌&&◌, List, [], ◌∷◌, ◌++◌, if◌then◌else◌, Bytes, codes, ◌==◌, leb,
  bytes_comparable, Option, none, some, Error, is_not_exist, message, Result, ok, err, ◌>>=◌,
  wrap_err,
}
use elastic_agent_system_met.Go.Strings.{trim_space, contains_byte}
use elastic_agent_system_met.Go.Numbers.{atoi, take_digits}
use elastic_agent_system_met.Go.Paths.{join_path, is_abs}
use elastic_agent_system_met.Go.Files.{Files, read_file}
use elastic_agent_system_met.Resolve.{Resolver}
use elastic_agent_system_met.Hwmon.Types.{
  base_dir, SensorType, temp_sensor, volt_sensor, fan_sensor, Sensor, Device,
}

pub record DirEntry : Type 0 where
  pub name : Bytes
  pub is_dir : Bool

-- What `os` says of paths: the error of `Stat`, the entries of `ReadDir`, whether `Lstat` sees a
-- symbolic link, and `Readlink`.
pub record Tree : Type 0 where
  pub files : Files
  pub stat : Bytes → Option Error
  pub read_dir : Bytes → Result (List DirEntry)
  pub is_symlink : Bytes → Result Bool
  pub readlink : Bytes → Result Bytes

unfoldable pub get_sensor_type : Bytes → Option SensorType
get_sensor_type key =
    if key == codes "temp"
    then some temp_sensor
    else if key == codes "in"
    then some volt_sensor
    else if key == codes "fan"
    then some fan_sensor
    else none

-- The two groups of `(^[a-z]*)([0-9]*)`, which matches at the start of every name.
unfoldable pub take_letters : Bytes → Bytes
take_letters [] = []
take_letters (c ∷ cs) =
    let rest = take_letters cs in if leb b'a' c && leb c b'z' then c ∷ rest else []

unfoldable pub drop_letters : Bytes → Bytes
drop_letters [] = []
drop_letters (c ∷ cs) =
    let rest = drop_letters cs in if leb b'a' c && leb c b'z' then rest else c ∷ cs

abbrev pub letters_of : Bytes → Bytes
letters_of name = take_letters name

abbrev pub number_of : Bytes → Bytes
number_of name = take_digits (drop_letters name)

abbrev pub prefix_of : Bytes → Bytes
prefix_of name = letters_of name ++ number_of name

unfoldable pub has_element : Bytes → List Bytes → Bool
has_element x [] = false
has_element x (y ∷ ys) = if y == x then true else has_element x ys

-- The names of the files that the loop does not skip at its first two tests.
unfoldable pub sensor_files : List DirEntry → List Bytes
sensor_files [] = []
sensor_files (file ∷ files) =
    let rest = sensor_files files in
    if file.is_dir then rest else if contains_byte b'_' file.name then file.name ∷ rest else rest

-- A name that is not skipped before: without a sensor type the loop goes on as it was.
unfoldable pub with_sensor :
    Option SensorType → Bytes → Result (List Sensor) → Result (List Sensor) → Result (List Sensor)
with_sensor none number skipped added = skipped
with_sensor (some st) number skipped added = do
  num ← wrap_err "error parsing int" (atoi number)
  sensors ← added
  ok (record { dev_type = st; sensor_num = num } ∷ sensors)

-- The loop over the names; `found` are the prefixes of the sensors so far.
unfoldable pub find_from : List Bytes → List Bytes → Result (List Sensor)
unfolding has_element get_sensor_type with_sensor
find_from [] found = ok []
find_from (name ∷ names) found =
    let skipped = find_from names found in
    let added = find_from names (prefix_of name ∷ found) in
    if has_element (prefix_of name) found
    then skipped
    else with_sensor (get_sensor_type (letters_of name)) (number_of name) skipped added

unfoldable pub find_sensors_in_path : Tree → Bytes → Result (List Sensor)
find_sensors_in_path t path = do
  files ← wrap_err "error reading from hwmon path" (t.read_dir path)
  find_from (sensor_files files) []

-- Where an entry of the directory leads; a relative link counts from the directory of the host
-- itself, whatever the resolver.
unfoldable pub device_path : Tree → Bytes → Result Bytes
device_path t name = do
  symlink ← wrap_err "error statting hwinfo path" (t.is_symlink name)
  target ← (if symlink then wrap_err "error reading path link" (t.readlink name) else ok name)
  ok (if not (is_abs target) && symlink then join_path (base_dir ∷ target ∷ []) else target)

unfoldable pub read_device : Tree → Bytes → Result Device
read_device t name = do
  apath ← device_path t name
  sensors ← find_sensors_in_path t apath
  raw ←
      wrap_err "error reading sensor name file"
        (read_file t.files (join_path (apath ∷ codes "name" ∷ [])))
  ok (record { name = trim_space raw; abs_path = apath; sensors = sensors })

unfoldable pub read_devices : Tree → Bytes → List DirEntry → Result (List Device)
read_devices t full_path [] = ok []
read_devices t full_path (entry ∷ entries) = do
  device ← read_device t (join_path (full_path ∷ entry.name ∷ []))
  devices ← read_devices t full_path entries
  ok (device ∷ devices)

abbrev pub is_missing_path : Option Error → Bool
is_missing_path none = false
is_missing_path (some e) = is_not_exist e

abbrev pub some_devices : List Device → Result (List Device)
some_devices [] = err (message "no hwmon devices found")
some_devices (d ∷ devices) = ok (d ∷ devices)

unfoldable pub detect_hwmon : Tree → Resolver → Result (List Device)
detect_hwmon t hostfs =
    if is_missing_path (t.stat (hostfs.resolve_host_fs base_dir))
    then err (message "hwmon path does not exist")
    else (do
      paths ← wrap_err "error reading directory" (t.read_dir (hostfs.resolve_host_fs base_dir))
      devices ← read_devices t (hostfs.resolve_host_fs base_dir) paths
      some_devices devices)
