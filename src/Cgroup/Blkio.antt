-- ===== src/Cgroup/Blkio.antt =====
-- metric/system/cgroup/cgv1/blkio.go: the block I/O controller of cgroups V1.
use elastic_agent_system_met.Base.{
  ℕ, Bool, true, false, ◌&&◌, ◌||◌, List, [], ◌∷◌, if◌then◌else◌, Bytes, codes, ◌==◌,
  bytes_comparable, nat_eq, Option, none, some, is_not_exist, invalid_format, Result, ok, err,
  ◌>>=◌, wrap_err, Comparable, ◌↔◌, ◌≡◌, arith,
}
use elastic_agent_system_met.Base.Int.{add64}
use elastic_agent_system_met.Go.Strings.{fields_func, is_space, is_digit, trim_space, to_lower}
use elastic_agent_system_met.Go.Numbers.{checked}
use elastic_agent_system_met.Go.Numbers
use elastic_agent_system_met.Go.Maps.{lookup, insert}
use elastic_agent_system_met.Go.Paths.{join_path}
use elastic_agent_system_met.Go.Files.{Files, File, content, failed, scan}
use elastic_agent_system_met.Cgroup.Common.{parse_uint}
use elastic_agent_system_met.Cgroup.Mountinfo.{unless}

pub record DeviceId : Type 0 where
  pub major : ℕ
  pub minor : ℕ

unfoldable pub device_eq : DeviceId → DeviceId → Bool
device_eq a b = nat_eq a.major b.major && nat_eq a.minor b.minor

pub device_eq_iff : (a b : DeviceId) → (device_eq a b ≡ true) ↔ (a ≡ b)
unfolding device_eq
device_eq_iff a b = ground arith

instance abbrev pub device_comparable : Comparable DeviceId
device_comparable = record { same = device_eq; same_iff = device_eq_iff }

pub record OperationValues : Type 0 where
  pub read : ℕ
  pub write : ℕ
  pub async : ℕ
  pub sync : ℕ

abbrev pub no_values : OperationValues
no_values = record { read = 0; write = 0; async = 0; sync = 0 }

pub record ThrottleDevice : Type 0 where
  pub device_id : DeviceId
  pub read_limit_bps : ℕ
  pub write_limit_bps : ℕ
  pub read_limit_iops : ℕ
  pub write_limit_iops : ℕ
  pub bytes : OperationValues
  pub ios : OperationValues

abbrev pub ThrottleDevices : Type 0
ThrottleDevices = List (DeviceId × ThrottleDevice)

pub record TotalIos : Type 0 where
  pub bytes : ℕ
  pub ios : ℕ

pub record BlockIoSubsystem : Type 0 where
  pub id : Bytes
  pub path : Bytes
  pub total : TotalIos

pub record BlkioValue : Type 0 where
  pub device_id : DeviceId
  pub operation : Bytes
  pub value : ℕ

abbrev pub is_colon_or_space : ℕ → Bool
is_colon_or_space r = is_space r || nat_eq r b':'

-- `unicode.IsNumber` of a byte: a digit, or a number sign of Latin-1.
abbrev pub is_number_byte : ℕ → Bool
is_number_byte c =
    is_digit c
    || (nat_eq c 178
        || (nat_eq c 179 || (nat_eq c 185 || (nat_eq c 188 || (nat_eq c 189 || nat_eq c 190)))))

unfoldable pub blkio_value_of : Bytes → Bytes → Bytes → Bytes → Result BlkioValue
blkio_value_of first second operation text = do
  major ← checked (Numbers.parse_uint first)
  minor ← checked (Numbers.parse_uint second)
  value ← parse_uint text
  ok (record {
    device_id = record { major = major; minor = minor };
    operation = operation;
    value = value;
  })

unfoldable pub blkio_value_of_fields : List Bytes → Result BlkioValue
unfolding blkio_value_of
blkio_value_of_fields (first ∷ second ∷ text ∷ []) = blkio_value_of first second [] text
blkio_value_of_fields (first ∷ second ∷ operation ∷ text ∷ []) =
    blkio_value_of first second (to_lower operation) text
blkio_value_of_fields _ = err invalid_format

unfoldable pub parse_blkio_value : Bytes → Result BlkioValue
unfolding blkio_value_of_fields
parse_blkio_value line = blkio_value_of_fields (fields_func (λ r. is_colon_or_space r) line)

-- Whether a trimmed line starts with a device ID.
unfoldable pub starts_device : Bytes → Bool
starts_device [] = false
starts_device (c ∷ cs) = is_number_byte c

-- The loop over the lines; other lines than those of a device are skipped.
unfoldable pub blkio_lines : List Bytes → Result (List BlkioValue)
unfolding starts_device
blkio_lines [] = ok []
blkio_lines (line ∷ lines) =
    let rest = blkio_lines lines in
    if starts_device (trim_space line)
    then (do v ← parse_blkio_value line; values ← rest; ok (v ∷ values))
    else rest

-- A file that is not there has no values.
unfoldable pub blkio_values_of_file : File → Result (List BlkioValue)
blkio_values_of_file (failed e) = if is_not_exist e then ok [] else err e
blkio_values_of_file (content text) = do
  values ← blkio_lines (scan text).lines
  unless (scan text).fault values

unfoldable pub read_blkio_values : Files → Bytes → Bytes → Result (List BlkioValue)
unfolding blkio_values_of_file
read_blkio_values files path name = blkio_values_of_file (files (join_path (path ∷ name ∷ [])))

unfoldable pub set_operation : Bytes → ℕ → OperationValues → OperationValues
set_operation operation value op_value =
    if operation == codes "read"
    then record op_value { read = value }
    else if operation == codes "write"
    then record op_value { write = value }
    else if operation == codes "async"
    then record op_value { async = value }
    else if operation == codes "sync"
    then record op_value { sync = value }
    else op_value

abbrev pub values_or_none : Option OperationValues → OperationValues
values_or_none none = no_values
values_or_none (some op_value) = op_value

-- The values of a device after an entry for it.
abbrev pub with_entry : BlkioValue → Option OperationValues → OperationValues
with_entry bv op_value = set_operation bv.operation bv.value (values_or_none op_value)

unfoldable pub collect_from :
    List BlkioValue → List (DeviceId × OperationValues) → List (DeviceId × OperationValues)
collect_from [] op_values = op_values
collect_from (bv ∷ values) op_values =
    collect_from values
      (insert bv.device_id (with_entry bv (lookup bv.device_id op_values)) op_values)

unfoldable pub collect_op_values : List BlkioValue → List (DeviceId × OperationValues)
collect_op_values values = collect_from values []

abbrev pub device_or_new : DeviceId → Option ThrottleDevice → ThrottleDevice
device_or_new id none = record {
  device_id = id;
  read_limit_bps = 0;
  write_limit_bps = 0;
  read_limit_iops = 0;
  write_limit_iops = 0;
  bytes = no_values;
  ios = no_values;
}
device_or_new id (some td) = td

unfoldable pub get_device : DeviceId → ThrottleDevices → ThrottleDevice
get_device id devices = device_or_new id (lookup id devices)

-- An assignment to a field of `getDevice(id)`, which adds the device if it is new.
unfoldable pub change_device :
    (ThrottleDevice → ThrottleDevice) → DeviceId → ThrottleDevices → ThrottleDevices
unfolding get_device
change_device change id devices = insert id (change (get_device id devices)) devices

unfoldable pub set_op_values :
    (OperationValues → ThrottleDevice → ThrottleDevice)
    → List (DeviceId × OperationValues)
    → ThrottleDevices
    → ThrottleDevices
set_op_values set [] devices = devices
set_op_values set ((id, op_values) ∷ entries) devices =
    set_op_values set entries (change_device (set op_values) id devices)

unfoldable pub set_limits :
    (ℕ → ThrottleDevice → ThrottleDevice) → List BlkioValue → ThrottleDevices → ThrottleDevices
set_limits set [] devices = devices
set_limits set (bv ∷ values) devices =
    set_limits set values (change_device (set bv.value) bv.device_id devices)

abbrev pub set_bytes : OperationValues → ThrottleDevice → ThrottleDevice
set_bytes op_values td = record td { bytes = op_values }

abbrev pub set_ios : OperationValues → ThrottleDevice → ThrottleDevice
set_ios op_values td = record td { ios = op_values }

abbrev pub set_read_bps : ℕ → ThrottleDevice → ThrottleDevice
set_read_bps value td = record td { read_limit_bps = value }

abbrev pub set_write_bps : ℕ → ThrottleDevice → ThrottleDevice
set_write_bps value td = record td { write_limit_bps = value }

abbrev pub set_read_iops : ℕ → ThrottleDevice → ThrottleDevice
set_read_iops value td = record td { read_limit_iops = value }

abbrev pub set_write_iops : ℕ → ThrottleDevice → ThrottleDevice
set_write_iops value td = record td { write_limit_iops = value }

-- The loop that adds up the devices.
unfoldable pub add_devices : ThrottleDevices → TotalIos → TotalIos
add_devices [] total = total
add_devices ((id, dev) ∷ devices) total = add_devices devices (record {
  bytes = add64 total.bytes (add64 dev.bytes.read dev.bytes.write);
  ios = add64 total.ios (add64 dev.ios.read dev.ios.write);
})

-- The devices with the values of the six files.
unfoldable pub devices_of :
    List BlkioValue
    → List BlkioValue
    → List BlkioValue
    → List BlkioValue
    → List BlkioValue
    → List BlkioValue
    → ThrottleDevices
devices_of service_bytes serviced read_bps write_bps read_iops write_iops =
    let d1 = set_op_values set_bytes (collect_op_values service_bytes) [] in
    let d2 = set_op_values set_ios (collect_op_values serviced) d1 in
    let d3 = set_limits set_read_bps read_bps d2 in
    let d4 = set_limits set_write_bps write_bps d3 in
    let d5 = set_limits set_read_iops read_iops d4 in set_limits set_write_iops write_iops d5

unfoldable pub throttle_devices : Files → Bytes → Result ThrottleDevices
throttle_devices files path = do
  v1 ←
      wrap_err "error reading blkio.throttle.io_service_bytes"
        (read_blkio_values files path (codes "blkio.throttle.io_service_bytes"))
  v2 ←
      wrap_err "error reading blkio.throttle.io_serviced"
        (read_blkio_values files path (codes "blkio.throttle.io_serviced"))
  v3 ←
      wrap_err "error reading blkio.throttle.read_bps_device"
        (read_blkio_values files path (codes "blkio.throttle.read_bps_device"))
  v4 ←
      wrap_err "error reading blkio.throttle.write_bps_device"
        (read_blkio_values files path (codes "blkio.throttle.write_bps_device"))
  v5 ←
      wrap_err "error reading blkio.throttle.read_iops_device"
        (read_blkio_values files path (codes "blkio.throttle.read_iops_device"))
  v6 ←
      wrap_err "error reading blkio.throttle.write_iops_device"
        (read_blkio_values files path (codes "blkio.throttle.write_iops_device"))
  ok (devices_of v1 v2 v3 v4 v5 v6)

-- `order` is the order in which Go ranges over the map of the devices.
module _ (order : ThrottleDevices → ThrottleDevices) where
  unfoldable pub blkio_throttle : Files → Bytes → BlockIoSubsystem → Result BlockIoSubsystem
  blkio_throttle files path blkio = do
    devices ← throttle_devices files path
    ok (record blkio { total = add_devices (order devices) blkio.total })

  unfoldable pub get_blkio : Files → Bytes → BlockIoSubsystem → Result BlockIoSubsystem
  get_blkio files path blkio =
      wrap_err "error reading throttle data" (blkio_throttle files path blkio)
