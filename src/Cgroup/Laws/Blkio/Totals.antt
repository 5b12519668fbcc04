-- ===== src/Cgroup/Laws/Blkio/Totals.antt =====
-- The totals of block I/O over the devices.
use mathlib.Core.List.{Perm}
use elastic_agent_system_met.Base.{
  ℕ, ◌+◌, ◌%◌, ◌<◌, List, [], ◌∷◌, ◌≡◌, refl, ◌∙◌, codes, none, arith, Bytes, ok,
}
use elastic_agent_system_met.Base.Int.{add64, u64_mod}
use elastic_agent_system_met.Go.Maps.{lookup}
use elastic_agent_system_met.Go.Maps.Sums.{sum_by, sum_by-Perm}
use elastic_agent_system_met.Go.Files.{Files}
use elastic_agent_system_met.Cgroup.Blkio.{
  DeviceId, device_comparable, BlkioValue, collect_op_values, ThrottleDevice, ThrottleDevices,
  TotalIos, BlockIoSubsystem, add_devices, get_device, device_or_new, set_op_values, devices_of,
  set_bytes, set_ios, set_read_bps, set_write_bps, set_read_iops, set_write_iops, blkio_throttle,
  get_blkio, throttle_devices, read_blkio_values,
}
use elastic_agent_system_met.Cgroup.Laws.Blkio.Fields.{
  sum_by-set_op_values_kept, get_device-set_op_values_kept, sum_by-set_op_values,
  sum_by-set_limits_kept,
}
use elastic_agent_system_met.Cgroup.Laws.Blkio.Reads.{
  rw_of, sum_read_write, AreDistinct, sum_by-collect_op_values, collect_op_values-HasDistinctKeys,
}

abbrev rw_bytes : ThrottleDevice → ℕ
rw_bytes td = rw_of td.bytes

abbrev rw_ios : ThrottleDevice → ℕ
rw_ios td = rw_of td.ios

-- Loops over the limits add devices but leave both sums.
sum_by-devices_of :
    (f : ThrottleDevice → ℕ)
    → ((id : DeviceId) → f (device_or_new id none) ≡ 0)
    → ((n : ℕ) (td : ThrottleDevice) → f (set_read_bps n td) ≡ f td)
    → ((n : ℕ) (td : ThrottleDevice) → f (set_write_bps n td) ≡ f td)
    → ((n : ℕ) (td : ThrottleDevice) → f (set_read_iops n td) ≡ f td)
    → ((n : ℕ) (td : ThrottleDevice) → f (set_write_iops n td) ≡ f td)
    → (v1 v2 v3 v4 v5 v6 : List BlkioValue)
    → sum_by f (devices_of v1 v2 v3 v4 v5 v6)
      ≡ sum_by f (
          set_op_values set_ios
            (collect_op_values v2)
            (set_op_values set_bytes (collect_op_values v1) []))
unfolding devices_of
sum_by-devices_of f zero h3 h4 h5 h6 v1 v2 v3 v4 v5 v6 =
    sum_by-set_limits_kept f zero set_write_iops h6 v6 _
    ∙ sum_by-set_limits_kept f zero set_read_iops h5 v5 _
    ∙ sum_by-set_limits_kept f zero set_write_bps h4 v4 _
    ∙ sum_by-set_limits_kept f zero set_read_bps h3 v3 _

module _ (v1 v2 v3 v4 v5 v6 : List BlkioValue) where
  sum_by-rw_bytes :
      AreDistinct v1 → sum_by rw_bytes (devices_of v1 v2 v3 v4 v5 v6) ≡ sum_read_write v1
  sum_by-rw_bytes h =
      sum_by-devices_of rw_bytes (λ id. refl) (λ n td. refl) (λ n td. refl) (λ n td. refl)
        (λ n td. refl) v1 v2 v3 v4 v5 v6
      ∙ sum_by-set_op_values_kept rw_bytes (λ id. refl) set_ios (λ v td. refl)
          (collect_op_values v2) _
      ∙ omega (
        arith,
        sum_by-set_op_values rw_bytes (λ id. refl) set_bytes rw_of (λ v td. refl)
            (collect_op_values v1) [] (collect_op_values-HasDistinctKeys v1)
            (λ id v e. unfold get_device lookup in refl),
        sum_by-collect_op_values v1 h,
      )

  sum_by-rw_ios : AreDistinct v2 → sum_by rw_ios (devices_of v1 v2 v3 v4 v5 v6) ≡ sum_read_write v2
  sum_by-rw_ios h =
      sum_by-devices_of rw_ios (λ id. refl) (λ n td. refl) (λ n td. refl) (λ n td. refl)
        (λ n td. refl) v1 v2 v3 v4 v5 v6
      ∙ sum_by-set_op_values rw_ios (λ id. refl) set_ios rw_of (λ v td. refl) (collect_op_values v2)
          (set_op_values set_bytes (collect_op_values v1) []) (collect_op_values-HasDistinctKeys v2)
          (λ id v e.
            get_device-set_op_values_kept rw_ios (λ id. refl) set_bytes (λ v td. refl)
              (collect_op_values v1) [] id
            ∙ unfold get_device lookup in refl)
      ∙ omega (
        arith,
        sum_by-set_op_values_kept rw_ios (λ id. refl) set_bytes (λ v td. refl)
            (collect_op_values v1) [],
        sum_by-collect_op_values v2 h,
      )

-- Totals with two amounts added, as uint64.
abbrev pub plus : TotalIos → ℕ → ℕ → TotalIos
plus total bytes ios = record {
  bytes = (total.bytes + bytes) % u64_mod;
  ios = (total.ios + ios) % u64_mod;
}

add_devices-plus :
    (devices : ThrottleDevices) (total : TotalIos)
    → total.bytes < u64_mod
    → total.ios < u64_mod
    → add_devices devices total ≡ plus total (sum_by rw_bytes devices) (sum_by rw_ios devices)
unfolding add_devices
add_devices-plus [] total h k = ground arith
add_devices-plus ((id, dev) ∷ devices) total h k = ground (
  arith,
  add_devices-plus devices (record {
    bytes = add64 total.bytes (add64 dev.bytes.read dev.bytes.write);
    ios = add64 total.ios (add64 dev.ios.read dev.ios.write);
  }),
)

module _ (order : ThrottleDevices → ThrottleDevices)
    (order_perm : (devices : ThrottleDevices) → Perm (order devices) devices) (files : Files)
    (path : Bytes) (blkio : BlockIoSubsystem) where
  -- The totals are the sums of what the two files give for reads and for writes, for whatever order
  -- Go ranges over the devices, if no line repeats a device and an operation and the files can be read.
  pub get_blkio-plus :
      {v1 v2 v3 v4 v5 v6 : List BlkioValue}
      → read_blkio_values files path (codes "blkio.throttle.io_service_bytes") ≡ ok v1
      → read_blkio_values files path (codes "blkio.throttle.io_serviced") ≡ ok v2
      → read_blkio_values files path (codes "blkio.throttle.read_bps_device") ≡ ok v3
      → read_blkio_values files path (codes "blkio.throttle.write_bps_device") ≡ ok v4
      → read_blkio_values files path (codes "blkio.throttle.read_iops_device") ≡ ok v5
      → read_blkio_values files path (codes "blkio.throttle.write_iops_device") ≡ ok v6
      → AreDistinct v1
      → AreDistinct v2
      → blkio.total.bytes < u64_mod
      → blkio.total.ios < u64_mod
      → get_blkio order files path blkio
        ≡ ok (record blkio { total = plus blkio.total (sum_read_write v1) (sum_read_write v2) })
  unfolding get_blkio blkio_throttle throttle_devices
  get_blkio-plus {v1} {v2} {v3} {v4} {v5} {v6} r1 r2 r3 r4 r5 r6 d1 d2 h k =
      let devices = devices_of v1 v2 v3 v4 v5 v6 in
      rw
        (
          r1,
          r2,
          r3,
          r4,
          r5,
          r6,
          add_devices-plus (order devices) blkio.total h k,
          sum_by-Perm rw_bytes (order_perm devices),
          sum_by-Perm rw_ios (order_perm devices),
          sum_by-rw_bytes v1 v2 v3 v4 v5 v6 d1,
          sum_by-rw_ios v1 v2 v3 v4 v5 v6 d2,
        )
        refl
