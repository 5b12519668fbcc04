-- ===== src/Cgroup/Laws/Blkio/Fields.antt =====
-- The loops that set fields of the devices, and what they do to a sum over the devices.
use elastic_agent_system_met.Base.{
  ℕ, ◌+◌, List, [], ◌∷◌, ◌≡◌, refl, sym, ◌∙◌, none, some, arith, Option-cases, inl, inr,
}
use elastic_agent_system_met.Go.Maps.{lookup, lookup-insert}
use elastic_agent_system_met.Go.Maps.Sums.{sum_by, value_at, sum_by-insert, HasDistinctKeys}
use elastic_agent_system_met.Cgroup.Blkio.{
  DeviceId, device_comparable, device_eq_iff, OperationValues, BlkioValue, ThrottleDevice,
  ThrottleDevices, get_device, change_device, device_or_new, set_op_values, set_limits,
}

module _ (f : ThrottleDevice → ℕ) (zero_new : (id : DeviceId) → f (device_or_new id none) ≡ 0) where
  value_at-get_device :
      (id : DeviceId) (devices : ThrottleDevices)
      → value_at f (lookup id devices) ≡ f (get_device id devices)
  unfolding get_device
  value_at-get_device id devices = elim (Option-cases (lookup id devices)) [
    | inl e ↦ rw e (sym (zero_new id))
    | inr (td, e) ↦ rw e refl
  ]

  sum_by-change :
      (change : ThrottleDevice → ThrottleDevice) (id : DeviceId) (devices : ThrottleDevices)
      → sum_by f (change_device change id devices) + f (get_device id devices)
        ≡ sum_by f devices + f (change (get_device id devices))
  unfolding change_device
  sum_by-change change id devices = omega (
    arith,
    sum_by-insert f id (change (get_device id devices)) devices,
    value_at-get_device id devices,
  )

  -- A field that the change leaves alone keeps its sum, and its value for each device.
  module _ {A : Type 0} (set : A → ThrottleDevice → ThrottleDevice)
      (keeps : (a : A) (td : ThrottleDevice) → f (set a td) ≡ f td) where
    get_device-change :
        (a : A) (id wanted : DeviceId) (devices : ThrottleDevices)
        → f (get_device wanted (change_device (set a) id devices)) ≡ f (get_device wanted devices)
    unfolding change_device get_device
    get_device-change a id wanted devices = ground (
      arith,
      lookup-insert id wanted (set a (device_or_new id (lookup id devices))) devices,
      device_eq_iff id wanted,
      keeps a (device_or_new id (lookup id devices)),
    )

    sum_by-change_kept :
        (a : A) (id : DeviceId) (devices : ThrottleDevices)
        → sum_by f (change_device (set a) id devices) ≡ sum_by f devices
    sum_by-change_kept a id devices =
        omega (arith, sum_by-change (set a) id devices, keeps a (get_device id devices))

  module _ (set : OperationValues → ThrottleDevice → ThrottleDevice) where
    pub sum_by-set_op_values_kept :
        ((v : OperationValues) (td : ThrottleDevice) → f (set v td) ≡ f td)
        → (entries : List (DeviceId × OperationValues)) (devices : ThrottleDevices)
        → sum_by f (set_op_values set entries devices) ≡ sum_by f devices
    unfolding set_op_values
    sum_by-set_op_values_kept keeps [] devices = refl
    sum_by-set_op_values_kept keeps ((id, v) ∷ entries) devices =
        sum_by-set_op_values_kept keeps entries (change_device (set v) id devices)
        ∙ sum_by-change_kept set keeps v id devices

    pub get_device-set_op_values_kept :
        ((v : OperationValues) (td : ThrottleDevice) → f (set v td) ≡ f td)
        → (entries : List (DeviceId × OperationValues)) (devices : ThrottleDevices)
          (wanted : DeviceId)
        → f (get_device wanted (set_op_values set entries devices)) ≡ f (get_device wanted devices)
    unfolding set_op_values
    get_device-set_op_values_kept keeps [] devices wanted = refl
    get_device-set_op_values_kept keeps ((id, v) ∷ entries) devices wanted =
        get_device-set_op_values_kept keeps entries (change_device (set v) id devices) wanted
        ∙ get_device-change set keeps v id wanted devices

    -- A field that the loop sets sums up to what is set, if it was 0 for each device and each device
    -- is set once.
    pub sum_by-set_op_values :
        (g : OperationValues → ℕ)
        → ((v : OperationValues) (td : ThrottleDevice) → f (set v td) ≡ g v)
        → (entries : List (DeviceId × OperationValues)) (devices : ThrottleDevices)
        → HasDistinctKeys entries
        → ((id : DeviceId) (v : OperationValues)
            → lookup id entries ≡ some v
            → f (get_device id devices) ≡ 0)
        → sum_by f (set_op_values set entries devices) ≡ sum_by f devices + sum_by g entries
    unfolding set_op_values
    sum_by-set_op_values g sets [] devices h unset = omega arith
    sum_by-set_op_values g sets ((id, v) ∷ entries) devices (h, t) unset =
        let d' = change_device (set v) id devices in
        omega (
          arith,
          sum_by-set_op_values g sets entries d' t still,
          sum_by-change (set v) id devices,
          sets v (get_device id devices),
          unset id v now,
        )
      where
        now : lookup id ((id, v) ∷ entries) ≡ some v
        now = unfold lookup in ground (arith, device_eq_iff id id)

        still :
            (k : DeviceId) (w : OperationValues)
            → lookup k entries ≡ some w
            → f (get_device k (change_device (set v) id devices)) ≡ 0
        still k w e =
            unfold change_device get_device lookup in
            ground (
              arith,
              lookup-insert id k (set v (device_or_new id (lookup id devices))) devices,
              device_eq_iff id k,
              unset k w,
            )

  pub sum_by-set_limits_kept :
      (set : ℕ → ThrottleDevice → ThrottleDevice)
      → ((n : ℕ) (td : ThrottleDevice) → f (set n td) ≡ f td)
      → (values : List BlkioValue) (devices : ThrottleDevices)
      → sum_by f (set_limits set values devices) ≡ sum_by f devices
  unfolding set_limits
  sum_by-set_limits_kept set keeps [] devices = refl
  sum_by-set_limits_kept set keeps (bv ∷ values) devices =
      sum_by-set_limits_kept set keeps values (change_device (set bv.value) bv.device_id devices)
      ∙ sum_by-change_kept set keeps bv.value bv.device_id devices
