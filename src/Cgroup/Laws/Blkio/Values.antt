-- ===== src/Cgroup/Laws/Blkio/Values.antt =====
-- What `collectOpValues` makes of the values of a file.
use elastic_agent_system_met.Base.{
  ℕ, Bool, true, false, ◌&&◌, List, [], ◌∷◌, if◌then◌else◌, ◌≡◌, refl, ◌∙◌, Bytes, codes, ◌==◌,
  bytes_eq, bytes_eq_iff, sym, subst, bytes_comparable, none, some, arith, Bool-cases, inl, inr, ap,
  Option,
}
use elastic_agent_system_met.Go.Maps.{lookup, insert, lookup-insert}
use elastic_agent_system_met.Cgroup.Blkio.{
  DeviceId, device_comparable, device_eq_iff, OperationValues, no_values, BlkioValue, set_operation,
  values_or_none, with_entry, collect_from, collect_op_values,
}

-- The value of the last entry for a device and an operation; `old` if there is none.
abbrev pub last_value : DeviceId → Bytes → List BlkioValue → ℕ → ℕ
last_value id operation [] old = old
last_value id operation (bv ∷ values) old =
    last_value id operation values
      (if bv.device_id == id && bytes_eq bv.operation operation then bv.value else old)

abbrev pub last_values : DeviceId → List BlkioValue → OperationValues → OperationValues
last_values id values old = record {
  read = last_value id (codes "read") values old.read;
  write = last_value id (codes "write") values old.write;
  async = last_value id (codes "async") values old.async;
  sync = last_value id (codes "sync") values old.sync;
}

abbrev pub names_device : DeviceId → List BlkioValue → Bool
names_device id [] = false
names_device id (bv ∷ values) = if bv.device_id == id then true else names_device id values

-- The values that a file gives for a device; none if no line names it.
abbrev pub reported : DeviceId → List BlkioValue → Option OperationValues
reported id values = if names_device id values then some (last_values id values no_values) else none

-- The values of a device after one more entry.
abbrev pub with_value : Bytes → ℕ → OperationValues → OperationValues
with_value operation value old = record {
  read = if bytes_eq operation (codes "read") then value else old.read;
  write = if bytes_eq operation (codes "write") then value else old.write;
  async = if bytes_eq operation (codes "async") then value else old.async;
  sync = if bytes_eq operation (codes "sync") then value else old.sync;
}

-- No two of the names are equal, so that the order of the tests does not matter.
pub set_operation-fields :
    (operation : Bytes) (value : ℕ) (old : OperationValues)
    → set_operation operation value old ≡ with_value operation value old
unfolding set_operation bytes_eq
set_operation-fields operation value old = elim (Bool-cases (bytes_eq operation (codes "read"))) [
  | inl e ↦ named (codes "read") refl e
  | inr e1 ↦ elim (Bool-cases (bytes_eq operation (codes "write"))) [
    | inl e ↦ named (codes "write") refl e
    | inr e2 ↦ elim (Bool-cases (bytes_eq operation (codes "async"))) [
      | inl e ↦ named (codes "async") refl e
      | inr e3 ↦ elim (Bool-cases (bytes_eq operation (codes "sync"))) [
        | inl e ↦ named (codes "sync") refl e
        | inr e4 ↦ unfold set_operation in rw (e1, e2, e3, e4) refl
      ]
    ]
  ]
]
  where
    named :
        (name : Bytes)
        → set_operation name value old ≡ with_value name value old
        → bytes_eq operation name ≡ true
        → set_operation operation value old ≡ with_value operation value old
    named name h e =
        subst (λ o. set_operation o value old ≡ with_value o value old)
          (sym ((bytes_eq_iff operation name).0 e)) h

last_values-other :
    (id : DeviceId) (bv : BlkioValue) (values : List BlkioValue) (old : OperationValues)
    → (bv.device_id == id) ≡ false
    → last_values id (bv ∷ values) old ≡ last_values id values old
last_values-other id bv values old h = rw h refl

last_values-same :
    (id : DeviceId) (bv : BlkioValue) (values : List BlkioValue) (old : OperationValues)
    → (bv.device_id == id) ≡ true
    → last_values id (bv ∷ values) old
      ≡ last_values id values (set_operation bv.operation bv.value old)
last_values-same id bv values old h = rw (h, set_operation-fields bv.operation bv.value old) refl

last_values-unnamed :
    (id : DeviceId) (values : List BlkioValue) (old : OperationValues)
    → names_device id values ≡ false
    → last_values id values old ≡ old
last_values-unnamed id [] old h = refl
last_values-unnamed id (bv ∷ values) old h = elim (Bool-cases (bv.device_id == id)) [
  | inl e ↦ ground arith
  | inr e ↦ last_values-other id bv values old e ∙ last_values-unnamed id values old (rw e at h)
]

last_values_if_named :
    (id : DeviceId) (values : List BlkioValue) (old : OperationValues)
    → (if names_device id values then some (last_values id values old) else some old)
      ≡ some (last_values id values old)
last_values_if_named id values old = elim (Bool-cases (names_device id values)) [
  | inl e ↦ rw e refl
  | inr e ↦ rw (e, last_values-unnamed id values old e) refl
]

collect_from-reported :
    (id : DeviceId) (values : List BlkioValue) (op_values : List (DeviceId × OperationValues))
    → lookup id (collect_from values op_values) ≡ (
        if names_device id values
        then some (last_values id values (values_or_none (lookup id op_values)))
        else lookup id op_values)
unfolding collect_from
collect_from-reported id [] op_values = refl
collect_from-reported id (bv ∷ values) op_values =
    let value = with_entry bv (lookup bv.device_id op_values) in
    let look = lookup-insert bv.device_id id value op_values in
    collect_from-reported id values (insert bv.device_id value op_values)
    ∙ elim (Bool-cases (bv.device_id == id)) [
      | inl e ↦
          let old = values_or_none (lookup id op_values) in
          let same : lookup id (insert bv.device_id value op_values)
              ≡ some (set_operation bv.operation bv.value old) =
            look
            ∙ rw e (
                ap (λ d. some (with_entry bv (lookup d op_values)))
                  ((device_eq_iff bv.device_id id).0 e)) in
          rw
            (
              same,
              last_values_if_named id values (set_operation bv.operation bv.value old),
              ← last_values-same id bv values old e,
            )
            (rw e refl)
      | inr e ↦ rw (look, e) refl
    ]

-- A device has the value of the last line of each of its operations, and 0 for an operation that
-- no line gives; a device that no line names is not there.
pub lookup-collect_op_values :
    (id : DeviceId) (values : List BlkioValue)
    → lookup id (collect_op_values values) ≡ reported id values
unfolding collect_op_values lookup
lookup-collect_op_values id values = collect_from-reported id values []
