-- ===== src/Cgroup/Laws/Blkio/Reads.antt =====
-- The values for reads and for writes: summed up by line, and by device.
use elastic_agent_system_met.Base.{
  ℕ, Bool, ◌+◌, true, false, ◌&&◌, List, [], ◌∷◌, if◌then◌else◌, ◌≡◌, refl, sym, subst, ◌∙◌, ap,
  codes, ◌==◌, ◌||◌, bytes_eq, bytes_eq_iff, none, some, Option, arith, Bool-cases, inl, inr, All,
  Bytes,
}
use elastic_agent_system_met.Go.Maps.{lookup, insert, lookup-insert}
use elastic_agent_system_met.Go.Maps.Sums.{
  sum_by, value_at, sum_by-insert, HasDistinctKeys, insert-HasDistinctKeys,
}
use elastic_agent_system_met.Cgroup.Blkio.{
  DeviceId, device_comparable, device_eq_iff, OperationValues, BlkioValue, set_operation,
  values_or_none, with_entry, collect_from, collect_op_values,
}
use elastic_agent_system_met.Cgroup.Laws.Blkio.Values.{set_operation-fields}

abbrev pub rw_of : OperationValues → ℕ
rw_of v = v.read + v.write

abbrev read_or_write : Bytes → ℕ → ℕ
read_or_write operation value =
    if bytes_eq operation (codes "read") || bytes_eq operation (codes "write") then value else 0

-- The values of the lines for reads and for writes, added up.
abbrev pub sum_read_write : List BlkioValue → ℕ
sum_read_write [] = 0
sum_read_write (bv ∷ values) = read_or_write bv.operation bv.value + sum_read_write values

abbrev pub repeats : BlkioValue → List BlkioValue → Bool
repeats bv [] = false
repeats bv (other ∷ values) =
    if bv.device_id == other.device_id && bytes_eq bv.operation other.operation
    then true
    else repeats bv values

-- No two lines are for the same operation of the same device.
abbrev pub AreDistinct : List BlkioValue → Type 0
AreDistinct [] = Unit
AreDistinct (bv ∷ values) = (repeats bv values ≡ false) × AreDistinct values

abbrev op_field : Bytes → OperationValues → ℕ
op_field operation v =
    if bytes_eq operation (codes "read")
    then v.read
    else if bytes_eq operation (codes "write")
    then v.write
    else 0

read_not_write :
    (operation : Bytes)
    → bytes_eq operation (codes "read") ≡ true
    → bytes_eq operation (codes "write") ≡ false
unfolding bytes_eq
read_not_write operation e =
    subst (λ o. bytes_eq o (codes "write") ≡ false)
      (sym ((bytes_eq_iff operation (codes "read")).0 e)) refl

rw_of-set_operation :
    (operation : Bytes) (value : ℕ) (v : OperationValues)
    → rw_of (set_operation operation value v) + op_field operation v
      ≡ rw_of v + read_or_write operation value
rw_of-set_operation operation value v =
    rw (set_operation-fields operation value v) (ground (arith, read_not_write operation))

op_field-set_operation :
    (operation other : Bytes) (value : ℕ) (v : OperationValues)
    → bytes_eq operation other ≡ false
    → op_field other (set_operation operation value v) ≡ op_field other v
op_field-set_operation operation other value v h =
    rw (set_operation-fields operation value v) (elim (Bool-cases (bytes_eq other (codes "read"))) [
      | inl e ↦ rw (e, differs (codes "read") e) refl
      | inr e ↦ elim (Bool-cases (bytes_eq other (codes "write"))) [
        | inl e' ↦ rw (e, e', differs (codes "write") e') refl
        | inr e' ↦ rw (e, e') refl
      ]
    ])
  where
    differs : (name : Bytes) → bytes_eq other name ≡ true → bytes_eq operation name ≡ false
    differs name e = subst (λ o. bytes_eq operation o ≡ false) ((bytes_eq_iff other name).0 e) h

abbrev Unread : List (DeviceId × OperationValues) → BlkioValue → Type 0
Unread m bv = op_field bv.operation (values_or_none (lookup bv.device_id m)) ≡ 0

abbrev after_entry :
    BlkioValue → List (DeviceId × OperationValues) → List (DeviceId × OperationValues)
after_entry bv m = insert bv.device_id (with_entry bv (lookup bv.device_id m)) m

Unread-after_entry :
    (bv other : BlkioValue) (m : List (DeviceId × OperationValues))
    → (bv.device_id == other.device_id && bytes_eq bv.operation other.operation) ≡ false
    → Unread m other
    → Unread (after_entry bv m) other
Unread-after_entry bv other m h u =
    let look =
      lookup-insert bv.device_id other.device_id (with_entry bv (lookup bv.device_id m)) m in
    elim (Bool-cases (bv.device_id == other.device_id)) [
      | inl e ↦
          rw (look, e)
            (op_field-set_operation bv.operation other.operation bv.value
                (values_or_none (lookup bv.device_id m)) (rw e at h)
              ∙ ap (λ d. op_field other.operation (values_or_none (lookup d m)))
                  ((device_eq_iff bv.device_id other.device_id).0 e)
              ∙ u)
      | inr e ↦ rw (look, e) u
    ]

All-Unread :
    (bv : BlkioValue) (values : List BlkioValue) (m : List (DeviceId × OperationValues))
    → repeats bv values ≡ false
    → All (Unread m) values
    → All (Unread (after_entry bv m)) values
All-Unread bv [] m h u = tt
All-Unread bv (other ∷ values) m h (u, us) =
    elim (Bool-cases (bv.device_id == other.device_id && bytes_eq bv.operation other.operation)) [
      | inl e ↦ ground arith
      | inr e ↦ (Unread-after_entry bv other m e u, All-Unread bv values m (rw e at h) us)
    ]

value_at-rw_of : (o : Option OperationValues) → value_at rw_of o ≡ rw_of (values_or_none o)
value_at-rw_of none = refl
value_at-rw_of (some v) = refl

sum_by-collect_from :
    (values : List BlkioValue) (m : List (DeviceId × OperationValues))
    → AreDistinct values
    → All (Unread m) values
    → sum_by rw_of (collect_from values m) ≡ sum_by rw_of m + sum_read_write values
unfolding collect_from
sum_by-collect_from [] m h u = omega arith
sum_by-collect_from (bv ∷ values) m (h, t) (u, us) =
    let old = lookup bv.device_id m in
    omega (
      arith,
      sum_by-collect_from values (after_entry bv m) t (All-Unread bv values m h us),
      sum_by-insert rw_of bv.device_id (with_entry bv old) m,
      value_at-rw_of old,
      rw_of-set_operation bv.operation bv.value (values_or_none old),
      u,
    )

All-Unread_nil : (values : List BlkioValue) → All (Unread []) values
unfolding lookup
All-Unread_nil [] = tt
All-Unread_nil (bv ∷ values) = (ground arith, All-Unread_nil values)

pub sum_by-collect_op_values :
    (values : List BlkioValue)
    → AreDistinct values
    → sum_by rw_of (collect_op_values values) ≡ sum_read_write values
unfolding collect_op_values
sum_by-collect_op_values values h =
    omega (arith, sum_by-collect_from values [] h (All-Unread_nil values))

collect_from-HasDistinctKeys :
    (values : List BlkioValue) (m : List (DeviceId × OperationValues))
    → HasDistinctKeys m
    → HasDistinctKeys (collect_from values m)
unfolding collect_from
collect_from-HasDistinctKeys [] m h = h
collect_from-HasDistinctKeys (bv ∷ values) m h =
    collect_from-HasDistinctKeys values (after_entry bv m)
      (insert-HasDistinctKeys bv.device_id (with_entry bv (lookup bv.device_id m)) m h)

pub collect_op_values-HasDistinctKeys :
    (values : List BlkioValue) → HasDistinctKeys (collect_op_values values)
unfolding collect_op_values
collect_op_values-HasDistinctKeys values = collect_from-HasDistinctKeys values [] tt
