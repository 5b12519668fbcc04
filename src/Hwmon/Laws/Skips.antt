-- ===== src/Hwmon/Laws/Skips.antt =====
-- Fetching the sensors of a device: what ends the report of the device.
use elastic_agent_system_met.Base.{
  ℕ, ◌+◌, ◌-◌, ◌*◌, ◌^◌, String, nat_eq, Bool, ltb, Option, none, some, true, false, ◌≡◌, refl,
  List, [], ◌∷◌, if◌then◌else◌, Bytes, codes, bytes_comparable, Bool-cases, inl, inr, All, Error,
  is_not_exist, errors_is_no_metric, Result, ok, err, panic, ◌>>=◌, wrap_err,
}
use elastic_agent_system_met.Base.Int.{u64_mod, pos}
use elastic_agent_system_met.Go.Strings.{is_digit}
use elastic_agent_system_met.Go.Numbers
use elastic_agent_system_met.Go.Numbers.{parse_digits, signed, parse_int, atoi, checked}
use elastic_agent_system_met.Go.Maps.{insert}
use elastic_agent_system_met.Go.Paths.{join_path}
use elastic_agent_system_met.Go.Files.{Files, File, content, failed}
use elastic_agent_system_met.Libs.{Float64, Opt}
use elastic_agent_system_met.Hwmon.Types.{Sensor, SensorType, SensorMetrics, Device}
use elastic_agent_system_met.Hwmon.Laws.Reads.{IsRead, fetch_sensor-IsRead}
use elastic_agent_system_met.Hwmon.Sensors.{
  strip_of_file, string_strip, string_strip_int, get_value_for_sensor, label_or, input_or, is_temp,
  millicelsius_to_celsius, get_name, fetch_sensor, add_sensor, each_sensor, report_sensors,
  label_name, MonData,
}

-- The error of the call, if it has one, is `P`.
abbrev Fails : {A : Type 0} → (Error → Type 0) → Result A → Type 0
Fails P (ok a) = Unit
Fails P (err e) = P e
Fails P panic = Unit

abbrev IsOther : Error → Type 0
IsOther e = errors_is_no_metric e ≡ false

abbrev FaultIsOther : {A : Type 0} → A × Option Error → Type 0
FaultIsOther (a, none) = Unit
FaultIsOther (a, some e) = IsOther e

parse_digits-Other : (n : ℕ) (s : Bytes) → FaultIsOther (parse_digits n s)
unfolding parse_digits errors_is_no_metric
parse_digits-Other n [] = tt
parse_digits-Other n (c ∷ cs) =
    let next = n * 10 + (c - b'0') in
    elim (Bool-cases (is_digit c)) [
      | inl e ↦ elim (Bool-cases (ltb next u64_mod)) [
        | inl e' ↦ rw (e, e') (parse_digits-Other next cs)
        | inr e' ↦ rw (e, e') refl
      ]
      | inr e ↦ rw e refl
    ]

parse_uint-Other : (s : Bytes) → FaultIsOther (Numbers.parse_uint s)
unfolding Numbers.parse_uint errors_is_no_metric
parse_uint-Other [] = refl
parse_uint-Other (c ∷ cs) = parse_digits-Other 0 (c ∷ cs)

if-Other :
    {A : Type 0} (b : Bool) (x y : A × Option Error)
    → FaultIsOther x
    → FaultIsOther y
    → FaultIsOther (if b then x else y)
if-Other true x y h k = h
if-Other false x y h k = k

signed-Other :
    (minus : Bool) (p : ℕ × Option Error) → FaultIsOther p → FaultIsOther (signed minus p)
unfolding signed errors_is_no_metric
signed-Other minus (n, fault) h =
    if-Other _ (pos 0, fault) _ (same fault h)
      (if-Other minus _ _ (if-Other (ltb (2 ^ 63) n) _ _ refl tt)
        (if-Other (ltb n (2 ^ 63)) _ _ tt refl))
  where
    same : (fault : Option Error) → FaultIsOther (n, fault) → FaultIsOther (pos 0, fault)
    same none h = tt
    same (some e) h = h

parse_int-Other : (s : Bytes) → FaultIsOther (parse_int s)
unfolding parse_int errors_is_no_metric
parse_int-Other [] = refl
parse_int-Other (c ∷ cs) =
    let plus = signed false (Numbers.parse_uint cs) in
    let minus = signed true (Numbers.parse_uint cs) in
    let plain = signed false (Numbers.parse_uint (c ∷ cs)) in
    if-Other (nat_eq c b'+') plus (if nat_eq c b'-' then minus else plain)
      (signed-Other false (Numbers.parse_uint cs) (parse_uint-Other cs))
      (if-Other (nat_eq c b'-') minus plain
        (signed-Other true (Numbers.parse_uint cs) (parse_uint-Other cs))
        (signed-Other false (Numbers.parse_uint (c ∷ cs)) (parse_uint-Other (c ∷ cs))))

checked-Other : {A : Type 0} (p : A × Option Error) → FaultIsOther p → Fails IsOther (checked p)
checked-Other (a, none) h = tt
checked-Other (a, some e) h = h

Fails-wrap_err :
    {A : Type 0} (s : String) (r : Result A) → Fails IsOther r → Fails IsOther (wrap_err s r)
unfolding errors_is_no_metric
Fails-wrap_err s (ok a) h = tt
Fails-wrap_err s (err e) h = h
Fails-wrap_err s panic h = tt

Fails-bind :
    {A B : Type 0} (r : Result A) (g : A → Result B)
    → Fails IsOther r
    → ((a : A) → Fails IsOther (g a))
    → Fails IsOther (r >>= g)
Fails-bind (ok a) g h k = k a
Fails-bind (err e) g h k = h
Fails-bind panic g h k = tt

-- No file fails with this sentinel of the package itself.
abbrev pub HasNoMetricErrors : Files → Type 0
HasNoMetricErrors files =
    (p : Bytes) (e : Error) → files p ≡ failed e → errors_is_no_metric e ≡ false

module _ (files : Files) (plain : HasNoMetricErrors files) where
  string_strip-Other : (name path : Bytes) → Fails IsOther (string_strip files name path)
  unfolding string_strip
  string_strip-Other name path =
      let p = join_path (path ∷ name ∷ []) in of_file (files p) (λ e h. plain p e h)
    where
      of_file :
          (file : File)
          → ((e : Error) → file ≡ failed e → errors_is_no_metric e ≡ false)
          → Fails IsOther (strip_of_file file)
      of_file (content raw) h = unfold strip_of_file in tt
      of_file (failed e) h =
          unfold strip_of_file errors_is_no_metric in
          elim (Bool-cases (is_not_exist e)) [ inl k ↦ rw k (h e refl) | inr k ↦ rw k (h e refl) ]

  module _ (f : Float64) (o : Opt f) where
    string_strip_int-Other :
        (name path : Bytes) → Fails IsOther (string_strip_int f o files name path)
    unfolding string_strip_int atoi
    string_strip_int-Other name path =
        Fails-bind (string_strip files name path) _ (string_strip-Other name path) (λ raw.
          Fails-bind _ _
            (Fails-wrap_err "error converting value" _ (checked-Other _ (parse_int-Other raw)))
            (λ conv. tt))

    -- The error of the input is wrapped twice, so that the test for a missing file does not see it.
    input_or-Other :
        (name path : Bytes) (st : SensorType)
        → Fails IsOther (input_or (get_value_for_sensor f o files name path st))
    unfolding get_value_for_sensor
    input_or-Other name path st =
        wrapped (string_strip_int f o files name path) (string_strip_int-Other name path)
      where
        wrapped :
            (r : Result o.Uint)
            → Fails IsOther r
            → Fails IsOther (
                input_or (
                  wrap_err "error fetching int val" r
                  >>= (λ u. ok (if is_temp st then millicelsius_to_celsius f o u else u))))
        wrapped (ok u) h = tt
        wrapped (err e) h = unfold errors_is_no_metric in h
        wrapped panic h = tt

    label_or-Other :
        (s : Sensor) (r : Result Bytes) → Fails IsOther r → Fails IsOther (label_or s r)
    unfolding errors_is_no_metric
    label_or-Other s (ok label) h = tt
    label_or-Other s (err e) h = elim (Bool-cases (is_not_exist e)) [
      | inl k ↦ rw k tt
      | inr k ↦ rw k h
    ]
    label_or-Other s panic h = tt

    fetch_sensor-Other : (s : Sensor) (path : Bytes) → Fails IsOther (fetch_sensor f o files s path)
    unfolding fetch_sensor
    fetch_sensor-Other s path =
        Fails-bind (label_or s (string_strip files (get_name s (codes "label")) path)) _
          (label_or-Other s _ (string_strip-Other (get_name s (codes "label")) path))
          (λ label.
            Fails-bind
              (input_or
                (get_value_for_sensor f o files (get_name s (codes "input")) path s.dev_type))
              _ (input_or-Other (get_name s (codes "input")) path s.dev_type) (λ input. tt))

    add_sensor-ok :
        (r : Result (SensorMetrics f o)) (continue : MonData f o → Result (MonData f o))
        (metrics : MonData f o) {t : MonData f o}
        → Fails IsOther r
        → add_sensor f o r continue metrics ≡ ok t
        → (m : SensorMetrics f o) × (r ≡ ok m)
          × (continue (insert (label_name m.label) m metrics) ≡ ok t)
    add_sensor-ok (ok m) continue metrics h e = (m, refl, e)
    add_sensor-ok (err x) continue metrics h e = cc (rw h at e)
    add_sensor-ok panic continue metrics h e = cc

    each_sensor-All :
        (path : Bytes) (sensors : List Sensor) (metrics : MonData f o) {t : MonData f o}
        → each_sensor f o files path sensors metrics ≡ ok t
        → All (IsRead f o files path) sensors
    unfolding each_sensor
    each_sensor-All path [] metrics e = tt
    each_sensor-All path (s ∷ sensors) metrics e =
        let (m, e1, e2) =
          add_sensor-ok (fetch_sensor f o files s path) _ metrics (fetch_sensor-Other s path) e in
        (
          fetch_sensor-IsRead f o files s path e1,
          each_sensor-All path sensors (insert (label_name m.label) m metrics) e2,
        )

    -- The metrics of a device are reported only if the input file of every sensor of it exists and
    -- holds a number, and the sensor was fetched with that number as its value, a temperature in
    -- celsius divided by 1000: a sensor without an input file makes the report fail, and is not
    -- skipped. The files are assumed not to fail with the sentinel ErrNoMetric of this package.
    pub report_sensors-All :
        (dev : Device) {metrics : MonData f o}
        → report_sensors f o files dev ≡ ok metrics
        → All (IsRead f o files dev.abs_path) dev.sensors
    unfolding report_sensors
    report_sensors-All dev e = each_sensor-All dev.abs_path dev.sensors [] e
