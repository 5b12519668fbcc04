-- ===== src/Hwmon/Laws/Reads.antt =====
-- A sensor that is fetched without an error has an input file with a number.
use elastic_agent_system_met.Base.{
  ◌≡◌, refl, [], ◌∷◌, if◌then◌else◌, Bytes, codes, bytes_comparable, Bool-cases, inl, inr,
  is_not_exist, Result, ok, err, panic, ◌>>=◌, wrap_err, ap, sym, ◌∙◌,
}
use elastic_agent_system_met.Base.Returns.{wrap_err-ok}
use elastic_agent_system_met.Base.Int.{ℤ}
use elastic_agent_system_met.Go.Strings.{trim_space}
use elastic_agent_system_met.Go.Numbers.{atoi}
use elastic_agent_system_met.Go.Maps.Ranges.{bind-ok}
use elastic_agent_system_met.Go.Paths.{join_path}
use elastic_agent_system_met.Go.Files.{Files, File, content, failed}
use elastic_agent_system_met.Libs.{Float64, Opt}
use elastic_agent_system_met.Hwmon.Types.{Sensor, SensorMetrics}
use elastic_agent_system_met.Hwmon.Sensors.{
  strip_of_file, string_strip, string_strip_int, get_value_for_sensor, label_or, input_or, is_temp,
  millicelsius_to_celsius, get_name, fetch_sensor, to_uint64, special_metric,
}

-- The value of a sensor whose input file holds the number `n`.
abbrev pub value_of : (f : Float64) (o : Opt f) → Sensor → ℤ → o.Uint
value_of f o s n =
    let raw = o.uint_with (to_uint64 n) in
    if is_temp s.dev_type then millicelsius_to_celsius f o raw else raw

-- The input file of the sensor exists and holds a number, and the sensor was fetched with it.
abbrev pub IsRead : (f : Float64) (o : Opt f) → Files → Bytes → Sensor → Type 0
IsRead f o files path s =
    (text : Bytes) × (n : ℤ) × (m : SensorMetrics f o) × (files
        (join_path (path ∷ get_name s (codes "input") ∷ []))
      ≡ content text)
    × (atoi (trim_space text) ≡ ok n)
    × (fetch_sensor f o files s path ≡ ok m)
    × (m.value ≡ value_of f o s n)

strip_of_file-ok :
    (file : File) {line : Bytes}
    → strip_of_file file ≡ ok line
    → (text : Bytes) × (file ≡ content text) × (trim_space text ≡ line)
unfolding strip_of_file
strip_of_file-ok (content text) e = (text, refl, cc)
strip_of_file-ok (failed e) k = elim (Bool-cases (is_not_exist e)) [
  | inl h ↦ cc (rw h at k)
  | inr h ↦ cc (rw h at k)
]

input_or-ok : {A : Type 0} (r : Result A) {a : A} → input_or r ≡ ok a → r ≡ ok a
input_or-ok (ok a) h = h
input_or-ok (err e) h = elim (Bool-cases (is_not_exist e)) [
  | inl k ↦ cc (rw k at h)
  | inr k ↦ cc (rw k at h)
]
input_or-ok panic h = cc

module _ (f : Float64) (o : Opt f) (files : Files) where
  string_strip_int-ok :
      (name path : Bytes) {u : o.Uint}
      → string_strip_int f o files name path ≡ ok u
      → (text : Bytes) × (n : ℤ) × (files (join_path (path ∷ name ∷ [])) ≡ content text)
        × (atoi (trim_space text) ≡ ok n)
        × (o.uint_with (to_uint64 n) ≡ u)
  unfolding string_strip_int string_strip
  string_strip_int-ok name path e =
      let (raw, e1, e2) = bind-ok (strip_of_file (files (join_path (path ∷ name ∷ [])))) _ e in
      let (n, e3, e4) = bind-ok (wrap_err "error converting value" (atoi raw)) _ e2 in
      let (text, e5, e6) = strip_of_file-ok (files (join_path (path ∷ name ∷ []))) e1 in
      (text, n, e5, ap atoi e6 ∙ wrap_err-ok _ (atoi raw) e3, cc)

  -- What is known of the sensor beside its label and its input.
  sensor_of : Sensor → Bytes → Bytes → o.Uint → SensorMetrics f o
  sensor_of s path label input = record {
    label = label;
    sensor_type = s.dev_type;
    critical = special_metric f o files s path (codes "crit");
    max = special_metric f o files s path (codes "max");
    lowest = special_metric f o files s path (codes "lowest");
    average = special_metric f o files s path (codes "average");
    value = input;
  }

  input_of : Sensor → Bytes → Result o.Uint
  input_of s path = get_value_for_sensor f o files (get_name s (codes "input")) path s.dev_type

  value_read :
      (s : Sensor) (path : Bytes) {input : o.Uint}
      → input_of s path ≡ ok input
      → (text : Bytes) × (n : ℤ) × (files (join_path (path ∷ get_name s (codes "input") ∷ []))
          ≡ content text)
        × (atoi (trim_space text) ≡ ok n)
        × (input ≡ value_of f o s n)
  unfolding input_of get_value_for_sensor
  value_read s path {input} e =
      let name = get_name s (codes "input") in
      let (u, e1, e2) =
        bind-ok (wrap_err "error fetching int val" (string_strip_int f o files name path))
          (λ u. ok (if is_temp s.dev_type then millicelsius_to_celsius f o u else u)) e in
      let (text, n, e3, e4, e5) = string_strip_int-ok name path (wrap_err-ok _ _ e1) in
      let same : (if is_temp s.dev_type then millicelsius_to_celsius f o u else u) ≡ input = cc in
      let converted : o.Uint → o.Uint =
        λ u. if is_temp s.dev_type then millicelsius_to_celsius f o u else u in
      (text, n, e3, e4, sym same ∙ ap converted (sym e5))

  pub fetch_sensor-IsRead :
      (s : Sensor) (path : Bytes) {m : SensorMetrics f o}
      → fetch_sensor f o files s path ≡ ok m
      → IsRead f o files path s
  unfolding fetch_sensor input_of sensor_of
  fetch_sensor-IsRead s path {m} e =
      let (label, e1, e2) =
        bind-ok (label_or s (string_strip files (get_name s (codes "label")) path))
          (λ label. input_or (input_of s path) >>= (λ input. ok (sensor_of s path label input)))
          e in
      let (input, e3, e4) =
        bind-ok (input_or (input_of s path)) (λ input. ok (sensor_of s path label input)) e2 in
      let (text, n, e5, e6, e7) = value_read s path (input_or-ok (input_of s path) e3) in
      let same : sensor_of s path label input ≡ m = cc in
      (text, n, m, e5, e6, e, ap (λ m. m.value) (sym same) ∙ e7)
