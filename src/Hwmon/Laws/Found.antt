-- ===== src/Hwmon/Laws/Found.antt =====
-- The sensors of a directory are those that its files name.
use elastic_agent_system_met.Base.{
  true, false, List, [], ◌∷◌, ◌≡◌, refl, sym, subst, ◌⊎◌, inl, inr, Bytes, ◌==◌, bytes_comparable,
  bytes_eq_iff, All, arith, Bool-cases, none, Option-cases, Result, ok, ◌>>=◌, wrap_err,
}
use elastic_agent_system_met.Base.Returns.{Returns, wrap_err-ok}
use elastic_agent_system_met.Go.Strings.{contains_byte}
use elastic_agent_system_met.Go.Numbers.{atoi}
use elastic_agent_system_met.Go.Maps.Ranges.{bind-ok}
use elastic_agent_system_met.Hwmon.Types.{Sensor}
use elastic_agent_system_met.Hwmon.Detect.{
  letters_of, number_of, prefix_of, has_element, get_sensor_type, with_sensor, find_from,
  sensor_files, find_sensors_in_path, Tree, DirEntry,
}
use elastic_agent_system_met.Hwmon.Laws.Prefixes.{Names, Names-prefix}

-- One of the elements has the property.
abbrev pub Any : {A : Type 0} → (A → Type 0) → List A → Type 0
Any P [] = ⊥
Any P (x ∷ xs) = P x ⊎ Any P xs

-- A name without a sensor type, or with a sensor in the list.
abbrev pub HasSensor : List Sensor → Bytes → Type 0
HasSensor sensors name = (get_sensor_type (letters_of name) ≡ none) ⊎ Any (Names name) sensors

abbrev Covered : List Bytes → List Sensor → Bytes → Type 0
Covered found sensors name = (has_element (prefix_of name) found ≡ true) ⊎ HasSensor sensors name

-- What the loop adds for a name that it does not skip.
with_sensor-ok :
    (name : Bytes) (skipped added : Result (List Sensor)) {sensors : List Sensor}
    → with_sensor (get_sensor_type (letters_of name)) (number_of name) skipped added ≡ ok sensors
    → ((get_sensor_type (letters_of name) ≡ none) × (skipped ≡ ok sensors))
      ⊎ ((s : Sensor) × (rest : List Sensor) × Names name s
          × (added ≡ ok rest)
          × (ok (s ∷ rest) ≡ ok sensors))
unfolding with_sensor
with_sensor-ok name skipped added {sensors} e =
    elim (Option-cases (get_sensor_type (letters_of name))) [
      | inl k ↦ inl (k, rw k at e)
      | inr (st, k) ↦
          let (num, e1, e2) =
            bind-ok (wrap_err "error parsing int" (atoi (number_of name)))
              (λ num. added >>= (λ rest. ok (record { dev_type = st; sensor_num = num } ∷ rest)))
              (rw k at e) in
          let (rest, e3, e4) =
            bind-ok added (λ rest. ok (record { dev_type = st; sensor_num = num } ∷ rest)) e2 in
          inr (
            record { dev_type = st; sensor_num = num },
            rest,
            record {
              of_type = k;
              of_number = wrap_err-ok "error parsing int" (atoi (number_of name)) e1;
            },
            e3,
            e4,
          )
    ]

All-Covered :
    (name : Bytes) (s : Sensor) (names found : List Bytes) (sensors : List Sensor)
    → Names name s
    → All (Covered (prefix_of name ∷ found) sensors) names
    → All (Covered found (s ∷ sensors)) names
All-Covered name s [] found sensors h k = tt
All-Covered name s (other ∷ names) found sensors h (k, ks) =
    (covered k, All-Covered name s names found sensors h ks)
  where
    covered : Covered (prefix_of name ∷ found) sensors other → Covered found (s ∷ sensors) other
    covered (inr (inl e)) = inr (inl e)
    covered (inr (inr n)) = inr (inr (inr n))
    covered (inl e) = elim (Bool-cases (prefix_of name == prefix_of other)) [
      | inl k ↦ inr (
          inr (
            inl (
              Names-prefix name other s ((bytes_eq_iff (prefix_of name) (prefix_of other)).0 k) h)))
      | inr k ↦ inl (unfold has_element in ground (arith, k, e))
    ]

find_from-Covered :
    (names found : List Bytes) {sensors : List Sensor}
    → find_from names found ≡ ok sensors
    → All (Covered found sensors) names
unfolding find_from
find_from-Covered [] found e = tt
find_from-Covered (name ∷ names) found e = elim (Bool-cases (has_element (prefix_of name) found)) [
  | inl k ↦ (inl k, find_from-Covered names found (rw k at e))
  | inr k ↦
      elim (with_sensor-ok name (find_from names found) (find_from names (prefix_of name ∷ found))
        (rw k at e)) [
          | inl (h, e1) ↦ (inr (inl h), find_from-Covered names found e1)
          | inr (s, rest, h, e1, e2) ↦
              subst (λ r. Returns (λ all. All (Covered found all) (name ∷ names)) r) e2
                (
                  inr (inr (inl h)),
                  All-Covered name s names found rest h
                      (find_from-Covered names (prefix_of name ∷ found) e1),
                )
        ]
]

-- Each sensor is that of a name with `P`, whose prefix is none of those before.
abbrev pub Picked : (Bytes → Type 0) → List Bytes → List Sensor → Type 0
Picked P before [] = Unit
Picked P before (s ∷ sensors) =
    (name : Bytes) × (P name
      × (Names name s
          × ((¬ Any (λ p. p ≡ prefix_of name) before)
              × Picked P (prefix_of name ∷ before) sensors)))

not_before :
    (x : Bytes) (found : List Bytes) → has_element x found ≡ false → ¬ Any (λ p. p ≡ x) found
unfolding has_element
not_before x [] e h = h
not_before x (y ∷ found) e (inl h) = ground (arith, e, (bytes_eq_iff y x).1 h)
not_before x (y ∷ found) e (inr h) = not_before x found (ground (arith, e)) h

find_from-Picked :
    (P : Bytes → Type 0) (names found : List Bytes) {sensors : List Sensor}
    → All P names
    → find_from names found ≡ ok sensors
    → Picked P found sensors
unfolding find_from
find_from-Picked P [] found h e = subst (λ r. Returns (λ all. Picked P found all) r) e tt
find_from-Picked P (name ∷ names) found {sensors} (h, t) e =
    elim (Bool-cases (has_element (prefix_of name) found)) [
      | inl k ↦ find_from-Picked P names found t (rw k at e)
      | inr k ↦
          elim (with_sensor-ok name (find_from names found)
            (find_from names (prefix_of name ∷ found)) (rw k at e)) [
              | inl (n, e1) ↦ find_from-Picked P names found t e1
              | inr (s, rest, n, e1, e2) ↦
                  subst (λ r. Returns (λ all. Picked P found all) r) e2
                    (
                      name,
                      (
                        h,
                        (
                          n,
                          (
                            not_before (prefix_of name) found k,
                            find_from-Picked P names (prefix_of name ∷ found) t e1,
                          ),
                        ),
                      ),
                    )
            ]
    ]

uncovered :
    (sensors : List Sensor) (names : List Bytes)
    → All (Covered [] sensors) names
    → All (HasSensor sensors) names
unfolding has_element
uncovered sensors [] h = tt
uncovered sensors (name ∷ names) (inr h, t) = (h, uncovered sensors names t)
uncovered sensors (name ∷ names) (inl h, t) = ground arith

-- A file that may belong to a sensor: no directory, and with an underscore in its name.
abbrev pub IsSensorFile : DirEntry → Type 0
IsSensorFile file = (file.is_dir ≡ false) × (contains_byte b'_' file.name ≡ true)

abbrev pub IsSensorFileOf : List DirEntry → Bytes → Type 0
IsSensorFileOf files name = Any (λ file. IsSensorFile file × (file.name ≡ name)) files

later_files :
    (file : DirEntry) (files : List DirEntry) (names : List Bytes)
    → All (IsSensorFileOf files) names
    → All (IsSensorFileOf (file ∷ files)) names
later_files file files [] h = tt
later_files file files (name ∷ names) (h, t) = (inr h, later_files file files names t)

sensor_files-IsSensorFileOf :
    (files : List DirEntry) → All (IsSensorFileOf files) (sensor_files files)
unfolding sensor_files
sensor_files-IsSensorFileOf [] = tt
sensor_files-IsSensorFileOf (file ∷ files) =
    let later = later_files file files _ (sensor_files-IsSensorFileOf files) in
    elim (Bool-cases file.is_dir) [
      | inl dir ↦ simp dir later
      | inr plain ↦ elim (Bool-cases (contains_byte b'_' file.name)) [
        | inl has ↦
            let kept : sensor_files (file ∷ files) ≡ file.name ∷ sensor_files files =
              simp (plain, has) in
            subst (All (IsSensorFileOf (file ∷ files))) (sym kept) (inl ((plain, has), refl), later)
        | inr lacks ↦ simp (plain, lacks) later
      ]
    ]

-- What holds of the names of all sensor files.
each_file :
    (Q : Bytes → Type 0) (files : List DirEntry)
    → All Q (sensor_files files)
    → All (λ file. IsSensorFile file → Q file.name) files
unfolding sensor_files
each_file Q [] h = tt
each_file Q (file ∷ files) h = elim (Bool-cases file.is_dir) [
  | inl dir ↦ (λ k. absurd (ground (arith, dir, k.0)), each_file Q files (rw dir at h))
  | inr plain ↦ elim (Bool-cases (contains_byte b'_' file.name)) [
    | inl has ↦
        let both : Q file.name × All Q (sensor_files files) = rw (plain, has) at h in
        (λ k. both.0, each_file Q files both.1)
    | inr lacks ↦
        (λ k. absurd (ground (arith, lacks, k.1)), each_file Q files (rw (plain, lacks) at h))
  ]
]

-- If the sensors of a directory are found without an error, then each file of it, that is no
-- directory and whose name has an underscore, has its sensor among them or has no known type, and
-- each sensor is that of such a file, whose letters and number are none of those of the sensors
-- before it.
pub find_sensors_in_path-Named :
    (t : Tree) (path : Bytes) {files : List DirEntry} {sensors : List Sensor}
    → t.read_dir path ≡ ok files
    → find_sensors_in_path t path ≡ ok sensors
    → All (λ file. IsSensorFile file → HasSensor sensors file.name) files
      × Picked (IsSensorFileOf files) [] sensors
unfolding find_sensors_in_path
find_sensors_in_path-Named t path {files} {sensors} h e =
    let found : find_from (sensor_files files) [] ≡ ok sensors = rw h at e in
    (
      each_file (HasSensor sensors) files (
          uncovered sensors (sensor_files files) (find_from-Covered (sensor_files files) [] found)),
      find_from-Picked (IsSensorFileOf files) (sensor_files files) []
          (sensor_files-IsSensorFileOf files) found,
    )
