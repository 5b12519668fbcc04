-- ===== src/Cgroup/Common.antt =====
-- metric/system/cgroup/cgcommon/util.go: numbers of the cgroup files.
use elastic_agent_system_met.Base.{
  ℕ, Bool, true, false, ◌&&◌, List, [], ◌∷◌, if◌then◌else◌, Bytes, Option, none, some, Error,
  out_of_range, invalid_format, is_not_exist, Result, ok, err, ◌>>=◌, wrap_err,
}
use elastic_agent_system_met.Base.Int.{ℤ, pos, negsuc}
use elastic_agent_system_met.Go.Strings.{fields, trim_space}
use elastic_agent_system_met.Go.Numbers
use elastic_agent_system_met.Go.Paths.{join_path}
use elastic_agent_system_met.Go.Files.{Files, File, content, failed}

abbrev pub is_negative : ℤ → Bool
is_negative (pos n) = false
is_negative (negsuc n) = true

-- No error, or one of range.
abbrev pub is_range_or_none : Option Error → Bool
is_range_or_none none = true
is_range_or_none (some out_of_range) = true
is_range_or_none (some e) = false

-- A negative value counts as 0.
unfoldable pub munge : ℤ × Option Error → Error → Result ℕ
munge (int_value, int_err) e =
    if is_range_or_none int_err && is_negative int_value then ok 0 else err e

unfoldable pub uint_or_munge : Bytes → ℕ × Option Error → Result ℕ
unfolding munge
uint_or_munge str_value (uint_value, none) = ok uint_value
uint_or_munge str_value (uint_value, some e) = munge (Numbers.parse_int str_value) e

unfoldable pub parse_uint : Bytes → Result ℕ
unfolding uint_or_munge
parse_uint value = uint_or_munge (trim_space value) (Numbers.parse_uint (trim_space value))

unfoldable pub parse_uint_of_file : File → Result ℕ
parse_uint_of_file (content value) = parse_uint value
parse_uint_of_file (failed e) = if is_not_exist e then ok 0 else err e

unfoldable pub parse_uint_from_file : Files → List Bytes → Result ℕ
unfolding parse_uint_of_file
parse_uint_from_file files path = parse_uint_of_file (files (join_path path))

unfoldable pub key_value : List Bytes → Result (Bytes × ℕ)
key_value (key ∷ text ∷ []) = do
  value ← wrap_err "unable to convert param value to uint64" (parse_uint text)
  ok (key, value)
key_value _ = err invalid_format

unfoldable pub parse_cgroup_param_key_value : Bytes → Result (Bytes × ℕ)
unfolding key_value
parse_cgroup_param_key_value t = key_value (fields t)

-- A loop over lines that reads each as a key and a value; the first bad line ends it.
unfoldable pub each_param : {A : Type 0} → (Bytes → ℕ → A → A) → List Bytes → A → Result A
each_param set [] data' = ok data'
each_param set (line ∷ lines) data' = do
  (key, value) ← parse_cgroup_param_key_value line
  each_param set lines (set key value data')
