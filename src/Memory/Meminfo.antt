-- ===== src/Memory/Meminfo.antt =====
-- memory_helpers.go: the table of /proc/meminfo. `bufio.Reader.ReadLine` cuts a line of more than
-- 4096 bytes into pieces; the lines of the file are taken to be shorter.
use elastic_agent_system_met.Base.{
  ℕ, List, [], ◌∷◌, if◌then◌else◌, Bytes, codes, get_elem?, Option, none, some, Error, Result, ok,
  index, ◌>>=◌, wrap_err, ◌==◌, bytes_comparable,
}
use elastic_agent_system_met.Base.Int.{mul64}
use elastic_agent_system_met.Go.Strings.{split, fields}
use elastic_agent_system_met.Go.Numbers.{parse_uint}
use elastic_agent_system_met.Go.Maps.{insert}
use elastic_agent_system_met.Go.Files.{Files, read_file, read_lines}
use elastic_agent_system_met.Resolve.{Resolver}

-- `if len(valueUnit) > 1 && valueUnit[1] == "kB"`
unfoldable pub scale : List Bytes → ℕ → ℕ
scale (v ∷ u ∷ us) value = if u == codes "kB" then mul64 value 1024 else value
scale _ value = value

unfoldable pub store : List (Bytes × ℕ) → Bytes → List Bytes → ℕ × Option Error → List (Bytes × ℕ)
store table key value_unit (value, some e) = table
store table key value_unit (value, none) = insert key (scale value_unit value) table

-- The value's words: the first is indexed before any test.
unfoldable pub read_value : List (Bytes × ℕ) → Bytes → List Bytes → Result (List (Bytes × ℕ))
read_value table key value_unit = do
  number ← index (get_elem? value_unit 0)
  ok (store table key value_unit (parse_uint number))

-- The handler of one line, on its parts at the colons.
unfoldable pub read_parts : List (Bytes × ℕ) → List Bytes → Result (List (Bytes × ℕ))
read_parts table (key ∷ value ∷ []) = read_value table key (fields value)
read_parts table _ = ok table

unfoldable pub read_line : List (Bytes × ℕ) → Bytes → Result (List (Bytes × ℕ))
read_line table line = read_parts table (split b':' line)

unfoldable pub read_table : List (Bytes × ℕ) → List Bytes → Result (List (Bytes × ℕ))
read_table table [] = ok table
read_table table (line ∷ lines) = do next ← read_line table line; read_table next lines

-- `ParseMeminfo`
unfoldable pub parse_meminfo : Files → Resolver → Result (List (Bytes × ℕ))
parse_meminfo fs rootfs = do
  contents ←
      wrap_err "error reading file" (read_file fs (rootfs.resolve_host_fs (codes "/proc/meminfo")))
  read_table [] (read_lines contents)
