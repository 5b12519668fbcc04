-- ===== src/Cgroup/Pressure.antt =====
-- metric/system/cgroup/cgcommon/metrics.go: the pressure files of a cgroup.
use elastic_agent_system_met.Base.{
  Bool, List, [], ◌∷◌, if◌then◌else◌, Bytes, codes, bytes_comparable, nat_eq, is_empty, Option,
  none, some, Error, scan_error, wrap, Result, ok, err, panic, ◌>>=◌,
}
use elastic_agent_system_met.Go.Strings.{is_space}
use elastic_agent_system_met.Go.Numbers.{scan_uint, scan_byte, skip_space}
use elastic_agent_system_met.Go.Maps.{insert}
use elastic_agent_system_met.Go.Files.{Files, File, content, failed, scan}
use elastic_agent_system_met.Libs.{Float64, Opt}

-- The verb `%s`: a word, after spaces.
unfoldable pub take_word : Bytes → Bytes
take_word [] = []
take_word (c ∷ cs) = let rest = take_word cs in if is_space c then [] else c ∷ rest

unfoldable pub drop_word : Bytes → Bytes
drop_word [] = []
drop_word (c ∷ cs) = let rest = drop_word cs in if is_space c then c ∷ cs else rest

unfoldable pub scan_word : Bytes → Result (Bytes × Bytes)
unfolding take_word drop_word skip_space
scan_word s =
    let t = skip_space s in if is_empty t then err scan_error else ok (take_word t, drop_word t)

-- A space of the format: the text goes on with a space other than a line feed, or it ends.
unfoldable pub scan_spaces : Bytes → Result Bytes
unfolding skip_space
scan_spaces [] = ok []
scan_spaces (c ∷ cs) =
    if is_space c
    then (if nat_eq c b'\n' then err scan_error else ok (skip_space cs))
    else err scan_error

-- Bytes of the format that stand for themselves.
unfoldable pub scan_literal : Bytes → Bytes → Result Bytes
scan_literal [] s = ok s
scan_literal (c ∷ cs) s = do rest ← scan_byte c s; scan_literal cs rest

-- `scan_float` is the verb `%f` of `fmt.Sscanf`, with what follows the number.
module _ (f : Float64) (o : Opt f) (scan_float : Bytes → Result (f.Float × Bytes)) where
  pub record Pressure : Type 0 where
    pub ten : f.Float
    pub sixty : f.Float
    pub three_hundred : f.Float
    pub total : o.Uint

  unfoldable pub pressure_is_zero : Pressure → Bool
  pressure_is_zero p = o.is_zero p.total

  -- ` label=%f`
  unfoldable pub scan_labelled : Bytes → Bytes → Result (f.Float × Bytes)
  scan_labelled label s = do r1 ← scan_spaces s; r2 ← scan_literal label r1; scan_float r2

  -- The five verbs of the format; without an error all of them matched.
  unfoldable pub sscanf_pressure : Bytes → Result (Bytes × Pressure)
  unfolding scan_labelled scan_literal
  sscanf_pressure line = do
    (stall_time, r1) ← scan_word line
    (ten, r2) ← scan_labelled (codes "avg10=") r1
    (sixty, r3) ← scan_labelled (codes "avg60=") r2
    (three_hundred, r4) ← scan_labelled (codes "avg300=") r3
    r5 ← scan_spaces r4
    r6 ← scan_literal (codes "total=") r5
    (total, r7) ← scan_uint r6
    ok (
      stall_time,
      record { ten = ten; sixty = sixty; three_hundred = three_hundred; total = o.uint_with total },
    )

  abbrev pub Pressures : Type 0
  Pressures = List (Bytes × Pressure)

  -- The entry of a line, or the error that ends the loop.
  abbrev pub add_pressure :
      Result (Bytes × Pressure)
      → (Pressures → Pressures × Option Error)
      → Pressures
      → Pressures × Option Error
  add_pressure (ok (stall_time, data')) continue pressure_data =
      continue (insert stall_time data' pressure_data)
  add_pressure (err e) continue pressure_data = (pressure_data, some (wrap "error scanning file" e))
  add_pressure panic continue pressure_data = (pressure_data, some scan_error)

  unfoldable pub pressure_lines : List Bytes → Pressures → Pressures × Option Error
  pressure_lines [] pressure_data = (pressure_data, none)
  pressure_lines (line ∷ lines) pressure_data =
      add_pressure (sscanf_pressure line) (λ next. pressure_lines lines next) pressure_data

  unfoldable pub pressure_of_file : File → Pressures × Option Error
  pressure_of_file (failed e) = ([], some e)
  pressure_of_file (content text) = pressure_lines (scan text).lines []

  -- `GetPressure`: callers read the map beside an error too.
  unfoldable pub get_pressure : Files → Bytes → Pressures × Option Error
  unfolding pressure_of_file
  get_pressure files path = pressure_of_file (files path)
