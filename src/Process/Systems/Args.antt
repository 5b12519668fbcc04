-- ===== src/Process/Systems/Args.antt =====
-- process_darwin.go and process_aix.go: the arguments and the environment of a process, in a buffer
-- of texts that end with a zero byte. What the system writes to the buffer is a parameter.
use elastic_agent_system_met.Base.{
  String, ℕ, ◌+◌, ◌*◌, ◌-◌, ◌^◌, Bool, List, [], ◌∷◌, if◌then◌else◌, Bytes, bytes_comparable,
  nat_eq, ltb, Option, none, some, take, drop, Error, message, Result, ok, err, ◌>>=◌, wrap,
}
use elastic_agent_system_met.Base.Int.{ℤ, pos, negsuc, pos_part}
use elastic_agent_system_met.Go.Strings.{split_n2}
use elastic_agent_system_met.Go.Maps.{insert}

-- The variables of a `mapstr.M`.
abbrev pub Vars : Type 0
Vars = List (Bytes × Bytes)

-- `io.EOF`
abbrev pub eof : Error
eof = message "EOF"

-- The text that `ReadBytes(0)` reads, stripped of its zero byte, and what is left in the buffer;
-- none for io.EOF.
unfoldable pub read_bytes : Bytes → Option (Bytes × Bytes)
read_bytes [] = none
read_bytes (c ∷ cs) =
    let later = read_bytes cs in
    if nat_eq c 0
    then some ([], cs)
    else elim later [ none ↦ none | some (line, rest) ↦ some (c ∷ line, rest) ]

abbrev pub add_head : ℕ → List Bytes → List Bytes
add_head c [] = []
add_head c (line ∷ lines) = (c ∷ line) ∷ lines

-- All texts that `ReadBytes(0)` reads one after the other until io.EOF, each stripped of its zero.
unfoldable pub read_lines : Bytes → List Bytes
read_lines [] = []
read_lines (c ∷ cs) =
    let later = read_lines cs in if nat_eq c 0 then [] ∷ later else add_head c later

-- An `int32` of four bytes, the lowest first.
unfoldable pub int32 : ℕ → ℕ → ℕ → ℕ → ℤ
int32 a b c d =
    let n = a + 256 * (b + 256 * (c + 256 * d)) in
    if ltb n (2 ^ 31) then pos n else negsuc (2 ^ 32 - n - 1)

-- The count of the arguments. The error of a shorter buffer is ignored: the count is 0, and the
-- buffer is used up.
unfoldable pub read_argc : Bytes → ℤ × Bytes
read_argc (a ∷ b ∷ c ∷ d ∷ rest) = (int32 a b c d, rest)
read_argc _ = (pos 0, [])

unfoldable pub skip_nuls : Bytes → Result Bytes
skip_nuls [] = err (wrap "error skipping nul values in KERN_PROCARGS2 buffer" eof)
skip_nuls (c ∷ cs) = let later = skip_nuls cs in if nat_eq c 0 then later else ok (c ∷ cs)

-- A line of the environment that the filter takes is stored; one without `=` is an error.
unfoldable pub set_var : String → (Bytes → Bool) → Vars → List Bytes → Result Vars
set_var fault filter vars (key ∷ value ∷ []) =
    ok (if filter key then insert key value vars else vars)
set_var fault filter vars _ = err (message fault)

-- The loop over the environment: it ends at an empty text or at the end of the buffer.
unfoldable pub read_env : String → (Bytes → Bool) → Vars → List Bytes → Result Vars
read_env fault filter vars [] = ok vars
read_env fault filter vars ([] ∷ lines) = ok vars
read_env fault filter vars ((c ∷ cs) ∷ lines) = do
  next ← set_var fault filter vars (split_n2 b'=' (c ∷ cs))
  read_env fault filter next lines

-- `getProcArgs` of Darwin on the buffer of KERN_PROCARGS2: arguments, executable, environment.
unfoldable pub proc_args : Bytes → (Bytes → Bool) → Result (List Bytes × (Bytes × Vars))
proc_args buffer filter = do
  let (argc, behind) = read_argc buffer
  (exe, padded) ← elim (read_bytes behind) [
    | none ↦ err (wrap "error reading the executable name" eof)
    | some found ↦ ok found
  ]
  texts ← skip_nuls padded
  let lines = read_lines texts
  env ←
      read_env "error reading process information from KERN_PROCARGS2" filter []
        (drop (pos_part argc) lines)
  ok (take (pos_part argc) lines, (exe, env))

-- The loop of AIX over the arguments.
unfoldable pub until_empty : List Bytes → List Bytes
until_empty [] = []
until_empty ([] ∷ lines) = []
until_empty ((c ∷ cs) ∷ lines) = (c ∷ cs) ∷ until_empty lines
