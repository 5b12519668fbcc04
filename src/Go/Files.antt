-- ===== src/Go/Files.antt =====
-- `os` and `bufio.Scanner`. The files are a parameter of the model: what a read of a path gives.
pub mod Lines
use elastic_agent_system_met.Base.{
  Bool, false, errors_is_not_exist, List, [], ◌∷◌, if◌then◌else◌, Bytes, length, ltb, nat_eq,
  Option, none, some, Error, message, Result, ok, err,
}
use elastic_agent_system_met.Go.Strings.{split}

pub data File : Type 0 where
  content : Bytes → File
  failed : Error → File

-- The host's files at the time of a call.
abbrev pub Files : Type 0
Files = Bytes → File

-- `os.ReadFile(path)`, or `os.Open(path)` with all that is read from it.
abbrev pub as_result : File → Result Bytes
as_result (content b) = ok b
as_result (failed e) = err e

abbrev pub read_file : Files → Bytes → Result Bytes
read_file fs path = as_result (fs path)

-- `errors.Is(err, os.ErrNotExist)` for what `os.Stat` returns.
abbrev pub is_missing : File → Bool
is_missing (content text) = false
is_missing (failed e) = errors_is_not_exist e

-- The line breaks end a line, so nothing follows the last one.
unfoldable pub drop_last_empty : List Bytes → List Bytes
drop_last_empty [] = []
drop_last_empty ([] ∷ []) = []
drop_last_empty (x ∷ xs) = x ∷ drop_last_empty xs

unfoldable pub drop_cr : Bytes → Bytes
drop_cr [] = []
drop_cr (c ∷ []) = if nat_eq c b'\r' then [] else c ∷ []
drop_cr (c ∷ d ∷ cs) = c ∷ drop_cr (d ∷ cs)

-- What `bufio.NewScanner` gives: the lines that `Scan` and `Text` deliver, and then `Err`.
pub record Scanned : Type 0 where
  pub lines : List Bytes
  pub fault : Option Error

-- A line of 64 KB or more stops the scanner (`bufio.MaxScanTokenSize`).
unfoldable pub scan_from : List Bytes → Scanned
scan_from [] = record { lines = []; fault = none }
scan_from (l ∷ ls) =
    let rest = scan_from ls in
    if ltb (length l) 65536
    then record { lines = drop_cr l ∷ rest.lines; fault = rest.fault }
    else record { lines = []; fault = some (message "bufio.Scanner: token too long") }

unfoldable pub scan : Bytes → Scanned
unfolding scan_from drop_last_empty drop_cr split
scan text = scan_from (drop_last_empty (split b'\n' text))

unfoldable pub map_drop_cr : List Bytes → List Bytes
map_drop_cr [] = []
map_drop_cr (l ∷ ls) = drop_cr l ∷ map_drop_cr ls

-- What the calls of `bufio.Reader.ReadLine` give up to the end of the file, for lines that fit its
-- buffer of 4096 bytes.
unfoldable pub read_lines : Bytes → List Bytes
unfolding map_drop_cr drop_last_empty drop_cr split
read_lines text = map_drop_cr (drop_last_empty (split b'\n' text))
