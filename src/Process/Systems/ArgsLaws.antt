-- ===== src/Process/Systems/ArgsLaws.antt =====
-- Reading back the buffer of the arguments and the environment of a process on Darwin.
use elastic_agent_system_met.Base.{
  ℕ, zero, suc, ◌/◌, ◌%◌, ◌^◌, ◌<◌, Bool, true, false, List, [], ◌∷◌, ◌++◌, ◌≡◌, refl, ◌∙◌, ap,
  if◌then◌else◌, Bytes, bytes_comparable, ◌==◌, length, take, drop, Option, none, some, ok, All,
  arith, String, nat_eq,
}
use mathlib.Core.List.{append_assoc}
use elastic_agent_system_met.Base.Int.{pos}
use elastic_agent_system_met.Go.Strings.Laws.{Free, Free-append, split_n2-append}
use elastic_agent_system_met.Go.Maps.{lookup, insert, lookup-insert}
use elastic_agent_system_met.Process.Systems.Args.{
  Vars, read_bytes, read_lines, int32, read_argc, skip_nuls, set_var, read_env, proc_args,
}

-- Each text with a zero byte behind it.
abbrev pub terminated : List Bytes → Bytes
terminated [] = []
terminated (line ∷ lines) = line ++ (0 ∷ terminated lines)

abbrev pub zeros : ℕ → Bytes
zeros zero = []
zeros (suc n) = 0 ∷ zeros n

-- A number in four bytes, the lowest first.
abbrev pub le32 : ℕ → Bytes → Bytes
le32 n rest = n % 256 ∷ n / 256 % 256 ∷ n / 65536 % 256 ∷ n / 16777216 % 256 ∷ rest

abbrev pub var_lines : Vars → List Bytes
var_lines [] = []
var_lines ((key, value) ∷ vars) = (key ++ (b'=' ∷ value)) ∷ var_lines vars

abbrev pub IsVar : Bytes × Bytes → Type 0
IsVar (key, value) = Free b'=' key × (Free 0 key × Free 0 value)

-- The end of the environment: that of the buffer, or an empty text.
pub data Ends : Bytes → Type 0 where
  at_end : Ends []
  at_empty : (rest : Bytes) → Ends (0 ∷ rest)

read_bytes-append : (s rest : Bytes) → Free 0 s → read_bytes (s ++ (0 ∷ rest)) ≡ some (s, rest)
unfolding read_bytes
read_bytes-append [] rest h = refl
read_bytes-append (c ∷ cs) rest (h, t) = rw (h, read_bytes-append cs rest t) refl

read_lines-append : (s rest : Bytes) → Free 0 s → read_lines (s ++ (0 ∷ rest)) ≡ s ∷ read_lines rest
unfolding read_lines
read_lines-append [] rest h = refl
read_lines-append (c ∷ cs) rest (h, t) = rw (h, read_lines-append cs rest t) refl

read_lines-terminated :
    (ls : List Bytes) (rest : Bytes)
    → All (Free 0) ls
    → read_lines (terminated ls ++ rest) ≡ ls ++ read_lines rest
read_lines-terminated [] rest h = refl
read_lines-terminated (l ∷ ls) rest (h, t) =
    ap (λ s. read_lines s) (append_assoc l (0 ∷ terminated ls) rest)
    ∙ (read_lines-append l (terminated ls ++ rest) h
        ∙ ap (λ r. l ∷ r) (read_lines-terminated ls rest t))

skip_nuls-zeros :
    (n c : ℕ) (rest : Bytes)
    → nat_eq c 0 ≡ false
    → skip_nuls (zeros n ++ (c ∷ rest)) ≡ ok (c ∷ rest)
unfolding skip_nuls
skip_nuls-zeros zero c rest h = rw h refl
skip_nuls-zeros (suc n) c rest h = skip_nuls-zeros n c rest h

read_argc-le32 : (n : ℕ) (rest : Bytes) → n < 2 ^ 31 → read_argc (le32 n rest) ≡ (pos n, rest)
unfolding read_argc int32
read_argc-le32 n rest h = ground arith

take-append : (xs ys : List Bytes) → take (length xs) (xs ++ ys) ≡ xs
take-append [] [] = refl
take-append [] (y ∷ ys) = refl
take-append (x ∷ xs) ys = ap (λ r. x ∷ r) (take-append xs ys)

drop-append : (xs ys : List Bytes) → drop (length xs) (xs ++ ys) ≡ ys
drop-append [] ys = refl
drop-append (x ∷ xs) ys = drop-append xs ys

Free-var_lines : (vars : Vars) → All IsVar vars → All (Free 0) (var_lines vars)
Free-var_lines [] h = tt
Free-var_lines ((key, value) ∷ vars) ((_, (k, v)), t) =
    (Free-append 0 key (b'=' ∷ value) k (refl, v), Free-var_lines vars t)

module _ (filter : Bytes → Bool) where
  -- The variables that the filter takes, stored one after the other.
  abbrev pub stored : Vars → Vars → Vars
  stored vars [] = vars
  stored vars ((key, value) ∷ more) =
      stored (if filter key then insert key value vars else vars) more

  -- The value of the last variable of a name, if the filter takes it.
  abbrev pub last_var : Bytes → Vars → Option Bytes → Option Bytes
  last_var wanted [] found = found
  last_var wanted ((key, value) ∷ more) found =
      last_var wanted more
        (if filter key then (if key == wanted then some value else found) else found)

  lookup-stored :
      (wanted : Bytes) (vars more : Vars)
      → lookup wanted (stored vars more) ≡ last_var wanted more (lookup wanted vars)
  lookup-stored wanted vars [] = refl
  lookup-stored wanted vars ((key, value) ∷ more) =
      lookup-stored wanted (if filter key then insert key value vars else vars) more
      ∙ ap (λ r. last_var wanted more r) (one (filter key))
    where
      one :
          (b : Bool)
          → lookup wanted (if b then insert key value vars else vars) ≡ (
              if b
              then (if key == wanted then some value else lookup wanted vars)
              else lookup wanted vars)
      one true = lookup-insert key wanted value vars
      one false = refl

  read_env-end :
      (fault : String) (vars : Vars) (tail : Bytes)
      → Ends tail
      → read_env fault filter vars (read_lines tail) ≡ ok vars
  unfolding read_env read_lines
  read_env-end fault vars _ at_end = refl
  read_env-end fault vars _ (at_empty rest) = refl

  read_env-var_lines :
      (fault : String) (vars more : Vars) (tail : Bytes)
      → All IsVar more
      → Ends tail
      → read_env fault filter vars (var_lines more ++ read_lines tail) ≡ ok (stored vars more)
  unfolding read_env set_var
  read_env-var_lines fault vars [] tail h e = read_env-end fault vars tail e
  read_env-var_lines fault vars (([], value) ∷ more) tail ((k, _), t) e =
      rw (split_n2-append b'=' [] value k)
        (read_env-var_lines fault (if filter [] then insert [] value vars else vars) more tail t e)
  read_env-var_lines fault vars ((c ∷ cs, value) ∷ more) tail ((k, _), t) e =
      rw (split_n2-append b'=' (c ∷ cs) value k) (
        read_env-var_lines fault (if filter (c ∷ cs) then insert (c ∷ cs) value vars else vars) more
          tail t e)

  -- What the system writes for a process: the count of its arguments, the executable with some
  -- padding, the arguments, the environment, and what is behind.
  abbrev pub args_buffer : Bytes → ℕ → List Bytes → Vars → Bytes → Bytes
  args_buffer exe padding args env tail =
      le32 (length args)
        (exe ++ (0 ∷ (zeros padding ++ (terminated args ++ (terminated (var_lines env) ++ tail)))))

  read_lines-texts :
      (args : List Bytes) (env : Vars) (tail : Bytes)
      → All (Free 0) args
      → All IsVar env
      → read_lines (terminated args ++ (terminated (var_lines env) ++ tail))
        ≡ args ++ (var_lines env ++ read_lines tail)
  read_lines-texts args env tail a v =
      read_lines-terminated args (terminated (var_lines env) ++ tail) a
      ∙ ap (λ r. args ++ r) (read_lines-terminated (var_lines env) tail (Free-var_lines env v))

  -- The buffer that Darwin gives for a process is read back: the count of the arguments, below
  -- 2 ^ 31, the executable, any number of zero bytes, the arguments, the variables, and the end of the
  -- buffer or an empty text. The environment has for each name that the filter takes the value of its
  -- last variable, and no other name. No text has a zero byte, no name has `=`, and the first
  -- argument is not empty.
  pub proc_args-args_buffer :
      (exe : Bytes) (padding c : ℕ) (cs : Bytes) (args : List Bytes) (env : Vars) (tail : Bytes)
      → Free 0 exe
      → All (Free 0) ((c ∷ cs) ∷ args)
      → All IsVar env
      → Ends tail
      → suc (length args) < 2 ^ 31
      → (proc_args (args_buffer exe padding ((c ∷ cs) ∷ args) env tail) filter
          ≡ ok ((c ∷ cs) ∷ args, (exe, stored [] env)))
        × ((key : Bytes) → lookup key (stored [] env) ≡ last_var key env none)
  unfolding proc_args lookup
  proc_args-args_buffer exe padding c cs args env tail x ((h, a), rest) v e n = (
    rw
        (
          read_argc-le32 (suc (length args))
              (exe
                ++ (0
                    ∷ (zeros padding
                        ++ (terminated ((c ∷ cs) ∷ args) ++ (terminated (var_lines env) ++ tail)))))
              n,
          read_bytes-append exe
              (zeros padding
                ++ (terminated ((c ∷ cs) ∷ args) ++ (terminated (var_lines env) ++ tail)))
              x,
          skip_nuls-zeros padding c
              ((cs ++ (0 ∷ terminated args)) ++ (terminated (var_lines env) ++ tail)) h,
          read_lines-texts ((c ∷ cs) ∷ args) env tail ((h, a), rest) v,
          take-append ((c ∷ cs) ∷ args) (var_lines env ++ read_lines tail),
          drop-append ((c ∷ cs) ∷ args) (var_lines env ++ read_lines tail),
          read_env-var_lines "error reading process information from KERN_PROCARGS2" [] env tail v
              e,
        )
        refl,
    λ key. lookup-stored key [] env,
  )
