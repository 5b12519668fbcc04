-- ===== src/Base/Outcome.antt =====
-- The outcome of a Go call: a value, an error, or a run-time panic such as an index out of range.
use Prim.Native.String.{String}
use Prim.Native.Nat.{ℕ}
use mathlib.Core.Bool.{Bool, true, false}
use mathlib.Core.Option.{Option, none, some}

-- Sentinel errors and those of the standard library; `wrap` is `fmt.Errorf("…: %w", err)`.
pub data Error : Type 0 where
  not_exist permission syntax out_of_range invalid_format scan_error : Error
  cgroups_missing proc_not_exist esrch no_metric : Error
  io_error : ℕ → Error
  message : String → Error
  wrap : String → Error → Error

pub data Result {ℓ} (A : Type ℓ) : Type ℓ where
  ok : A → Result A
  err : Error → Result A
  panic : Result A

-- `err == os.ErrNotExist`, as `os.IsNotExist` reads it: wrapped errors are not opened.
abbrev pub is_not_exist : Error → Bool
is_not_exist not_exist = true
is_not_exist _ = false

-- `errors.Is(err, target)` for the sentinels that the code asks about: wrapped errors are opened.
unfoldable pub errors_is_not_exist : Error → Bool
errors_is_not_exist not_exist = true
errors_is_not_exist (wrap s e) = errors_is_not_exist e
errors_is_not_exist _ = false

unfoldable pub errors_is_permission : Error → Bool
errors_is_permission permission = true
errors_is_permission (wrap s e) = errors_is_permission e
errors_is_permission _ = false

unfoldable pub errors_is_cgroups_missing : Error → Bool
errors_is_cgroups_missing cgroups_missing = true
errors_is_cgroups_missing (wrap s e) = errors_is_cgroups_missing e
errors_is_cgroups_missing _ = false

unfoldable pub errors_is_no_metric : Error → Bool
errors_is_no_metric no_metric = true
errors_is_no_metric (wrap s e) = errors_is_no_metric e
errors_is_no_metric _ = false

infixl 5 ◌>>=◌
abbrev pub ◌>>=◌ {ℓ κ} : {A : Type ℓ} {B : Type κ} → Result A → (A → Result B) → Result B
ok a >>= f = f a
err e >>= f = err e
panic >>= f = panic

-- `if err != nil { return fmt.Errorf("s: %w", err) }`
abbrev pub wrap_err {ℓ} : {A : Type ℓ} → String → Result A → Result A
wrap_err s (ok a) = ok a
wrap_err s (err e) = err (wrap s e)
wrap_err s panic = panic

-- An index expression: out of range is a panic.
abbrev pub index {ℓ} : {A : Type ℓ} → Option A → Result A
index none = panic
index (some a) = ok a
