-- ===== src/Numcpu/Systems.antt =====
-- cpu_bsd.go and cpu_windows.go: the count of CPUs on other systems.
use elastic_agent_system_met.Base.{ℕ, true, List, length, Result, ok, ◌>>=◌, wrap_err, Bool}
use elastic_agent_system_met.Base.Int.{ℤ, pos}

-- `getCPU` of the BSDs: the size of the value has to be known; the error of the call that reads the
-- value is not looked at, and `ncpu` is then what the call left.
unfoldable pub get_cpu_bsd : Result ℕ → ℤ → Result (ℤ × Bool)
get_cpu_bsd call_size ncpu = do size ← call_size; ok (ncpu, true)

-- `getCPU` of Windows, on the list of the processors.
unfoldable pub get_cpu_windows : {A : Type 0} → Result (List A) → Result (ℤ × Bool)
get_cpu_windows processors = do
  cpus ← wrap_err "syscall NtQuerySystemProcessorPerformanceInformation failed" processors
  ok (pos (length cpus), true)
