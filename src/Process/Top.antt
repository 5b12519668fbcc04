-- ===== src/Process/Top.antt =====
-- process.go and helpers.go: the processes that are reported when only the top ones are asked for.
-- `sort_slice` is `sort.Slice`, whose order among equal elements is not specified.
use elastic_agent_system_met.Base.{
  ℕ, zero, suc, Bool, false, not, ◌||◌, ◌&&◌, if◌then◌else◌, List, [], ◌∷◌, ◌++◌, ltb, length, take,
}
use elastic_agent_system_met.Base.Int.{ℤ, pos, negsuc, int_eq}
use elastic_agent_system_met.Process.Types.{Deps, ProcState}

pub record IncludeTopConfig : Type 0 where
  pub enabled : Bool
  pub by_cpu : ℤ
  pub by_memory : ℤ

module _ (d : Deps) where
  unfoldable pub is_process_in_slice : List (ProcState d) → ProcState d → Bool
  is_process_in_slice [] proc = false
  is_process_in_slice (p ∷ processes) proc =
      d.i.comparable.same p.pid proc.pid || is_process_in_slice processes proc

  unfoldable pub more_cpu : ProcState d → ProcState d → Bool
  more_cpu p q =
      d.f.lt (d.o.float_value_or q.cpu.total.pct (d.f.of_uint 0))
        (d.o.float_value_or p.cpu.total.pct (d.f.of_uint 0))

  unfoldable pub more_memory : ProcState d → ProcState d → Bool
  more_memory p q = ltb (d.o.value_or q.memory.rss.bytes 0) (d.o.value_or p.memory.rss.bytes 0)

  -- `processes[:numProcs]`, where `numProcs` is at most the length.
  unfoldable pub first : ℕ → List (ProcState d) → List (ProcState d)
  first n processes =
      if ltb (length processes) n then take (length processes) processes else take n processes

  unfoldable pub add_new : List (ProcState d) → List (ProcState d) → List (ProcState d)
  add_new result [] = result
  add_new result (proc ∷ procs) =
      add_new (if is_process_in_slice result proc then result else result ++ (proc ∷ [])) procs

  module _
      (sort_slice : (ProcState d → ProcState d → Bool)
        → List (ProcState d)
        → List (ProcState d)) where
    -- The top processes by CPU, and the slice as the sort leaves it.
    unfoldable pub top_cpu : ℤ → List (ProcState d) → List (ProcState d) × List (ProcState d)
    top_cpu (pos zero) processes = ([], processes)
    top_cpu (pos (suc n)) processes =
        (first (suc n) (sort_slice more_cpu processes), sort_slice more_cpu processes)
    top_cpu (negsuc n) processes = ([], processes)

    unfoldable pub top_memory : ℤ → List (ProcState d) × List (ProcState d) → List (ProcState d)
    top_memory (pos zero) (result, processes) = result
    top_memory (pos (suc n)) (result, processes) =
        add_new result (first (suc n) (sort_slice more_memory processes))
    top_memory (negsuc n) (result, processes) = result

    unfoldable pub include_top_processes :
        IncludeTopConfig → List (ProcState d) → List (ProcState d)
    include_top_processes c processes =
        if not c.enabled || (int_eq c.by_cpu (pos 0) && int_eq c.by_memory (pos 0))
        then processes
        else top_memory c.by_memory (top_cpu c.by_cpu processes)
