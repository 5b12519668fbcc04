-- ===== src/Tests/Systems.antt =====
-- Other systems, at concrete buffers and figures.
use elastic_agent_system_met.Base.{
  true, [], ◌∷◌, ◌≡◌, refl, Bytes, bytes_comparable, codes, none, ok, arith,
}
use elastic_agent_system_met.Go.Maps.{lookup}
use elastic_agent_system_met.Process.Systems.Args.{Vars, proc_args}
use elastic_agent_system_met.Process.Systems.ArgsLaws.{
  at_empty, args_buffer, stored, last_var, proc_args-args_buffer,
}
use elastic_agent_system_met.Memory.Laws.Balance.{darwin, get_of, Balanced, get_of-Balanced}
use elastic_agent_system_met.Tests.Fixtures.{floats, opts, opt_laws}

-- HOME=/ and A=b=c
abbrev two_vars : Vars
two_vars = (b'H' ∷ [], b'/' ∷ []) ∷ (b'A' ∷ [], b'b' ∷ b'=' ∷ b'c' ∷ []) ∷ []

proc_args-args_buffer_example :
    (proc_args
        (args_buffer
          (λ k. true)
          (codes "sh")
          3
          ((b's' ∷ b'h' ∷ []) ∷ (b'-' ∷ []) ∷ [])
          two_vars
          (0 ∷ []))
        (λ k. true)
      ≡ ok ((b's' ∷ b'h' ∷ []) ∷ (b'-' ∷ []) ∷ [], (codes "sh", stored (λ k. true) [] two_vars)))
    × ((key : Bytes)
        → lookup key (stored (λ k. true) [] two_vars) ≡ last_var (λ k. true) key two_vars none)
proc_args-args_buffer_example =
    proc_args-args_buffer (λ k. true) (codes "sh") 3 b's' (b'h' ∷ []) ((b'-' ∷ []) ∷ []) two_vars
      (0 ∷ []) (refl, (refl, tt)) ((refl, (refl, tt)), ((refl, tt), tt))
      (
        ((refl, tt), ((refl, tt), (refl, tt))),
        (((refl, tt), ((refl, tt), (refl, (refl, (refl, tt))))), tt),
      )
      (at_empty []) (omega arith)

get_of-Balanced_example :
    Balanced floats opts opt_laws (get_of floats opts opt_laws (darwin 16384 1 2 (8, (5, 3))))
get_of-Balanced_example =
    get_of-Balanced floats opts opt_laws (darwin 16384 1 2 (8, (5, 3))) (omega arith)
