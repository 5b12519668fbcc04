-- ===== src/Tests/Numcpu.antt =====
-- The CPU lists of sysfs.
use elastic_agent_system_met.Base.{
  [], ◌∷◌, ◌≡◌, refl, codes, arith, true, false, ok, err, wrap, syntax, bytes_eq,
  errors_is_not_exist,
}
use elastic_agent_system_met.Base.Int.{pos, wrap64, ◌+ℤ◌, ◌-ℤ◌}
use elastic_agent_system_met.Go.Strings.{split, join, contains_byte}
use elastic_agent_system_met.Go.Numbers.{
  sscanf_range, scan_int, scan_sign, scan_signed, skip_space, take_digits, drop_digits, parse_int,
  parse_uint, signed,
}
use elastic_agent_system_met.Go.Numbers.Decimal.{Decimal}
use elastic_agent_system_met.Numcpu.{
  parse_cpu_range, count_parts, parse_cpu_list, num_cpu, get_cpu, cpu_path,
}
use elastic_agent_system_met.Numcpu.Lists.{one, range, nil, cons, parse_cpu_list-NamesAll}
use elastic_agent_system_met.Tests.Fixtures.{one_file}

open_list : Unit {0}
unfolding parse_cpu_list count_parts parse_cpu_range sscanf_range scan_int scan_sign scan_signed
    skip_space take_digits drop_digits parse_int signed parse_uint split contains_byte wrap64 ◌+ℤ◌
    ◌-ℤ◌
open_list = tt

parse_lists :
    (parse_cpu_list (codes "0-3,5\n") ≡ ok (pos 5))
    × (parse_cpu_list (codes "0\n") ≡ ok (pos 1))
    × (parse_cpu_list (codes "0-x")
        ≡ err (wrap "error parsing line" (wrap "error reading from range" syntax)))
unfolding open_list
parse_lists = (refl, refl, refl)

num_cpu_tests :
    (num_cpu false (one_file (codes "/sys/devices/system/cpu/online") (codes "0-7\n")) (pos 2)
      ≡ ok (pos 8))
    × (num_cpu true (one_file (codes "/sys/devices/system/cpu/online") (codes "0-7\n")) (pos 2)
        ≡ ok (pos 2))
unfolding open_list num_cpu get_cpu cpu_path bytes_eq errors_is_not_exist
num_cpu_tests = (refl, refl)

zero_digit : Decimal (codes "0") 0
zero_digit = record { ne_nil = cc; digits = (refl, tt); means = refl }

three : Decimal (codes "3") 3
three = record { ne_nil = cc; digits = (refl, tt); means = refl }

parse_cpu_list-NamesAll_example :
    parse_cpu_list (join (codes ",") (codes "0-3" ∷ codes "3\n" ∷ [])) ≡ ok (pos 5)
parse_cpu_list-NamesAll_example =
    parse_cpu_list-NamesAll (codes "0-3") (codes "3\n" ∷ []) 5
      (cons (range (codes "0") (codes "3") [] zero_digit three (omega arith) (omega arith) tt)
        (cons (one (codes "3") (codes "\n") three refl (refl, tt)) nil))
      ((refl, (refl, (refl, tt))), ((refl, (refl, tt)), tt)) (omega arith)
