-- ===== src/Tests/Network.antt =====
-- The network counters of a process.
use elastic_agent_system_met.Base.{[], ◌∷◌, codes, bytes_eq, bytes_comparable}
use elastic_agent_system_met.Go.Maps.{lookup}
use elastic_agent_system_met.Network.{Counters}

open_network : Unit {0}
unfolding lookup bytes_eq
open_network = tt

abbrev ip_ext : Counters
ip_ext = (codes "InOctets", 5) ∷ (codes "Shared", 1) ∷ []

abbrev ip : Counters
ip = (codes "Shared", 2) ∷ (codes "MaxConn", 18_446_744_073_709_551_615) ∷ []
