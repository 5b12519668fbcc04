-- ===== src/Network.antt =====
-- metric/system/network/helpers.go: the network counters of a process, combined and filtered.
pub mod Laws
use elastic_agent_system_met.Base.{
  ℕ, Bool, true, false, ◌||◌, List, [], ◌∷◌, if◌then◌else◌, Bytes, codes, ◌==◌, bytes_comparable,
  Option, none, some,
}
use elastic_agent_system_met.Base.Int.{ℤ, signed64}
use elastic_agent_system_met.Go.Maps.{lookup, insert}

abbrev pub Counters : Type 0
Counters = List (Bytes × ℕ)

-- The fields that the code reads of `NetworkCountersInfo`, of github.com/elastic/go-sysinfo.
pub record NetworkCountersInfo : Type 0 where
  pub ip_ext : Counters
  pub tcp_ext : Counters
  pub ip : Counters
  pub tcp : Counters
  pub udp : Counters
  pub udp_lite : Counters
  pub icmp_msg : Counters
  pub icmp : Counters

-- A value of the event: `uint64`, or `int64` for the one signed counter.
pub data Reported : Type 0 where
  unsigned : ℕ → Reported
  signed : ℤ → Reported

unfoldable pub check_max_conn : Bytes → ℕ → Reported
check_max_conn in_key value =
    if in_key == codes "MaxConn" then signed (signed64 value) else unsigned value

-- `for k, v := range m { compMap[k] = checkMaxConn(k, v) }`
unfoldable pub add_all : Counters → List (Bytes × Reported) → List (Bytes × Reported)
add_all [] comp_map = comp_map
add_all ((k, v) ∷ m) comp_map = add_all m (insert k (check_max_conn k v) comp_map)

unfoldable pub add_found : Bytes → Option ℕ → List (Bytes × Reported) → List (Bytes × Reported)
add_found key none comp_map = comp_map
add_found key (some value) comp_map = insert key (check_max_conn key value) comp_map

-- The loop over the keys of the filter.
unfoldable pub add_filtered :
    Counters → Counters → List Bytes → List (Bytes × Reported) → List (Bytes × Reported)
add_filtered map1 map2 [] comp_map = comp_map
add_filtered map1 map2 (key ∷ keys) comp_map =
    add_filtered map1 map2 keys
      (add_found key (lookup key map2) (add_found key (lookup key map1) comp_map))

-- `len(filter) == 0 || filter[0] == "all"`
abbrev pub takes_all : List Bytes → Bool
takes_all [] = true
takes_all (first ∷ keys) = first == codes "all"

unfoldable pub combine_map : Counters → Counters → List Bytes → List (Bytes × Reported)
combine_map map1 map2 filter =
    if takes_all filter then add_all map2 (add_all map1 []) else add_filtered map1 map2 filter []

pub record Event : Type 0 where
  pub ip : List (Bytes × Reported)
  pub tcp : List (Bytes × Reported)
  pub udp : Counters
  pub udp_lite : Counters
  pub icmp : List (Bytes × Reported)

unfoldable pub create_map : NetworkCountersInfo → List Bytes → Event
create_map raw filter = record {
  ip = combine_map raw.ip_ext raw.ip filter;
  tcp = combine_map raw.tcp_ext raw.tcp filter;
  udp = raw.udp;
  udp_lite = raw.udp_lite;
  icmp = combine_map raw.icmp_msg raw.icmp filter;
}

unfoldable pub map_proc_net_counters_with_filter : NetworkCountersInfo → List Bytes → Event
unfolding create_map
map_proc_net_counters_with_filter raw filter = create_map raw filter

unfoldable pub map_proc_net_counters : NetworkCountersInfo → Event
unfolding create_map
map_proc_net_counters raw = create_map raw (codes "all" ∷ [])
