-- ===== src/Network/Laws.antt =====
-- Which counters an event holds. A map is read in any order: the statements hold for every list
-- of its entries.
use elastic_agent_system_met.Base.{
  ℕ, Bool, false, ◌||◌, List, [], ◌∷◌, ◌≡◌, Option, none, some, Bytes, if◌then◌else◌, ◌==◌,
  bytes_comparable,
}
use elastic_agent_system_met.Go.Maps.{lookup}
use elastic_agent_system_met.Network.{Counters, Reported, check_max_conn, takes_all}

-- Each key stands once, as in a Go map.
abbrev pub IsMap : Counters → Type 0
IsMap [] = Unit
IsMap ((k, v) ∷ m) = (lookup k m ≡ none) × IsMap m

-- The value of a key that a map holds, or what was there before.
abbrev pub report : Bytes → Option ℕ → Option Reported → Option Reported
report k none before = before
report k (some v) before = some (check_max_conn k v)

abbrev pub listed : Bytes → List Bytes → Bool
listed k [] = false
listed k (key ∷ keys) = key == k || listed k keys

-- What an event holds under a key: the value of the second map, or that of the first, if the
-- filter takes the key.
abbrev pub wanted : Counters → Counters → List Bytes → Bytes → Option Reported
wanted map1 map2 filter k =
    if takes_all filter || listed k filter
    then report k (lookup k map2) (report k (lookup k map1) none)
    else none
