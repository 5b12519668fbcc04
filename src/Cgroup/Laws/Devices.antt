-- ===== src/Cgroup/Laws/Devices.antt =====
-- Device ids.
use elastic_agent_system_met.Base.{ℕ, ◌+◌, ◌*◌, ◌/◌, ◌%◌, ◌^◌, ◌<◌, ◌≡◌, arith}
use elastic_agent_system_met.Cgroup.Io.{major_of, minor_of}

-- The bits of a device id as `makedev` of the C library sets them: the low 12 bits of the major
-- number stand above the low 8 of the minor one, the other bits above those.
abbrev pub make_dev : ℕ → ℕ → ℕ
make_dev major minor =
    minor % 2 ^ 8 + (major % 2 ^ 12) * 2 ^ 8 + (minor / 2 ^ 8) * 2 ^ 20 + (major / 2 ^ 12) * 2 ^ 44

-- The numbers of a device are read back from the id that the C library makes of them, for numbers
-- of 32 bits.
pub device_numbers-make_dev :
    (major minor : ℕ)
    → major < 2 ^ 32
    → minor < 2 ^ 32
    → (major_of (make_dev major minor) ≡ major) × (minor_of (make_dev major minor) ≡ minor)
unfolding major_of minor_of
device_numbers-make_dev major minor h k = (omega arith, omega arith)
