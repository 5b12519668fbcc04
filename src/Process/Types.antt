-- ===== src/Process/Types.antt =====
-- process_types.go and process_common.go: the record of a process and its states. The statistics of
-- cgroups are behind the interface `CGStats`, a parameter here.
use elastic_agent_system_met.Base.{ℕ, Bool, ◌&&◌, List, [], ◌∷◌, Bytes, Option, none}
use elastic_agent_system_met.Base.Int.{ℤ}
use elastic_agent_system_met.Libs.{Float64, Opt}
use elastic_agent_system_met.Libs.Ints.{OptInt}
use elastic_agent_system_met.Network.{NetworkCountersInfo}

-- `no_state` is the empty string of a state that was never set.
pub data PidState : Type 0 where
  dead running sleeping idle disk_sleep stopped zombie wake_kill waking parked unknown : PidState
  no_state : PidState

abbrev pub pid_states : List (ℕ × PidState)
pid_states =
    (b'S', sleeping)
    ∷ (b'R', running)
    ∷ (b'D', disk_sleep)
    ∷ (b'I', idle)
    ∷ (b'T', stopped)
    ∷ (b'Z', zombie)
    ∷ (b'X', dead)
    ∷ (b'x', dead)
    ∷ (b'K', wake_kill)
    ∷ (b'W', waking)
    ∷ (b'P', parked)
    ∷ []

-- `mapstr.M` of environment variables, `none` for nil.
abbrev pub Env : Type 0
Env = Option (List (Bytes × Bytes))

-- What the code takes from elsewhere: floats, the optional values, and the interface `CGStats`
-- with its zero value nil.
pub record Deps : Type 1 where
  pub f : Float64
  pub o : Opt f
  pub i : OptInt
  pub CgStats : Type 0
  pub no_stats : CgStats
  pub fill_percentages : CgStats → CgStats → ℤ → ℤ → CgStats

module _ (d : Deps) where
  pub record CpuTotal : Type 0 where
    pub value : d.o.OptFloat
    pub ticks : d.o.Uint
    pub pct : d.o.OptFloat
    pub norm_pct : d.o.OptFloat

  pub record ProcCpuInfo : Type 0 where
    pub start_time : Bytes
    pub total : CpuTotal
    pub user_ticks : d.o.Uint
    pub system_ticks : d.o.Uint

  pub record MemBytePct : Type 0 where
    pub bytes : d.o.Uint
    pub pct : d.o.OptFloat

  pub record ProcMemInfo : Type 0 where
    pub size : d.o.Uint
    pub share : d.o.Uint
    pub rss : MemBytePct

  pub record ProcFdInfo : Type 0 where
    pub opened : d.o.Uint
    pub soft : d.o.Uint
    pub hard : d.o.Uint

  pub record ProcState : Type 0 where
    pub name : Bytes
    pub state : PidState
    pub username : Bytes
    pub pid : d.i.Int
    pub ppid : d.i.Int
    pub pgid : d.i.Int
    pub args : List Bytes
    pub cmdline : Bytes
    pub cwd : Bytes
    pub exe : Bytes
    pub env : Env
    pub memory : ProcMemInfo
    pub cpu : ProcCpuInfo
    pub fd : ProcFdInfo
    pub network : Option NetworkCountersInfo
    pub cgroup : d.CgStats
    pub sample_time : ℤ

  abbrev pub no_cpu_info : ProcCpuInfo
  no_cpu_info = record {
    start_time = [];
    total = record {
      value = d.o.float_none;
      ticks = d.o.uint_none;
      pct = d.o.float_none;
      norm_pct = d.o.float_none;
    };
    user_ticks = d.o.uint_none;
    system_ticks = d.o.uint_none;
  }

  abbrev pub no_mem_info : ProcMemInfo
  no_mem_info = record {
    size = d.o.uint_none;
    share = d.o.uint_none;
    rss = record { bytes = d.o.uint_none; pct = d.o.float_none };
  }

  abbrev pub no_fd_info : ProcFdInfo
  no_fd_info = record { opened = d.o.uint_none; soft = d.o.uint_none; hard = d.o.uint_none }

  -- `ProcState{}` with the name, the state and the ids that `GetInfoForPid` sets.
  abbrev pub with_ids : Bytes → PidState → d.i.Int → d.i.Int → d.i.Int → ProcState
  with_ids name state pid ppid pgid = record {
    name = name;
    state = state;
    username = [];
    pid = pid;
    ppid = ppid;
    pgid = pgid;
    args = [];
    cmdline = [];
    cwd = [];
    exe = [];
    env = none;
    memory = no_mem_info;
    cpu = no_cpu_info;
    fd = no_fd_info;
    network = none;
    cgroup = d.no_stats;
    sample_time = ℤ.pos 0;
  }

  unfoldable pub total_is_zero : CpuTotal → Bool
  total_is_zero t =
      d.o.float_is_zero t.value
      && (d.o.is_zero t.ticks && (d.o.float_is_zero t.pct && d.o.float_is_zero t.norm_pct))

  unfoldable pub fd_is_zero : ProcFdInfo → Bool
  fd_is_zero t = d.o.is_zero t.opened && (d.o.is_zero t.hard && d.o.is_zero t.soft)

  -- `ProcStateRootEvent`, its nested structs laid flat.
  pub record RootEvent : Type 0 where
    pub name : Bytes
    pub pid : d.i.Int
    pub parent_pid : d.i.Int
    pub pgid : d.i.Int
    pub user_name : Bytes
    pub cmdline : Bytes
    pub state : PidState
    pub start_time : Bytes
    pub cpu_pct : d.o.OptFloat
    pub memory_pct : d.o.OptFloat
    pub cwd : Bytes
    pub exe : Bytes
    pub args : List Bytes

  -- `FormatForRoot`: the root event, and the process without the fields that moved there.
  unfoldable pub format_for_root : ProcState → RootEvent × ProcState
  format_for_root p = (
    record {
      name = p.name;
      pid = p.pid;
      parent_pid = p.ppid;
      pgid = p.pgid;
      user_name = p.username;
      cmdline = p.cmdline;
      state = p.state;
      start_time = p.cpu.start_time;
      cpu_pct = p.cpu.total.norm_pct;
      memory_pct = p.memory.rss.pct;
      cwd = p.cwd;
      exe = p.exe;
      args = p.args;
    },
    record p {
      name = [];
      pid = d.i.int_none;
      ppid = d.i.int_none;
      pgid = d.i.int_none;
      username = [];
      cwd = [];
      exe = [];
      args = [];
    },
  )
