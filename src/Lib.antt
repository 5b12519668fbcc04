-- ===== src/Lib.antt =====
-- elastic-agent-system-metrics collects CPU, memory, disk, network, process and cgroup metrics of a
-- host. On Linux, which is what most of this library models, the figures come from the files of /proc
-- and /sys. Each collector reads files by way of a resolver (metric/system/resolve/resolve.go), parses
-- them, compares the figures with those of an earlier sample where it keeps one, rounds shares
-- (metric/math.go) and hands out a record or an event.
--
-- Which file models what. Functions and fields keep their names, in snake case.
--   Base      shared names, tests on numbers and bytes, lists, results (a value, an error or a panic),
--             signed integers, 64-bit words, and what holds of a value that a call returns (Returns).
--   Go        the standard library as the code uses it: strings, slices, strconv, fmt.Sscanf (Numbers),
--             fmt.Fscan (Numbers.Prefixed: an int by the verb %v, with a prefix for its base), maps and
--             loops that range over them (Maps.Ranges), paths, and files with bufio.Scanner (Files.Lines).
--   Libs      what is a parameter: float64 and math, opt.Uint, opt.Float and opt.Int, mapstr.M.Put,
--             and the calls of the system that a loop makes (Calls).
--   Round, Resolve   metric/math.go and metric/system/resolve/resolve.go.
--   Numcpu    metric/system/numcpu: the list of CPUs that Linux keeps online.
--   Memory    metric/memory: /proc/meminfo (Meminfo), the figures made of it (Linux), Types.
--   Cpu       metric/cpu: /proc/stat (Stat), /proc/cpuinfo (Info), the Monitor with its last sample
--             (Sampling), events (Format).
--   Network   metric/system/network/helpers.go.
--   Diskio    metric/system/diskio, the Linux sampler.
--   Filesystem metric/system/filesystem: mounts and filters (Mounts), duplicates (Duplicates).
--   Process   metric/system/process: GetInfoForPid (Info), the other files of a process (Pid, Fill),
--             shares (Percent), the map of the last sample (Track), pidFill (Stats), FetchPids (Fetch),
--             Get, GetOne and GetSelf (Report), the top list (Top), Init and ListStates (Init).
--   Cgroup    metric/system/cgroup: numbers and parameters (Common), mountpoints (Mountinfo), the paths
--             of a process (Paths), the version (Version), CPU controllers (V1, V2), memory (MemoryV1,
--             MemoryV2), block I/O (Blkio), io.stat (Io), pressure files (Pressure), GetStatsForPid
--             with its loops over the controllers (Stats) and shares (Percentages).
--   Hwmon     metric/system/hwmon: detection (Detect), the metrics of a sensor (Sensors), Types.
--   Load      metric/cpu/cpu.go: load averages.
--   Host      metric/system/host/host.go.
--   Report    report: the reporters as the calls that they make on the visitor (Calls, Own, Cgroups), and
--             what SetupMetrics registers (Setup).
--   Tests     runs on small inputs, and each theorem that has hypotheses at a concrete input.
--
-- How state is modelled. The files of the host are a function from a path to a content or an error,
-- fixed during one call. A method that changes its receiver takes the old state and returns the new
-- one beside its result: Cpu.Sampling.Monitor, Diskio.IoStat, Process.Track.ProcsTrack. The package
-- variable bootTime of the process collector is passed through the calls that may set it. A lock makes
-- a method one step. An index out of range is the result `panic`. Go does not say in which order it
-- ranges over a map: such a loop runs over the entries of the model in their order, or in an order that
-- is a parameter.
--
-- How the parts meet. Cpu events take the CPU count from the length of the sample; Process takes
-- numcpu.NumCPU() as an argument, the event of its network counters from Network, the statistics of
-- cgroups behind the interface CGStats as a parameter; Cgroup takes the resolver and the
-- files. The reporters of report take the load averages from Load and the figures of this process from
-- Process and Cgroup.
--
-- Bounds. uint64 and int64 wrap as written out by add64, sub64, mul64 and signed64. Texts are bytes,
-- and white space is that of ASCII. A line of 64 KB or more stops bufio.Scanner, as in Go.
-- bufio.Reader.ReadLine is modelled for lines that fit its buffer of 4096 bytes. Every loop is
-- structural on a list; the only fuel is that of itoa, 20 digits, enough for a uint64. A process that
-- an error message names, and all logging, is left out.
--
-- Parameters, with what a theorem relies on as a hypothesis (OptLaws, OptIntLaws, MapstrLaws,
-- SortLaws): float64 arithmetic, github.com/elastic/elastic-agent-libs (opt, mapstr.M.Put, typeconv,
-- match), github.com/joeshaw/multierror, github.com/elastic/gosigar (CPU samples, clock ticks),
-- github.com/shirou/gopsutil (disk counters), github.com/elastic/go-sysinfo (network counters and
-- memory), sort.Slice, time.Now, os.Readlink, os.Lstat and directory listings, the order in which Go
-- ranges over a map, the averages of sigar.LoadAverage, runtime.MemStats, the visitor of
-- go-structform that folds a hardware monitor, and the scanning of a float by fmt.Sscanf.
--
-- Other systems. The modules Systems of Memory, Cpu, Filesystem, Numcpu and Process, and
-- Diskio.Windows, model what the sources for Darwin, FreeBSD, OpenBSD, AIX and Windows make of the
-- results of their system calls. The results are arguments of the definitions; a loop that such calls
-- end is given by the calls that it makes (Libs.Calls).
--
-- Not modelled: the system calls of other systems, their C structures and their buffers; the stubs of
-- diskio and numcpu; typeconv behind Format of the cgroup statistics; the user that
-- report/metrics_common.go asks for.
pub mod Base
pub mod Go
pub mod Libs
pub mod Round
pub mod Resolve
pub mod Numcpu
pub mod Memory
pub mod Cpu
pub mod Network
pub mod Diskio
pub mod Filesystem
pub mod Process
pub mod Cgroup
pub mod Hwmon
pub mod Load
pub mod Report
pub mod Host
pub mod Tests
