-- ===== src/Tests.antt =====
-- Runs of the model on small inputs, and each theorem at an input that meets its hypotheses.
mod Fixtures
mod Sorting
mod Numcpu
mod Memory
mod Cpu
mod Diskio
mod Network
mod Filesystem
mod Process
mod Cgroup
mod Controllers
mod Hwmon
mod Systems
