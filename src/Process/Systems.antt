-- ===== src/Process/Systems.antt =====
-- metric/system/process on other systems, with the calls of the system as parameters.
pub mod Args
pub mod ArgsLaws
pub mod Darwin
pub mod Aix
pub mod Windows
