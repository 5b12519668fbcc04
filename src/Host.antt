-- ===== src/Host.antt =====
-- metric/system/host/host.go: the information on the host, as a map and as calls on a visitor.
-- github.com/elastic/go-sysinfo, which collects it, is a parameter.
use elastic_agent_system_met.Base.{
  Bool, List, [], ◌∷◌, ◌++◌, if◌then◌else◌, Bytes, codes, is_empty, Option, none, some, Result, ok,
  err, panic,
}
use elastic_agent_system_met.Libs.{Float64}
use elastic_agent_system_met.Libs.Mapstr.{M, text, bool, object, empty, entry, Mapstr}
use elastic_agent_system_met.Report.Calls.{
  Call, report_string, report_bool, report_namespace, in_registry,
}

-- `types.OSInfo` and `types.HostInfo`, as far as they are read.
pub record OsInfo : Type 0 where
  pub kind : Bytes
  pub family : Bytes
  pub platform : Bytes
  pub name : Bytes
  pub version : Bytes
  pub build : Bytes
  pub codename : Bytes

pub record HostInfo : Type 0 where
  pub hostname : Bytes
  pub architecture : Bytes
  pub containerized : Option Bool
  pub unique_id : Bytes
  pub kernel_version : Bytes
  pub os : OsInfo

-- The host name, or the full one if it is known.
unfoldable pub host_name : HostInfo → Bytes → Bytes
host_name info fqdn = if is_empty fqdn then info.hostname else fqdn

module _ (f : Float64) where
  unfoldable pub host_map : HostInfo → Bytes → M f
  host_map info fqdn =
      entry (codes "host")
        (object (
          entry (codes "name") (text (host_name info fqdn)) (
            entry (codes "hostname") (text info.hostname) (
              entry (codes "architecture") (text info.architecture) (
                entry (codes "os")
                  (object (
                    entry (codes "platform") (text info.os.platform) (
                      entry (codes "version") (text info.os.version) (
                        entry (codes "family") (text info.os.family) (
                          entry (codes "name") (text info.os.name)
                            (entry (codes "kernel") (text info.kernel_version) empty))))))
                  empty)))))
        empty

  module _ (ms : Mapstr f) where
    unfoldable pub put_text : Bytes → Bytes → M f → M f
    put_text key value data' = if is_empty value then data' else ms.put data' key (text value)

    unfoldable pub put_bool : Bytes → Option Bool → M f → M f
    put_bool key none data' = data'
    put_bool key (some b) data' = ms.put data' key (bool b)

    unfoldable pub map_host_info : HostInfo → Bytes → M f
    map_host_info info fqdn = put_text (codes "host.os.type") info.os.kind (
        put_text (codes "host.os.build") info.os.build (
          put_text (codes "host.os.codename") info.os.codename (
            put_bool (codes "host.containerized") info.containerized
              (put_text (codes "host.id") info.unique_id (host_map info fqdn)))))

  unfoldable pub optional_string : Bytes → Bytes → List (Call f)
  optional_string name value = if is_empty value then [] else report_string name value ∷ []

  unfoldable pub optional_bool : Bytes → Option Bool → List (Call f)
  optional_bool name none = []
  optional_bool name (some b) = report_bool name b ∷ []

  unfoldable pub os_calls : HostInfo → List (Call f)
  os_calls info =
      report_string (codes "platform") info.os.platform
      ∷ report_string (codes "version") info.os.version
      ∷ report_string (codes "family") info.os.family
      ∷ report_string (codes "name") info.os.name
      ∷ report_string (codes "kernel") info.kernel_version
      ∷ (optional_string (codes "codename") info.os.codename
          ++ optional_string (codes "build") info.os.build)

  unfoldable pub host_calls : HostInfo → Bytes → List (Call f)
  host_calls info fqdn =
      report_string (codes "hostname") (host_name info fqdn)
      ∷ report_string (codes "architecture") info.architecture
      ∷ (report_namespace f (codes "os") (os_calls info)
          ++ (optional_string (codes "id") info.unique_id
              ++ optional_bool (codes "containerized") info.containerized))

  -- `ReportInfo`: nothing is reported of a host that is not known.
  unfoldable pub report_info : Bytes → Result HostInfo → Result (List (Call f))
  report_info fqdn (ok info) = ok (in_registry f (host_calls info fqdn))
  report_info fqdn (err e) = ok (in_registry f [])
  report_info fqdn panic = panic
