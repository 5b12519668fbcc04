-- ===== src/Process/Laws/Boot.antt =====
-- The boot time, which is read once.
use elastic_agent_system_met.Base.{
  ℕ, List, [], ◌∷◌, ◌≡◌, refl, ◌≢◌, Bytes, codes, ok, arith, inl, inr, ◌⊎◌, Error,
}
use elastic_agent_system_met.Go.Strings.{split}
use elastic_agent_system_met.Go.Files.{File, content, failed}
use elastic_agent_system_met.Process.Pid.{Host, boot_time_line, get_linux_boot_time}

content-cases : (f : File) → ((text : Bytes) × (f ≡ content text)) ⊎ ((e : Error) × (f ≡ failed e))
content-cases (content text) = inl (text, refl)
content-cases (failed e) = inr (e, refl)

boot_time_line-stored :
    (lines : List Bytes) (boot b stored : ℕ)
    → boot_time_line lines boot ≡ (ok b, stored)
    → stored ≡ b
unfolding boot_time_line
boot_time_line-stored [] boot b stored h = ground arith
boot_time_line-stored (line ∷ lines) boot b stored h =
    ground (arith, boot_time_line-stored lines boot b stored)

get_linux_boot_time-stored :
    (h : Host) (boot b stored : ℕ) → get_linux_boot_time h boot ≡ (ok b, stored) → stored ≡ b
unfolding get_linux_boot_time
get_linux_boot_time-stored h boot b stored e =
    elim (content-cases (h.files (h.hostfs.join (codes "proc" ∷ codes "stat" ∷ [])))) [
      | inl (text, read) ↦
          ground (arith, read, boot_time_line-stored (split b'\n' text) boot b stored)
      | inr (fault, read) ↦ ground (arith, read)
    ]

-- A boot time other than 0 that a call returns is what every later call returns, whatever the files
-- are then.
pub get_linux_boot_time-cached :
    (h later : Host) (boot b stored : ℕ)
    → get_linux_boot_time h boot ≡ (ok b, stored)
    → b ≢ 0
    → get_linux_boot_time later stored ≡ (ok b, stored)
get_linux_boot_time-cached h later boot b stored e n =
    let kept = get_linux_boot_time-stored h boot b stored e in
    unfold get_linux_boot_time in ground (arith, kept)
