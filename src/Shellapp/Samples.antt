-- ===== src/Shellapp/Samples.antt =====
-- A shell on one of two displays.
use dankgo.Prelude.{◌≡◌, refl, true, none, some, List, [], ◌∷◌, if◌then◌else◌, arith}
use dankgo.Prelude.Int.{pos}
use dankgo.Prelude.Decimal.{itoa, digits}
use dankgo.Prelude.Text.{Bytes, codes, eqb, has_prefix}
use dankgo.Prelude.Split.{has_suffix}
use dankgo.Prelude.Members.{GoMap, contains}
use dankgo.Desktop.Groups.{trim_space}
use dankgo.Shellapp.Pids.{pid_file_name, session_file_name, write_pid_file, session_pid}
use dankgo.Shellapp.Found.{session_pid-write_pid_file}

-- Another shell on another display.
abbrev earlier : GoMap Bytes
earlier name =
    if eqb name (codes "dms-3.session")
    then some (codes "wayland-0")
    else if eqb name (codes "dms-3.pid")
    then some (codes "5")
    else none

abbrev names : List Bytes
names = codes "dms-3.pid" ∷ codes "dms-3.session" ∷ codes "dms-40.pid" ∷ codes "dms-40.session" ∷ []

session_pid-write_pid_file_example :
    session_pid
      (codes "dms")
      (λ _. true)
      (codes "wayland-1")
      (write_pid_file (codes "dms") 40 41 (codes "wayland-1") earlier)
      names
    ≡ some (pos 41)
session_pid-write_pid_file_example =
    session_pid-write_pid_file (codes "dms") (codes "wayland-1") 40 41 earlier (λ _. true) names
      refl (unfold trim_space in refl) (omega arith) (omega arith) refl
      (unfold contains session_file_name itoa digits eqb in refl)
      (unfold write_pid_file session_file_name pid_file_name itoa digits eqb trim_space has_prefix
          has_suffix in
        ((λ _. refl), ((λ _. refl), ((λ _. refl), ((λ h. absurd (cc)), tt)))))
