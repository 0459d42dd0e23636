-- ===== src/Shellapp/Pids.antt =====
-- shellapp/pidfile.go: the files of the runtime directory that name the processes. The directory is a map from
-- names to contents; what os.ReadDir lists is an argument, and so is which processes are alive.
use dankgo.Prelude.{
  suc, ℕ, ◌-◌, Bool, false, ◌&&◌, Option, none, some, List, [], ◌∷◌, ◌++◌, if◌then◌else◌, length,
  take, drop,
}
use dankgo.Prelude.Int.{ℤ, pos, negsuc}
use dankgo.Prelude.Decimal.{itoa, atoi}
use dankgo.Prelude.Text.{Bytes, codes, eqb, has_prefix}
use dankgo.Prelude.Split.{has_suffix}
use dankgo.Prelude.Members.{GoMap, assign}
use dankgo.Desktop.Groups.{trim_space, is_empty}

abbrev pub pid_file_prefix : Bytes → Bytes
pid_file_prefix id = id ++ codes "-"

abbrev pub pid_ext : Bytes
pid_ext = codes ".pid"

abbrev pub session_ext : Bytes
session_ext = codes ".session"

-- pidFilePath and sessionFilePath, in the runtime directory, of a process.
unfoldable pub pid_file_name : Bytes → Bytes → Bytes
pid_file_name id pid = pid_file_prefix id ++ (pid ++ pid_ext)

unfoldable pub session_file_name : Bytes → Bytes → Bytes
session_file_name id pid = pid_file_prefix id ++ (pid ++ session_ext)

-- writePIDFile, where no write fails: the process, its child, and WAYLAND_DISPLAY.
unfoldable pub write_pid_file : Bytes → ℕ → ℕ → Bytes → GoMap Bytes → GoMap Bytes
unfolding pid_file_name session_file_name itoa eqb
write_pid_file id pid child display files =
    assign (pid_file_name id (itoa pid)) (some (itoa child)) (
      if is_empty display
      then files
      else assign (session_file_name id (itoa pid)) (some display) files)

unfoldable pub remove_pid_file : Bytes → ℕ → GoMap Bytes → GoMap Bytes
unfolding pid_file_name session_file_name itoa eqb
remove_pid_file id pid files =
    assign (session_file_name id (itoa pid)) none (assign (pid_file_name id (itoa pid)) none files)

abbrev pub is_ours : Bytes → Bytes → Bytes → Bool
is_ours id extension name = has_prefix name (pid_file_prefix id) && has_suffix name extension

-- The name without the prefix and the extension.
abbrev pub pid_text : Bytes → Bytes → Bytes → Bytes
pid_text id extension name =
    let rest = drop (length (pid_file_prefix id)) name in take (length rest - length extension) rest

abbrev pub number_of : Option Bytes → Option ℤ
number_of none = none
number_of (some text) = atoi (trim_space text)

abbrev pub live : (ℤ → Bool) → Option ℤ → Option ℤ
live alive none = none
live alive (some pid) = if alive pid then some pid else none

abbrev pub or_next : Option ℤ → Option ℤ → Option ℤ
or_next (some pid) rest = some pid
or_next none rest = rest

abbrev pub shows : Bytes → Option Bytes → Bool
shows display none = false
shows display (some text) = eqb (trim_space text) display

-- The loop of sessionParentPID.
unfoldable pub parent_among : Bytes → Bytes → GoMap Bytes → List Bytes → Option ℤ
unfolding has_prefix has_suffix eqb trim_space atoi
parent_among id display files [] = none
parent_among id display files (name ∷ names) =
    let rest = parent_among id display files names in
    if is_ours id session_ext name && shows display (files name)
    then or_next (atoi (pid_text id session_ext name)) rest
    else rest

unfoldable pub session_parent_pid : Bytes → Bytes → GoMap Bytes → List Bytes → Option ℤ
unfolding parent_among
session_parent_pid id display files names =
    if is_empty display then none else parent_among id display files names

-- firstChildPID
unfoldable pub first_child_pid : Bytes → (ℤ → Bool) → GoMap Bytes → List Bytes → Option ℤ
unfolding has_prefix has_suffix trim_space atoi
first_child_pid id alive files [] = none
first_child_pid id alive files (name ∷ names) =
    let rest = first_child_pid id alive files names in
    if is_ours id pid_ext name then or_next (live alive (number_of (files name))) rest else rest

-- %d
unfoldable pub show_int : ℤ → Bytes
unfolding itoa
show_int (pos n) = itoa n
show_int (negsuc n) = 45 ∷ itoa (suc n)

abbrev pub child_of : Bytes → (ℤ → Bool) → GoMap Bytes → Option ℤ → Option ℤ
child_of id alive files none = none
child_of id alive files (some parent) =
    live alive (number_of (files (pid_file_name id (show_int parent))))

unfoldable pub session_ui_pid : Bytes → (ℤ → Bool) → Bytes → GoMap Bytes → List Bytes → Option ℤ
unfolding session_parent_pid pid_file_name show_int trim_space atoi
session_ui_pid id alive display files names =
    child_of id alive files (session_parent_pid id display files names)

-- SessionPID
unfoldable pub session_pid : Bytes → (ℤ → Bool) → Bytes → GoMap Bytes → List Bytes → Option ℤ
unfolding session_ui_pid first_child_pid
session_pid id alive display files names =
    or_next (session_ui_pid id alive display files names) (first_child_pid id alive files names)

abbrev pub with_parent : (ℤ → Bool) → Option ℤ → List ℤ → List ℤ
with_parent alive none pids = pids
with_parent alive (some parent) pids = if alive parent then parent ∷ pids else pids

-- The child and the file of one entry, and what is left of the files.
abbrev pub reap :
    (ℤ → Bool) → Bytes → Option ℤ → Option ℤ → GoMap Bytes × List ℤ → GoMap Bytes × List ℤ
reap alive name none parent (files, pids) = (assign name none files, pids)
reap alive name (some child) parent (files, pids) =
    if alive child
    then (files, pids ++ child ∷ with_parent alive parent [])
    else (assign name none files, pids)

abbrev pub reap_read :
    Bytes → (ℤ → Bool) → Bytes → Option Bytes → GoMap Bytes × List ℤ → GoMap Bytes × List ℤ
reap_read id alive name none s = s
reap_read id alive name (some text) s =
    reap alive name (atoi (trim_space text)) (atoi (pid_text id pid_ext name)) s

-- PIDs: the loop over what os.ReadDir lists.
unfoldable pub pids_among :
    Bytes → (ℤ → Bool) → List Bytes → GoMap Bytes × List ℤ → GoMap Bytes × List ℤ
unfolding has_prefix has_suffix trim_space atoi eqb
pids_among id alive [] s = s
pids_among id alive (name ∷ names) s =
    pids_among id alive names
      (if is_ours id pid_ext name then reap_read id alive name (s.0 name) s else s)
