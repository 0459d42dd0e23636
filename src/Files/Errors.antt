-- ===== src/Files/Errors.antt =====
-- files/errors.go: errors with a code. Which of the sentinels an error of the system is, as errors.Is finds
-- it, is what the model knows of that error.
use dankgo.Prelude.{Bool, false, ◌||◌, Option, none, some, if◌then◌else◌}
use dankgo.Prelude.Text.{Bytes}

pub data Code : Type 0 where
  not_found : Code
  access : Code
  not_dir : Code
  invalid : Code
  already_exists : Code
  cross_device : Code
  busy : Code
  io : Code
  not_supported : Code
  sandboxed : Code

pub data Sentinel : Type 0 where
  err_not_exist : Sentinel
  err_permission : Sentinel
  err_exist : Sentinel
  enotempty : Sentinel
  enotdir : Sentinel
  exdev : Sentinel
  ebusy : Sentinel
  err_invalid : Sentinel

-- An error of the system, or an Error with or without one behind it.
pub data FileError : Type 0 where
  os_error : (Sentinel → Bool) → FileError
  bare : Code → Bytes → FileError
  coded : Code → Bytes → FileError → FileError

-- errors.Is
unfoldable pub is_error : FileError → Sentinel → Bool
is_error (os_error is) s = is s
is_error (bare c p) s = false
is_error (coded c p e) s = is_error e s

unfoldable pub code_of : FileError → Code
code_of (os_error is) = Code.io
code_of (bare c p) = c
code_of (coded c p e) = c

unfoldable pub code_from_os : FileError → Code
unfolding is_error
code_from_os e =
    if is_error e err_not_exist
    then Code.not_found
    else if is_error e err_permission
    then Code.access
    else if is_error e err_exist || is_error e enotempty
    then Code.already_exists
    else if is_error e enotdir
    then Code.not_dir
    else if is_error e exdev
    then Code.cross_device
    else if is_error e ebusy
    then Code.busy
    else if is_error e err_invalid
    then Code.invalid
    else Code.io

unfoldable pub wrap : Bytes → Option FileError → Option FileError
unfolding code_from_os
wrap path none = none
wrap path (some e) = some (coded (code_from_os e) path e)
