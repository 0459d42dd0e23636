-- ===== src/Files/Entry.antt =====
-- files/entry.go: one directory entry as the clients see it, with its collation key.
use dankgo.Prelude.{Bool}
use dankgo.Prelude.Int.{ℤ}
use dankgo.Prelude.Text.{Bytes}

pub record Entry : Type 0 where
  pub name : Bytes
  pub path : Bytes
  pub is_dir : Bool
  pub is_symlink : Bool
  pub symlink_target : Bytes
  pub symlink_broken : Bool
  pub size : ℤ
  pub mtime_ms : ℤ
  pub ctime_ms : ℤ
  pub atime_ms : ℤ
  pub mode : Bytes
  pub owner : Bytes
  pub group : Bytes
  pub hidden : Bool
  pub executable : Bool
  pub extension : Bytes
  pub mime : Bytes
  pub icon_name : Bytes
  pub thumbnail : Bytes
  pub thumbnailable : Bool
  pub unreadable : Bool
  pub display_name : Bytes
  pub untrusted : Bool
  pub name_key : Bytes
