-- ===== src/Files/Page/Samples.antt =====
-- Three entries in pages of two.
use dankgo.Prelude.{◌≡◌, refl, List, [], ◌∷◌, none, suc, length, arith, false}
use dankgo.Prelude.Int.{pos}
use dankgo.Prelude.Text.{Bytes, codes, eqb}
use dankgo.Prelude.Decimal.{atoi, value, cut_colon}
use dankgo.Files.Entry.{Entry}
use dankgo.Files.Names.{index_of}
use dankgo.Files.Page.{page_of, resume_at}
use dankgo.Files.Page.Follow.{follow, follow-all}

abbrev entry_named : Bytes → Entry
entry_named name = record {
  name = name;
  path = codes "/d/";
  is_dir = false;
  is_symlink = false;
  symlink_target = [];
  symlink_broken = false;
  size = pos 1;
  mtime_ms = pos 1;
  ctime_ms = pos 1;
  atime_ms = pos 1;
  mode = [];
  owner = [];
  group = [];
  hidden = false;
  executable = false;
  extension = [];
  mime = [];
  icon_name = [];
  thumbnail = [];
  thumbnailable = false;
  unreadable = false;
  display_name = [];
  untrusted = false;
  name_key = name;
}

abbrev listing : List Entry
listing = entry_named (codes "a") ∷ entry_named (codes "b") ∷ entry_named (codes "c") ∷ []

follow-all_example : follow (suc (length listing)) listing 2 [] ≡ listing
follow-all_example = follow-all listing 2 (omega arith)

-- A cursor with a negative index and a name that is not listed makes the slice expression panic.
negative_cursor : page_of listing (codes "-1:x") 2 ≡ none
unfolding page_of resume_at cut_colon atoi value index_of eqb
negative_cursor = refl
