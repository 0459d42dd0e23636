-- ===== src/Trash/Tree.antt =====
-- The file system under the trash, as trash/trash.go uses it through package os. A path is the list of
-- its names, the innermost first; links are not followed. Which calls the system refuses is a parameter.
use dankgo.Prelude.{
  ℕ, ◌≡◌, refl, ◌↔◌, Bool, true, false, not, ◌&&◌, ◌||◌, Option, none, some, List, [], ◌∷◌, ◌++◌,
  arith, if◌then◌else◌, length,
}
use dankgo.Prelude.Text.{Bytes, eqb, eqb_iff}

abbrev pub FilePath : Type 0
FilePath = List Bytes

pub record Node : Type 0 where
  pub is_dir : Bool
  pub is_link : Bool
  pub sticky : Bool
  pub device : ℕ
  pub size : ℕ
  pub content : Bytes

abbrev pub Fs : Type 0
Fs = FilePath → Option Node

unfoldable pub same : FilePath → FilePath → Bool
same [] [] = true
same [] (d ∷ ds) = false
same (c ∷ cs) [] = false
same (c ∷ cs) (d ∷ ds) = eqb c d && same cs ds

abbrev pub inside : Bytes → Option FilePath → Option FilePath
inside c none = none
inside c (some rest) = some (c ∷ rest)

abbrev pub or_inside : FilePath → FilePath → Option FilePath → Option FilePath
or_inside [] q o = o
or_inside (c ∷ cs) q o = o

-- The way from the first path down to the second.
unfoldable pub below : FilePath → FilePath → Option FilePath
unfolding same
below top [] = if same top [] then some [] else none
below top (c ∷ cs) =
    let deeper = inside c (below top cs) in if same top (c ∷ cs) then some [] else deeper

abbrev pub is_some {ℓ} : {A : Type ℓ} → Option A → Bool
is_some none = false
is_some (some x) = true

-- exists
unfoldable pub exists : Fs → FilePath → Bool
exists fs p = is_some (fs p)

abbrev pub set : FilePath → Option Node → Fs → Fs
set p n fs q = if same p q then n else fs q

pub record Refusals : Type 0 where
  pub rename : FilePath → FilePath → Bool
  pub create : FilePath → Bool
  pub write : FilePath → Bool
  pub mkdir : FilePath → Bool

abbrev pub moved_from :
    FilePath → FilePath → Option FilePath → Option FilePath → Fs → Option Node → Option Node
moved_from from to (some rest) from_here fs n = fs (rest ++ from)
moved_from from to none (some rest) fs n = none
moved_from from to none none fs n = n

-- The tree under the first path stands under the second.
unfoldable pub moved : FilePath → FilePath → Fs → Fs
unfolding below
moved from to fs q = moved_from from to (below to q) (below from q) fs (fs q)

abbrev pub device_at : Option Node → ℕ
device_at none = 0
device_at (some n) = n.device

abbrev pub is_dir_at : Option Node → Bool
is_dir_at none = false
is_dir_at (some n) = n.is_dir

abbrev pub new_dir : ℕ → Node
new_dir device = record {
  is_dir = true;
  is_link = false;
  sticky = false;
  device = device;
  size = 0;
  content = [];
}

abbrev pub parent_of : FilePath → FilePath
parent_of [] = []
parent_of (c ∷ cs) = cs

abbrev pub new_file : ℕ → Bytes → Node
new_file device text = record {
  is_dir = false;
  is_link = false;
  sticky = false;
  device = device;
  size = length text;
  content = text;
}

module _ (no : Refusals) where
  -- os.Rename: `none` is its error.
  unfoldable pub os_rename : FilePath → FilePath → Fs → Option Fs
  unfolding exists moved
  os_rename from to fs =
      if not (exists fs from) || (is_some (below from to) || no.rename from to)
      then none
      else some (moved from to fs)

  abbrev pub add_dir : Bool → FilePath → FilePath → Fs → Fs × Bool
  add_dir false p parent fs = (fs, false)
  add_dir true p parent fs =
      if no.mkdir p then (fs, false) else (set p (some (new_dir (device_at (fs parent)))) fs, true)

  -- os.MkdirAll, and whether it succeeds.
  unfoldable pub mkdir_all : FilePath → Fs → Fs × Bool
  mkdir_all [] fs = (fs, is_dir_at (fs []))
  mkdir_all (c ∷ cs) fs =
      let parent = mkdir_all cs fs in
      let made = add_dir (parent.1) (c ∷ cs) cs (parent.0) in
      if is_some (fs (c ∷ cs)) then (fs, is_dir_at (fs (c ∷ cs))) else made

  -- os.OpenFile with O_CREATE and O_EXCL, and the write of the text.
  unfoldable pub create_new : FilePath → Bytes → Fs → Fs × Bool
  unfolding exists
  create_new p text fs =
      if exists fs p || no.create p
      then (fs, false)
      else if no.write p
      then (set p (some (new_file (device_at (fs (parent_of p))) [])) fs, false)
      else (set p (some (new_file (device_at (fs (parent_of p))) text)) fs, true)

unfoldable pub remove : FilePath → Fs → Fs
remove p fs = set p none fs

pub same_iff : (p q : FilePath) → (same p q ≡ true) ↔ (p ≡ q)
unfolding same
same_iff [] [] = ground arith
same_iff [] (d ∷ ds) = ground arith
same_iff (c ∷ cs) [] = ground arith
same_iff (c ∷ cs) (d ∷ ds) = ground (arith, same_iff cs ds, eqb_iff c d)

pub same_refl : (p : FilePath) → same p p ≡ true
same_refl p = (same_iff p p).1 refl
