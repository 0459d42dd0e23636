-- ===== src/Shellapp/Found.antt =====
-- shellapp/pidfile.go: the child that writePIDFile has recorded is the one that SessionPID finds.
use dankgo.Prelude.{
  ℕ, ◌-◌, ◌<◌, ◌^◌, ◌≡◌, refl, sym, ap, ◌∙◌, Bool, true, false, ◌&&◌, some, List, [], ◌∷◌, ◌++◌,
  arith, All, Bool-cases, inl, inr, length, length-append, take, drop, append_assoc,
}
use dankgo.Prelude.Int.{ℤ, pos}
use dankgo.Prelude.Decimal.{itoa, atoi, itoa-AreDigits, atoi-itoa}
use dankgo.Prelude.Text.{Bytes, eqb, eqb_iff, eqb_refl, has_prefix}
use dankgo.Prelude.Split.{has_suffix}
use dankgo.Prelude.Members.{GoMap, contains}
use dankgo.Desktop.Groups.{trim_space, is_empty, trim_space-digits}
use dankgo.Shellapp.Pids.{
  pid_file_prefix, pid_ext, session_ext, pid_file_name, session_file_name, write_pid_file, is_ours,
  pid_text, number_of, live, or_next, shows, parent_among, session_parent_pid, session_ui_pid,
  session_pid, first_child_pid, show_int,
}

drop_first : (a b : Bytes) → drop (length a) (a ++ b) ≡ b
drop_first [] b = refl
drop_first (x ∷ a) b = drop_first a b

take_first : (a b : Bytes) → take (length a) (a ++ b) ≡ a
take_first [] b = refl
take_first (x ∷ a) b = ap (λ y. x ∷ y) (take_first a b)

has_prefix-append : (a b : Bytes) → has_prefix (a ++ b) a ≡ true
unfolding has_prefix
has_prefix-append [] b = has_prefix-nil b
  where
    has_prefix-nil : (b : Bytes) → has_prefix b [] ≡ true
    has_prefix-nil [] = refl
    has_prefix-nil (x ∷ b) = refl
has_prefix-append (x ∷ a) b = ground (arith, has_prefix-append a b)

before_length : (a b : Bytes) → length (a ++ b) - length b ≡ length a
before_length a b = omega (arith, length-append a b)

has_suffix_append : (a b : Bytes) → has_suffix (a ++ b) b ≡ true
unfolding has_suffix
has_suffix_append a b = rw (before_length a b, drop_first a b) (eqb_refl b)

is_ours-name :
    (id pid extension : Bytes)
    → is_ours id extension (pid_file_prefix id ++ (pid ++ extension)) ≡ true
is_ours-name id pid extension =
    let front = pid_file_prefix id in
    rw (has_prefix-append front (pid ++ extension)) (
      ap (λ x. has_suffix x extension) (sym (append_assoc front pid extension))
      ∙ has_suffix_append (front ++ pid) extension)

pid_text-name :
    (id pid extension : Bytes)
    → pid_text id extension (pid_file_prefix id ++ (pid ++ extension)) ≡ pid
pid_text-name id pid extension =
    rw (drop_first (pid_file_prefix id) (pid ++ extension), before_length pid extension)
      (take_first pid extension)

number_of-itoa : (n : ℕ) → n < 2 ^ 63 → number_of (some (itoa n)) ≡ some (pos n)
number_of-itoa n h = ap atoi (trim_space-digits (itoa n) (itoa-AreDigits n)) ∙ atoi-itoa n h

eqb_tails : (a b c : Bytes) → eqb (a ++ b) (a ++ c) ≡ eqb b c
unfolding eqb
eqb_tails [] b c = refl
eqb_tails (x ∷ a) b c = ground (arith, eqb_tails a b c)

-- The two files of a process have different names.
names_differ : (id pid : Bytes) → eqb (pid_file_name id pid) (session_file_name id pid) ≡ false
unfolding pid_file_name session_file_name
names_differ id pid =
    eqb_tails (pid_file_prefix id) (pid ++ pid_ext) (pid ++ session_ext)
    ∙ (eqb_tails pid pid_ext session_ext ∙ (unfold eqb in refl))

module _ (id display : Bytes) (pid child : ℕ) (files : GoMap Bytes) (alive : ℤ → Bool)
    (known : is_empty display ≡ false) (trimmed : trim_space display ≡ display)
    (pid_fits : pid < 2 ^ 63) (child_fits : child < 2 ^ 63)
    (child_lives : alive (pos child) ≡ true) where
  abbrev written : GoMap Bytes
  written = write_pid_file id pid child display files

  abbrev own : Bytes
  own = session_file_name id (itoa pid)

  -- Another session's file, or no session file.
  abbrev pub IsOther : Bytes → Type 0
  IsOther name =
      (eqb name own ≡ false) → (is_ours id session_ext name && shows display (written name)) ≡ false

  own_shows : shows display (written own) ≡ true
  unfolding write_pid_file
  own_shows = rw (names_differ id (itoa pid), known, eqb_refl own, trimmed) (eqb_refl display)

  child_read : live alive (number_of (written (pid_file_name id (itoa pid)))) ≡ some (pos child)
  unfolding write_pid_file
  child_read =
      rw (eqb_refl (pid_file_name id (itoa pid)), number_of-itoa child child_fits, child_lives) refl

  own_found :
      (names : List Bytes)
      → or_next (atoi (pid_text id session_ext own)) (parent_among id display written names)
        ≡ some (pos pid)
  own_found names =
      let read : pid_text id session_ext own ≡ itoa pid =
        unfold session_file_name in pid_text-name id (itoa pid) session_ext in
      ap (λ t. or_next (atoi t) (parent_among id display written names)) read
      ∙ ap (λ o. or_next o (parent_among id display written names)) (atoi-itoa pid pid_fits)

  own-is_ours : is_ours id session_ext own ≡ true
  own-is_ours = unfold session_file_name in is_ours-name id (itoa pid) session_ext

  parent_among-own :
      (names : List Bytes)
      → contains names own ≡ true
      → All IsOther names
      → parent_among id display written names ≡ some (pos pid)
  unfolding parent_among contains
  parent_among-own [] c a = absurd (cc)
  parent_among-own (name ∷ names) c (o, a) = elim (Bool-cases (eqb name own)) [
    | inl e ↦ rw ((eqb_iff name own).0 e, own-is_ours, own_shows) (own_found names)
    | inr e ↦ rw (o e) (parent_among-own names (rw e at c) a)
  ]

  session_pid-own :
      (names : List Bytes)
      → contains names own ≡ true
      → All IsOther names
      → session_pid id alive display written names ≡ some (pos child)
  unfolding session_pid session_ui_pid session_parent_pid
  session_pid-own names c a =
      rw (known, parent_among-own names c a)
        (ap (λ o. or_next o (first_child_pid id alive written names))
          (unfold show_int in child_read))

-- What SessionPID finds is the child that writePIDFile has recorded for the display, where the display is not
-- empty and has no white space around it, both numbers fit, the child is alive, the directory lists the session
-- file, and no other session file that it lists shows the display.
pub session_pid-write_pid_file :
    (id display : Bytes) (pid child : ℕ) (files : GoMap Bytes) (alive : ℤ → Bool)
    (names : List Bytes)
    → is_empty display ≡ false
    → trim_space display ≡ display
    → pid < 2 ^ 63
    → child < 2 ^ 63
    → alive (pos child) ≡ true
    → contains names (session_file_name id (itoa pid)) ≡ true
    → All
        (λ name.
          eqb name (session_file_name id (itoa pid)) ≡ false
          → (is_ours id session_ext name
              && shows display (write_pid_file id pid child display files name))
            ≡ false)
        names
    → session_pid id alive display (write_pid_file id pid child display files) names
      ≡ some (pos child)
session_pid-write_pid_file id display pid child files alive names known trimmed pid_fits child_fits
      child_lives c a =
    session_pid-own id display pid child files alive known trimmed pid_fits child_fits child_lives
      names c a
