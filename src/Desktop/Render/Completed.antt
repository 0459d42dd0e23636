-- ===== src/Desktop/Render/Completed.antt =====
-- desktop/mimeapps.go: the groups that renderMimeapps adds behind the lines, so that every entry is out.
use dankgo.Prelude.{
  ℕ, ◌-◌, true, false, Option, none, some, List, [], ◌∷◌, ◌++◌, ap, refl, sym, subst, ◌≡◌, ◌∙◌,
  arith, ◌==◌, Bool-cases, inl, inr, map, take, length, length-append,
}
use dankgo.Prelude.Text.{Bytes, codes, eqb, eqb_refl}
use dankgo.Prelude.Members.{GoMap, contains}
use dankgo.Desktop.Groups.{
  Parsing, trim_space, is_empty, last_is, parse_line, parse_lines, header_name, scan_lines,
}
use dankgo.Desktop.Associations.{if_missing}
use dankgo.Desktop.Render.{
  Entries, Rendering, line_of, lookup, missing, keys_of, mark, separator, group_header, add_pending,
  add_entries, add_group, render_groups, render_start, render_lines, flush_missing, rendered,
}
use dankgo.Desktop.Render.Fields.{AreFields, trim_space-IsTrimmed, view, last_space-append}
use dankgo.Desktop.Render.Reading.{
  is_header, IsEntered, parse_lines-append, parse_line-skip, parse_line-IsEntered,
}
use dankgo.Desktop.Render.Agrees.{
  AreViews, so_far, so_far-missing, if_missing-so_far, AreRead-AreViews, parse_lines-AreRead,
}
use dankgo.Desktop.Render.Steps.{IsSound, read_lines, parse_start, missing-AreFields}
use dankgo.Desktop.Render.Rounds.{render_lines-IsSound, flush_missing-IsSound}

last_is-append : (b c : ℕ) (a : Bytes) → last_is b (a ++ c ∷ []) ≡ (c == b)
last_is-append b c [] = refl
last_is-append b c (x ∷ []) = refl
last_is-append b c (x ∷ y ∷ a) = last_is-append b c (y ∷ a)

take-length : (a b : Bytes) → take (length a) (a ++ b) ≡ a
take-length [] b = refl
take-length (c ∷ a) b = ap (λ x. c ∷ x) (take-length a b)

group_header-IsTrimmed : (g : Bytes) → trim_space (group_header g) ≡ group_header g
group_header-IsTrimmed g =
    trim_space-IsTrimmed (group_header g)
      (record { first = refl; last = last_space-append (91 ∷ g) [] 93 })

header_name-group_header : (g : Bytes) → header_name (group_header g) ≡ g
header_name-group_header g =
    let n : length (group_header g) - 2 ≡ length g = rw (length-append g (93 ∷ [])) (omega arith) in
    rw n (take-length g (93 ∷ []))

group_header-is_header : (g : Bytes) → is_header (group_header g) ≡ true
group_header-is_header g = last_is-append 93 93 (91 ∷ g)

parse_line-group_header :
    (g : Bytes) (p : Parsing) → IsEntered g p (parse_line (trim_space (group_header g)) p)
parse_line-group_header g p = rw (group_header-IsTrimmed g) (
    subst (λ x. IsEntered x p (parse_line (group_header g) p)) (header_name-group_header g)
      (parse_line-IsEntered (group_header g) p (group_header-is_header g)))

mark-same :
    (g : Bytes) (keys : List Bytes) (written : Bytes → List Bytes)
    → mark g keys written g ≡ keys ++ written g
mark-same g keys written = rw (eqb_refl g) refl

parse_lines-separator : (out : List Bytes) (p : Parsing) → parse_lines (separator out) p ≡ p
unfolding trim_space
parse_lines-separator [] p = refl
parse_lines-separator (line ∷ []) p = elim (Bool-cases (is_empty (trim_space line))) [
  | inl h ↦ rw h refl
  | inr h ↦ rw h (parse_line-skip (trim_space []) p refl)
]
parse_lines-separator (line ∷ next ∷ lines) p = parse_lines-separator (next ∷ lines) p

-- The groups are read as far as they are written, and one of them is out whole.
record IsAdded (managed : GoMap Entries) (name : Bytes) (es : Entries) (r : Rendering)
    : Type 0 where
  views : AreViews managed (read_lines r.out) r.written
  whole : (j : Bytes) → so_far (r.written name) es j ≡ lookup es j

whole_of :
    (done : List Bytes) (es new : Entries)
    → missing done es ≡ new
    → (j : Bytes) → so_far (keys_of new ++ done) es j ≡ lookup es j
whole_of done es new n j =
    subst (λ y. so_far (keys_of y ++ done) es j ≡ lookup es j) n (so_far-missing done es j)

read_lines-added :
    (name : Bytes) (lines out : List Bytes)
    → read_lines (out ++ (separator out ++ group_header name ∷ lines))
      ≡ parse_lines lines (parse_line (trim_space (group_header name)) (read_lines out))
read_lines-added name lines out =
    parse_lines-append out (separator out ++ group_header name ∷ lines) parse_start
    ∙ (parse_lines-append (separator out) (group_header name ∷ lines) (read_lines out)
        ∙ ap (parse_lines (group_header name ∷ lines)) (parse_lines-separator out (read_lines out)))

module _ (managed : GoMap Entries)
    (fields : (g : Bytes) (es : Entries) → managed g ≡ some es → AreFields es) where
  add_pending-IsAdded :
      (name : Bytes) (es new : Entries) (r : Rendering)
      → managed name ≡ some es
      → missing (r.written name) es ≡ new
      → AreViews managed (read_lines r.out) r.written
      → IsAdded managed name es (add_pending name new r)
  add_pending-IsAdded name es [] r m n v = record {
    views = v;
    whole = whole_of (r.written name) es [] n;
  }
  add_pending-IsAdded name es (x ∷ xs) r m n v =
      let new : Entries = x ∷ xs in
      let p = read_lines r.out in
      let p' = parse_line (trim_space (group_header name)) p in
      let at = parse_line-group_header name p in
      let f : AreFields new =
        subst AreFields n (missing-AreFields (r.written name) es (fields name es m)) in
      let read = parse_lines-AreRead name new p' f at.current at.present in
      let entered : AreViews managed p' r.written = λ g es' e j. at.view_kept g j ∙ v g es' e j in
      let same = whole_of (r.written name) es new n in
      let covers = λ (j : Bytes).
        subst (λ y. if_missing (so_far (r.written name) es j) (lookup y j) ≡ lookup es j) n
          (if_missing-so_far (r.written name) es j)
        ∙ sym (same j) in
      record {
        views =
            subst (λ q. AreViews managed q (mark name (keys_of new) r.written))
              (sym (read_lines-added name (map line_of new) r.out))
              (AreRead-AreViews managed name es new p' (parse_lines (map line_of new) p') r.written
                entered read m covers);
        whole = λ j. ap (λ w. so_far w es j) (mark-same name (keys_of new) r.written) ∙ same j;
      }

  add_group-IsAdded :
      (name : Bytes) (es : Entries) (r : Rendering)
      → managed name ≡ some es
      → AreViews managed (read_lines r.out) r.written
      → IsAdded managed name es (add_group managed name r)
  unfolding add_group
  add_group-IsAdded name es r m v =
      rw m (add_pending-IsAdded name es (missing (r.written name) es) r m refl v)

add_pending-written :
    (name g : Bytes) (es : Entries) (r : Rendering)
    → eqb name g ≡ false
    → (add_pending name es r).written g ≡ r.written g
add_pending-written name g [] r h = refl
add_pending-written name g (x ∷ xs) r h = rw h refl

add_entries-written :
    (name g : Bytes) (o : Option Entries) (r : Rendering)
    → eqb name g ≡ false
    → (add_entries name o r).written g ≡ r.written g
add_entries-written name g none r h = refl
add_entries-written name g (some es) r h =
    add_pending-written name g (missing (r.written name) es) r h

add_group-written :
    (managed : GoMap Entries) (name g : Bytes) (r : Rendering)
    → eqb name g ≡ false
    → (add_group managed name r).written g ≡ r.written g
unfolding add_group
add_group-written managed name g r h = add_entries-written name g (managed name) r h

render_start-IsSound : (managed : GoMap Entries) → IsSound managed render_start
unfolding render_start contains
render_start-IsSound managed = record { current = refl; present = refl; views = λ g es e j. refl }

-- The file holds the entries of the three groups, and no other key in them.
pub record IsOut (d a m : Entries) (p : Parsing) : Type 0 where
  pub defaults : (j : Bytes) → view p (codes "Default Applications") j ≡ lookup d j
  pub added : (j : Bytes) → view p (codes "Added Associations") j ≡ lookup a j
  pub removed : (j : Bytes) → view p (codes "Removed Associations") j ≡ lookup m j

pub rendered-IsOut :
    (managed : GoMap Entries)
    → managed [] ≡ none
    → ((g : Bytes) (es : Entries) → managed g ≡ some es → AreFields es)
    → (d a m : Entries) (original : Bytes) → managed (codes "Default Applications") ≡ some d
    → managed (codes "Added Associations") ≡ some a
    → managed (codes "Removed Associations") ≡ some m
    → IsOut d a m (read_lines (rendered managed original))
unfolding rendered render_groups eqb
rendered-IsOut managed unnamed fields d a m original md ma mm =
    let dn = codes "Default Applications" in
    let an = codes "Added Associations" in
    let rn = codes "Removed Associations" in
    let r0 = render_lines managed (scan_lines original) render_start in
    let r1 = flush_missing managed r0.current r0 in
    let sound = flush_missing-IsSound managed unnamed fields r0 (
      render_lines-IsSound managed unnamed fields (scan_lines original) render_start
        (render_start-IsSound managed)) in
    let r2 = add_group managed dn r1 in
    let r3 = add_group managed an r2 in
    let a1 = add_group-IsAdded managed fields dn d r1 md sound.views in
    let a2 = add_group-IsAdded managed fields an a r2 ma a1.views in
    let a3 = add_group-IsAdded managed fields rn m r3 mm a2.views in
    record {
      defaults = λ j.
          a3.views dn d md j
          ∙ (ap (λ w. so_far w d j)
                (add_group-written managed rn dn r3 refl ∙ add_group-written managed an dn r2 refl)
              ∙ a1.whole j);
      added = λ j.
          a3.views an a ma j
          ∙ (ap (λ w. so_far w a j) (add_group-written managed rn an r3 refl) ∙ a2.whole j);
      removed = λ j. a3.views rn m mm j ∙ a3.whole j;
    }
