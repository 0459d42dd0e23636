-- ===== src/Files/Page/Follow.antt =====
-- A client that follows the cursors.
use dankgo.Prelude.{
  ℕ, zero, suc, ◌+◌, ◌-◌, ◌^◌, ◌≤◌, ◌<◌, min, ◌≡◌, refl, sym, ap, ◌∙◌, Bool, true, false, Option,
  none, some, List, [], ◌∷◌, ◌++◌, append-nil, if◌then◌else◌, leb, ltb, ◌==◌, length, take, drop,
  get_elem?, take-append-drop, arith, Bool-cases, inl, inr, length-drop,
}
use dankgo.Prelude.Int.{pos}
use dankgo.Prelude.Text.{Bytes, eqb_refl}
use dankgo.Prelude.Decimal.{itoa, cut_colon, atoi-itoa, cut_colon-itoa}
use dankgo.Files.Entry.{Entry}
use dankgo.Files.Page.{
  Page, page_of, page_from, resume_at, resume_parts, cursor_to, default_page_size,
}

abbrev pub is_nil : Bytes → Bool
is_nil [] = true
is_nil (x ∷ xs) = false

-- The entries of this page and of the pages after it, a page at most for each unit of fuel.
abbrev pub joined : Option Page → (Bytes → List Entry) → List Entry
joined none next = []
joined (some p) next = p.entries ++ (if is_nil p.cursor then [] else next p.cursor)

unfoldable pub follow : ℕ → List Entry → ℕ → Bytes → List Entry
follow zero entries limit cursor = []
follow (suc f) entries limit cursor =
    let next = follow f entries limit in joined (page_of entries cursor limit) next

get_elem?-some : (es : List Entry) (i : ℕ) → i < length es → (e : Entry) × (get_elem? es i ≡ some e)
get_elem?-some [] i h = ground arith
get_elem?-some (x ∷ es) zero h = (x, refl)
get_elem?-some (x ∷ es) (suc i) h = get_elem?-some es i (omega (arith, h))

drop_nil : (k : ℕ) → drop {A = Entry} k [] ≡ []
drop_nil zero = refl
drop_nil (suc k) = refl

drop-drop : (m n : ℕ) (es : List Entry) → drop m (drop n es) ≡ drop (n + m) es
drop-drop m zero es = ap (λ k. drop k es) (omega arith)
drop-drop m (suc n) [] = drop_nil m ∙ sym (drop_nil (suc n + m))
drop-drop m (suc n) (x ∷ es) =
    let e : suc (n + m) ≡ suc n + m = omega arith in drop-drop m n es ∙ ap (λ k. drop k (x ∷ es)) e

drop-past : (n : ℕ) (es : List Entry) → length es ≤ n → drop n es ≡ []
drop-past zero [] h = refl
drop-past zero (x ∷ es) h = ground arith
drop-past (suc n) [] h = refl
drop-past (suc n) (x ∷ es) h = drop-past n es (omega (arith, h))

take-all : (n : ℕ) (es : List Entry) → length es ≤ n → take n es ≡ es
take-all zero [] h = refl
take-all zero (x ∷ es) h = ground arith
take-all (suc n) [] h = refl
take-all (suc n) (x ∷ es) h = ap (λ k. x ∷ k) (take-all n es (omega (arith, h)))

-- A colon stands in every cursor.
resume_at-parts :
    (es : List Entry) (xs rest : Bytes)
    → resume_at es (xs ++ 58 ∷ rest) ≡ resume_parts es (cut_colon (xs ++ 58 ∷ rest))
unfolding resume_at
resume_at-parts es [] rest = refl
resume_at-parts es (x ∷ xs) rest = refl

is_nil-append : (xs rest : Bytes) → is_nil (xs ++ 58 ∷ rest) ≡ false
is_nil-append [] rest = refl
is_nil-append (x ∷ xs) rest = refl

-- On an unchanged listing a cursor resumes right behind the entry that it names.
resume_at-cursor_to :
    (es : List Entry) (i : ℕ) (e : Entry)
    → get_elem? es i ≡ some e
    → i < 2 ^ 63
    → resume_at es (cursor_to i (some e)) ≡ pos (suc i)
resume_at-cursor_to es i e g h =
    resume_at-parts es (itoa i) e.name
    ∙ (ap (resume_parts es) (cut_colon-itoa i e.name) ∙ rw (atoi-itoa i h, g, eqb_refl e.name) refl)

-- A page and what follows it are the rest of the listing.
page-joined :
    (es : List Entry) (l s : ℕ) (next : Bytes → List Entry)
    → 0 < l
    → (s + l < length es
        → (c : Bytes) → c ≡ cursor_to (s + l - 1) (get_elem? es (s + l - 1))
        → (is_nil c ≡ false) × (next c ≡ drop (s + l) es))
    → joined (page_from es l (pos s)) next ≡ drop s es
page-joined es l s next p k = elim (Bool-cases (leb (length es) s)) [
  | inl h ↦ rw h (sym (drop-past s es (ground arith)))
  | inr h ↦ elim (Bool-cases (ltb (min (s + l) (length es)) (length es))) [
    | inl m ↦
        let least : min (s + l) (length es) ≡ s + l = ground arith in
        let width : s + l - s ≡ l = omega arith in
        let more : ltb (s + l) (length es) ≡ true = ground arith in
        let c = cursor_to (s + l - 1) (get_elem? es (s + l - 1)) in
        let r = k (ground arith) c refl in
        rw (h, least, more, width, r.0, r.1)
          (ap (λ x. take l (drop s es) ++ x) (sym (drop-drop l s es))
            ∙ take-append-drop l (drop s es))
    | inr m ↦
        let least : min (s + l) (length es) ≡ length es = ground arith in
        rw (h, m, least)
          (append-nil _ ∙ take-all (length es - s) (drop s es) (omega (arith, length-drop s es)))
  ]
]

-- The cursor of a page, whose last entry this is, continues behind the page.
cursor_step :
    (es : List Entry) (l s : ℕ) (next : Bytes → List Entry)
    → 0 < l
    → s + l < length es
    → length es < 2 ^ 63
    → ((c : Bytes) → resume_at es c ≡ pos (s + l) → next c ≡ drop (s + l) es)
    → (c : Bytes) → c ≡ cursor_to (s + l - 1) (get_elem? es (s + l - 1))
    → (x : Entry) × (get_elem? es (s + l - 1) ≡ some x)
    → (is_nil c ≡ false) × (next c ≡ drop (s + l) es)
cursor_step es l s next p m b ih c q (x, g) =
    let named : c ≡ cursor_to (s + l - 1) (some x) = q ∙ ap (cursor_to (s + l - 1)) g in
    (
      ap is_nil named ∙ is_nil-append (itoa (s + l - 1)) x.name,
      ih c (
          ap (resume_at es) named
          ∙ (resume_at-cursor_to es (s + l - 1) x g (omega (arith, m, b))
              ∙ ap pos (omega (arith, p)))),
    )

follow-drop :
    (f : ℕ) (es : List Entry) (limit : ℕ) (cursor : Bytes) (s : ℕ)
    → resume_at es cursor ≡ pos s
    → length es < f + s
    → length es < 2 ^ 63
    → follow f es limit cursor ≡ drop s es
unfolding follow page_of
follow-drop zero es limit cursor s e h b = sym (drop-past s es (omega (arith, h)))
follow-drop (suc f) es limit cursor s e h b =
    let l = if limit == 0 then default_page_size else limit in
    let p : 0 < l = ground arith in
    ap (λ x. joined (page_from es l x) (follow f es limit)) e
    ∙ page-joined es l s (follow f es limit) p (λ m c q.
      cursor_step es l s (follow f es limit) p m b
        (λ c' e'. follow-drop f es limit c' (s + l) e' (omega (arith, h, p)) b) c q
        (get_elem?-some es (s + l - 1) (omega (arith, m))))

-- A client that lists a directory page by page and follows the cursors gets every entry once, in
-- order, under any limit, as long as the listing stands; one page more than there are entries is
-- always enough.
pub follow-all :
    (es : List Entry) (limit : ℕ) → length es < 2 ^ 63 → follow (suc (length es)) es limit [] ≡ es
unfolding resume_at
follow-all es limit b = follow-drop (suc (length es)) es limit [] 0 refl (omega arith) b
