-- ===== src/Files/Watch/Numbered.antt =====
-- The sequence numbers of a watch: what it publishes is numbered without gaps up to its counter.
use dankgo.Prelude.{
  ℕ, suc, ◌+◌, ◌-◌, ◌≤◌, ◌<◌, ◌≡◌, refl, subst, inl, inr, true, false, List, [], ◌∷◌, ◌++◌, arith,
  Bool-cases, length, leb, length-append, append-nil, if◌then◌else◌, ◌⊎◌,
}
use dankgo.Files.Watch.Batch.{Batch, Watch, empty_batch, resync_kind}
use dankgo.Files.Watch.Publish.{publish_locked, attach, pending_cap, is_empty}
use dankgo.Files.Watch.Session.{
  stamp, publish_empty, publish_subscribed, publish_full, publish_buffered,
}

-- The batches are numbered one after the other from the successor of this number.
abbrev pub Numbered : ℕ → List Batch → Type 0
Numbered n [] = Unit
Numbered n (b ∷ bs) = (b.seq ≡ suc n) × Numbered (suc n) bs

-- What is held back is numbered without gaps up to the counter, fits the buffer, and is empty for a
-- subscriber.
pub record IsNumbered (w : Watch) : Type 0 where
  pub held : (w.dropped ≡ false) → Numbered (w.seq - length w.pending) w.pending
  pub counted : length w.pending ≤ w.seq
  pub fits : length w.pending ≤ pending_cap
  pub drained : w.subscribed ≡ true → w.pending ≡ []

Numbered-append :
    (n : ℕ) (bs : List Batch) (b : Batch)
    → Numbered n bs
    → b.seq ≡ suc (n + length bs)
    → Numbered n (bs ++ b ∷ [])
Numbered-append n [] b h e = (omega (arith, e), tt)
Numbered-append n (x ∷ bs) b (h, hs) e = (h, Numbered-append (suc n) bs b hs (omega (arith, e)))

Numbered-at : (m n : ℕ) (bs : List Batch) → m ≡ n → Numbered m bs → Numbered n bs
Numbered-at m n bs e h = subst (λ k. Numbered k bs) e h

buffered-IsNumbered :
    (w : Watch) (b : Batch)
    → IsNumbered w
    → w.subscribed ≡ false
    → leb pending_cap (length w.pending) ≡ false
    → IsNumbered (record w { seq = suc w.seq; pending = w.pending ++ stamp w b ∷ [] })
buffered-IsNumbered w b v k room = record {
  held = λ d.
      Numbered-at (w.seq - length w.pending) _ _
        (omega (arith, length-append w.pending (stamp w b ∷ []), v.counted))
        (Numbered-append (w.seq - length w.pending) w.pending (stamp w b) (v.held d)
          (omega (arith, v.counted)));
  counted = omega (arith, length-append w.pending (stamp w b ∷ []), v.counted);
  fits = omega (arith, length-append w.pending (stamp w b ∷ []), below_cap);
  drained = λ e. cc;
}
  where
    below_cap : length w.pending < pending_cap
    below_cap = ground arith

-- What the watch holds back and what it has sent are what it held and the stamped batch, or, at a full buffer,
-- everything is given up.
abbrev pub Passes : Watch → Batch → Watch × List Batch → Type 0
Passes w b (after, sent) =
    (after.pending ++ sent
      ≡ w.pending
        ++ (if is_empty b then [] else record b { watch_id = w.id; seq = suc w.seq } ∷ []))
    ⊎ ((w.subscribed ≡ false)
        × (pending_cap ≤ length w.pending)
        × (after.dropped ≡ true)
        × (after.pending ≡ [])
        × (sent ≡ []))

publish_locked-Passes : (w : Watch) (b : Batch) → IsNumbered w → Passes w b (publish_locked w b)
publish_locked-Passes w b v = elim (Bool-cases (is_empty b)) [
  | inl e ↦ rw (publish_empty w b e, e) (inl refl)
  | inr e ↦ elim (Bool-cases w.subscribed) [
    | inl k ↦ rw (publish_subscribed w b e k, e) (inl refl)
    | inr k ↦ elim (Bool-cases (leb pending_cap (length w.pending))) [
      | inl full ↦ rw (publish_full w b e k full) (inr (k, ground arith, refl, refl, refl))
      | inr room ↦
          rw (publish_buffered w b e k room, e) (inl (append-nil (w.pending ++ stamp w b ∷ [])))
    ]
  ]
]

-- From a watch that is numbered, publishing leads to a watch whose buffer is numbered up to its
-- counter and at most 64 long, and sends consecutive numbers, to a subscriber up to the counter.
publish_locked-IsNumbered :
    (w : Watch) (b : Batch)
    → IsNumbered w
    → let out = publish_locked w b in
      IsNumbered out.0
      × Numbered w.seq out.1
      × (w.subscribed ≡ true → out.0.seq ≡ w.seq + length out.1)
publish_locked-IsNumbered w b v = elim (Bool-cases (is_empty b)) [
  | inl e ↦ rw (publish_empty w b e) (v, tt, λ _. omega arith)
  | inr e ↦ elim (Bool-cases w.subscribed) [
    | inl k ↦
        let none_held = v.drained k in
        rw (publish_subscribed w b e k) (
          record {
            held = λ d. rw none_held tt;
            counted = rw none_held (omega arith);
            fits = v.fits;
            drained = v.drained;
          },
          (refl, tt),
          λ _. omega arith,
        )
    | inr k ↦ elim (Bool-cases (leb pending_cap (length w.pending))) [
      | inl full ↦ rw (publish_full w b e k full) (
        record { held = λ d. tt; counted = omega arith; fits = omega arith; drained = λ x. refl },
        tt,
        λ x. cc,
      )
      | inr room ↦
          rw (publish_buffered w b e k room) (buffered-IsNumbered w b v k room, tt, λ x. cc)
    ]
  ]
]

-- What a client that attaches is to be sent.
abbrev pub handed_over : Watch → List Batch
handed_over w =
    if w.dropped
    then record (empty_batch resync_kind) { watch_id = w.id; seq = suc w.seq } ∷ []
    else w.pending

-- On a watch that is numbered, attaching sends the buffered batches with their own numbers, without a gap up to the counter, or
-- one resync batch with the next number.
attach-IsNumbered :
    (w : Watch)
    → IsNumbered w
    → let out = attach w in
      IsNumbered out.0
      × Numbered (out.0.seq - length out.1) out.1
      × (out.1 ≡ handed_over w)
      × (out.0.pending ≡ [])
unfolding attach
attach-IsNumbered w v = elim (Bool-cases w.dropped) [
  | inl d ↦ rw d (
    record { held = λ x. tt; counted = omega arith; fits = omega arith; drained = λ x. refl },
    (omega arith, tt),
    refl,
    refl,
  )
  | inr d ↦ rw d (
    record { held = λ x. tt; counted = omega arith; fits = omega arith; drained = λ x. refl },
    v.held d,
    refl,
    refl,
  )
]

-- From a watch that is numbered, publishing leads to a watch whose buffer is numbered up to its counter and at
-- most 64 long, and sends consecutive numbers, to a subscriber up to the counter; what is held back then and what
-- is sent are what was held back and the stamped batch, unless that is empty, or there is no subscriber, the
-- buffer was full, and everything is given up. Attaching leads to such a watch too, with an empty buffer, and
-- sends exactly the buffered batches, which have consecutive numbers up to the counter, or exactly one resync
-- batch with the next number where batches were given up.
pub stream-IsNumbered :
    (w : Watch) (b : Batch)
    → IsNumbered w
    → let sent = publish_locked w b in
      let attached = attach w in
      (IsNumbered sent.0
        × Numbered w.seq sent.1
        × (w.subscribed ≡ true → sent.0.seq ≡ w.seq + length sent.1))
      × Passes w b sent
      × (IsNumbered attached.0
          × Numbered (attached.0.seq - length attached.1) attached.1
          × (attached.1 ≡ handed_over w)
          × (attached.0.pending ≡ []))
stream-IsNumbered w b v =
    (publish_locked-IsNumbered w b v, publish_locked-Passes w b v, attach-IsNumbered w v)
