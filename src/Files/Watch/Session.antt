-- ===== src/Files/Watch/Session.antt =====
-- One watch and one client over a whole session: listing, changes, attaching, and what is received.
use dankgo.Prelude.{
  ℕ, suc, ◌≡◌, refl, sym, ap, ◌∙◌, ◌⊎◌, inl, inr, true, false, Option, none, some, List, [], ◌∷◌,
  ◌++◌, arith, if◌then◌else◌, length, Bool-cases, leb,
}
use dankgo.Prelude.Text.{Bytes}
use dankgo.Files.Entry.{Entry}
use dankgo.Files.Watch.Batch.{
  Kind, batch_kind, resync_kind, gone_kind, thumbnails_kind, Batch, Watch, empty_batch, replay,
  remove_names, update_all, update_from, insert_all,
}
use dankgo.Files.Watch.Publish.{publish_locked, attach, is_empty, pending_cap}

-- What a client shows; `none` after a resync or gone batch, until it lists again.
abbrev pub Replica : Type 0
Replica = Option (List Entry)

abbrev pub receive_kind : Kind → Batch → List Entry → Replica
receive_kind batch_kind b es = some (replay b es)
receive_kind resync_kind b es = none
receive_kind gone_kind b es = none
receive_kind thumbnails_kind b es = some (update_all b.thumbnails es)

unfoldable pub receive : Replica → Batch → Replica
receive none b = none
receive (some es) b = receive_kind b.kind b es

unfoldable pub receive_all : Replica → List Batch → Replica
receive_all r [] = r
receive_all r (b ∷ bs) = receive_all (receive r b) bs

receive_all-append :
    (r : Replica) (bs : List Batch) (b : Batch)
    → receive_all r (bs ++ b ∷ []) ≡ receive (receive_all r bs) b
unfolding receive_all
receive_all-append r [] b = refl
receive_all-append r (x ∷ bs) b = receive_all-append (receive r x) bs b

-- What the client shows once it has received what the watch still holds back for it.
unfoldable pub caught_up : Watch → Replica → Replica
caught_up w r = if w.dropped then none else receive_all r w.pending

abbrev pub HeldBack : Watch → Type 0
HeldBack w = w.subscribed ≡ true → (w.pending ≡ []) × (w.dropped ≡ false)

-- The client is either told to list again, or shows this view.
abbrev pub Shows : List Entry → Replica → Type 0
Shows view r = (r ≡ none) ⊎ (r ≡ some view)

replay-stamped :
    (b : Batch) (id : Bytes) (n : ℕ) (es : List Entry)
    → replay (record b { watch_id = id; seq = n }) es ≡ replay b es
unfolding replay
replay-stamped b id n es = refl

receive-stamped :
    (r : Replica) (b : Batch) (id : Bytes) (n : ℕ)
    → receive r (record b { watch_id = id; seq = n }) ≡ receive r b
unfolding receive
receive-stamped none b id n = refl
receive-stamped (some es) b id n = go b.kind
  where
    go : (k : Kind) → receive_kind k (record b { watch_id = id; seq = n }) es ≡ receive_kind k b es
    go batch_kind = ap some (replay-stamped b id n es)
    go resync_kind = refl
    go gone_kind = refl
    go thumbnails_kind = refl

length_zero {ℓ} : {A : Type ℓ} (xs : List A) → length xs ≡ 0 → xs ≡ []
length_zero [] h = refl
length_zero (x ∷ xs) h = absurd (omega arith)

pub update_all-none : (es : List Entry) → update_all [] es ≡ es
unfolding update_all update_from
update_all-none [] = refl
update_all-none (x ∷ xs) = ap (λ l. x ∷ l) (update_all-none xs)

-- A batch that is not published for being empty changes nothing.
replay-is_empty : (b : Batch) (es : List Entry) → is_empty b ≡ true → replay b es ≡ es
unfolding replay is_empty remove_names insert_all
replay-is_empty b es h =
    rw
      (
        length_zero b.added (ground arith),
        length_zero b.changed (ground arith),
        length_zero b.removed (ground arith),
      )
      (update_all-none es)

kind_of : (b : Batch) → is_empty b ≡ true → b.kind ≡ batch_kind
unfolding is_empty
kind_of b h = ground arith

receive-is_empty : (r : Replica) (b : Batch) → is_empty b ≡ true → receive r b ≡ r
unfolding receive
receive-is_empty none b h = refl
receive-is_empty (some es) b h = ground (arith, replay-is_empty b es h, kind_of b h)

-- The three ways of publishing a batch that is not empty.
pub publish_empty : (w : Watch) (b : Batch) → is_empty b ≡ true → publish_locked w b ≡ (w, [])
unfolding publish_locked
publish_empty w b h = rw h

abbrev pub stamp : Watch → Batch → Batch
stamp w b = record b { watch_id = w.id; seq = suc w.seq }

pub publish_subscribed :
    (w : Watch) (b : Batch)
    → is_empty b ≡ false
    → w.subscribed ≡ true
    → publish_locked w b ≡ (record w { seq = suc w.seq }, stamp w b ∷ [])
unfolding publish_locked
publish_subscribed w b h k = ground arith

pub publish_full :
    (w : Watch) (b : Batch)
    → is_empty b ≡ false
    → w.subscribed ≡ false
    → leb pending_cap (length w.pending) ≡ true
    → publish_locked w b ≡ (record w { seq = suc w.seq; pending = []; dropped = true }, [])
unfolding publish_locked
publish_full w b h k l = ground arith

pub publish_buffered :
    (w : Watch) (b : Batch)
    → is_empty b ≡ false
    → w.subscribed ≡ false
    → leb pending_cap (length w.pending) ≡ false
    → publish_locked w b ≡ (record w { seq = suc w.seq; pending = w.pending ++ stamp w b ∷ [] }, [])
unfolding publish_locked
publish_buffered w b h k l = ground arith

abbrev pub Follows : Watch → Batch → Replica → Watch × List Batch → Type 0
Follows w b r out =
    HeldBack out.0
    × ((caught_up out.0 (receive_all r out.1) ≡ none)
        ⊎ (caught_up out.0 (receive_all r out.1) ≡ receive (caught_up w r) b))

buffered-Follows :
    (w : Watch) (b : Batch) (r : Replica)
    → w.subscribed ≡ false
    → Follows w b r (record w { seq = suc w.seq; pending = w.pending ++ stamp w b ∷ [] }, [])
unfolding caught_up receive_all
buffered-Follows w b r k = elim (Bool-cases w.dropped) [
  | inl d ↦ (λ e. cc, inl (rw d refl))
  | inr d ↦ (
    λ e. cc,
    inr (rw d (receive_all-append r w.pending (stamp w b) ∙ receive-stamped _ b w.id (suc w.seq))),
  )
]

-- Publishing a batch: the client ends up as if it had received it, or is told to list again.
pub publish_locked-caught_up :
    (w : Watch) (b : Batch) (r : Replica) → HeldBack w → Follows w b r (publish_locked w b)
unfolding caught_up receive_all
publish_locked-caught_up w b r h = elim (Bool-cases (is_empty b)) [
  | inl e ↦ rw (publish_empty w b e) (h, inr (sym (receive-is_empty (caught_up w r) b e)))
  | inr e ↦ elim (Bool-cases w.subscribed) [
    | inl k ↦
        let held = h k in
        rw (publish_subscribed w b e k)
          (h, inr (rw (held.0, held.1) (receive-stamped r b w.id (suc w.seq))))
    | inr k ↦ elim (Bool-cases (leb pending_cap (length w.pending))) [
      | inl full ↦ rw (publish_full w b e k full) (λ x. cc, inl refl)
      | inr room ↦ rw (publish_buffered w b e k room) (buffered-Follows w b r k)
    ]
  ]
]

-- Attaching: the client has received what was held back, or is told to list again.
pub attach-caught_up :
    (w : Watch) (r : Replica)
    → let out = attach w in
      HeldBack out.0
      × (out.0.subscribed ≡ true)
      × (caught_up out.0 (receive_all r out.1) ≡ caught_up w r)
unfolding attach caught_up receive_all
attach-caught_up w r = elim (Bool-cases w.dropped) [
  | inl d ↦ rw d (λ e. (refl, refl), refl, resynced r)
  | inr d ↦ rw d (λ e. (refl, refl), refl, refl)
]
  where
    resynced :
        (x : Replica)
        → receive x (record (empty_batch resync_kind) { watch_id = w.id; seq = suc w.seq }) ≡ none
    resynced none = unfold receive in refl
    resynced (some es) = unfold receive in refl
