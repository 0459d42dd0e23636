-- ===== src/Files/Watch/Publish.antt =====
-- files/watch.go: publishLocked and attach, the numbered stream of batches of one watch. Each
-- operation returns the watch and the batches that it hands to the bus.
use dankgo.Prelude.{
  ℕ, suc, ◌+◌, Bool, true, false, ◌&&◌, List, [], ◌∷◌, ◌++◌, if◌then◌else◌, leb, ◌==◌, length,
}
use dankgo.Files.Watch.Batch.{
  Kind, batch_kind, resync_kind, gone_kind, thumbnails_kind, Batch, Watch, empty_batch,
}

abbrev pub pending_cap : ℕ
pending_cap = 64

abbrev is_batch : Kind → Bool
is_batch batch_kind = true
is_batch resync_kind = false
is_batch gone_kind = false
is_batch thumbnails_kind = false

-- A batch that changes nothing is not published.
unfoldable pub is_empty : Batch → Bool
is_empty b = is_batch b.kind && (length b.added + length b.changed + length b.removed == 0)

unfoldable pub publish_locked : Watch → Batch → Watch × List Batch
unfolding is_empty
publish_locked w payload =
    let stamped = record payload { watch_id = w.id; seq = suc w.seq } in
    let counted = record w { seq = suc w.seq } in
    if is_empty payload
    then (w, [])
    else if w.subscribed
    then (counted, stamped ∷ [])
    else if leb pending_cap (length w.pending)
    then (record counted { pending = []; dropped = true }, [])
    else (record counted { pending = w.pending ++ stamped ∷ [] }, [])

unfoldable pub attach : Watch → Watch × List Batch
attach w =
    let resync = record (empty_batch resync_kind) { watch_id = w.id; seq = suc w.seq } in
    if w.dropped
    then (
      record w { subscribed = true; pending = []; dropped = false; seq = suc w.seq },
      resync ∷ [],
    )
    else (record w { subscribed = true; pending = [] }, w.pending)

-- closeOnce: the notifier and the context are released, and the service forgets the watch.
unfoldable pub close : Watch → Watch
close w = record w { closed = true }

unfoldable pub publish_gone : Watch → Watch × List Batch
unfolding close publish_locked
publish_gone w = publish_locked (close w) (empty_batch gone_kind)
