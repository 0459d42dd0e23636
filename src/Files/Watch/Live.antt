-- ===== src/Files/Watch/Live.antt =====
-- A watch and its client through any history of changes: the client never shows a stale listing
-- without having been told to list again.
use dankgo.Prelude.{
  ℕ, suc, ◌≡◌, refl, sym, ap, subst, ◌∙◌, ◌⊎◌, inl, inr, Bool, true, false, none, some, List, [],
  ◌∷◌, arith,
}
use dankgo.Prelude.Text.{Bytes}
use dankgo.Files.Entry.{Entry}
use dankgo.Files.Names.{names_of, IsUnique}
use dankgo.Files.Filter.{Patterns, filter_view}
use dankgo.Files.Sort.Listing.{sort_entries}
use dankgo.Files.Watch.Batch.{
  Kind, batch_kind, resync_kind, gone_kind, thumbnails_kind, Batch, Watch, empty_batch, replay,
  update_all, remove_names, insert_all,
}
use dankgo.Files.Watch.Diff.{diff, scan_view}
use dankgo.Files.Watch.Publish.{publish_locked, attach, close, publish_gone}
use dankgo.Files.Watch.Flush.{Found, touch_all, view, flush_names, flush, resync}
use dankgo.Files.Watch.Enrich.{apply_loop, apply_changed, applied_batch, publish_applied}
use dankgo.Files.Watch.Open.{
  ListOptions, opened, open_watch, open_watch-some, sort_entries-IsUnique,
}
use dankgo.Files.Watch.Flushed.{IsNamed, touch_all-IsUnique, replay-touch_all}
use dankgo.Files.Watch.Enriched.{AllAgree}
use dankgo.Files.Watch.Applied.{filter_view-apply_loop}
use dankgo.Files.Watch.Session.{
  Replica, receive, receive_kind, receive_all, caught_up, HeldBack, Shows, publish_locked-caught_up,
  attach-caught_up, update_all-none,
}

-- What enrichment publishes.
pub data Enrichment : Kind → Type 0 where
  mimes : Enrichment batch_kind
  previews : Enrichment thumbnails_kind

kind-scan_view :
    (existed touched : List Bytes) (in_order : Bool) (i : ℕ) (es : List Entry)
    → (scan_view existed touched in_order i es).kind ≡ batch_kind
unfolding scan_view
kind-scan_view existed touched in_order i [] = refl
kind-scan_view existed touched in_order i (e ∷ es) =
    ground (arith, kind-scan_view existed touched in_order (suc i) es)

receive_batch :
    (b : Batch) (es : List Entry) → b.kind ≡ batch_kind → receive (some es) b ≡ some (replay b es)
unfolding receive
receive_batch b es h = ap (λ k. receive_kind k b es) h

receive-diff :
    (before touched : List Bytes) (now es : List Entry)
    → receive (some es) (diff before touched now) ≡ some (replay (diff before touched now) es)
receive-diff before touched now es =
    receive_batch (diff before touched now) es (unfold diff in kind-scan_view _ touched _ 0 now)

settle :
    (b : Batch) (v v' : List Entry) (c d : Replica)
    → Shows v c
    → Shows v' (receive (some v) b)
    → (d ≡ none) ⊎ (d ≡ receive c b)
    → Shows v' d
unfolding receive
settle b v v' c d s l (inl e) = inl e
settle b v v' c d (inl n) l (inr e) = inl (e ∙ ap (λ x. receive x b) n)
settle b v v' c d (inr n) (inl l) (inr e) = inl (e ∙ (ap (λ x. receive x b) n ∙ l))
settle b v v' c d (inr n) (inr l) (inr e) = inr (e ∙ (ap (λ x. receive x b) n ∙ l))

module _ (g : Patterns) where
  -- One operation of the watch, with the batches that it publishes. The environment chooses what the
  -- directory holds.
  pub data Step : Watch → Watch → List Batch → Type 0 where
    flushed :
        (standing : Bool) (look : Bytes → Found) (names : List Bytes) (w : Watch)
        → IsNamed look
        → Step w (flush g standing look names w).0 (flush g standing look names w).1
    resynced :
        (entries : List Entry) (w : Watch)
        → IsUnique entries
        → Step w (resync g (some entries) w).0 (resync g (some entries) w).1
    lost : (w : Watch) → Step w (resync g none w).0 (resync g none w).1
    completed :
        (kind : Kind) (changed : List Entry) (w : Watch)
        → Enrichment kind
        → IsUnique changed
        → AllAgree changed w.entries
        → Step w (apply_changed g kind changed w).0 (apply_changed g kind changed w).1
    attached : (w : Watch) → Step w (attach w).0 (attach w).1

  -- A history, with what the client shows at its end.
  pub data Run (w : Watch) (r : Replica) : Watch → Replica → Type 0 where
    start : Run w r w r
    next :
        {v u : Watch} {s : Replica} {bs : List Batch} {t : Replica}
        → Run w r v s
        → Step v u bs
        → t ≡ receive_all s bs
        → Run w r u t

  pub record IsLive (w : Watch) (r : Replica) : Type 0 where
    pub unique : IsUnique w.entries
    pub held : HeldBack w
    pub shows : Shows (view g w) (caught_up w r)

  publish_locked-entries : (w : Watch) (b : Batch) → (publish_locked w b).0.entries ≡ w.entries
  unfolding publish_locked
  publish_locked-entries w b = ground arith

  publish_locked-view : (w : Watch) (b : Batch) → view g (publish_locked w b).0 ≡ view g w
  unfolding publish_locked
  publish_locked-view w b = ground arith

  -- A published batch that leads from the view before to the view after keeps the client current.
  publish-IsLive :
      (w : Watch) (entries : List Entry) (b : Batch) (r : Replica)
      → IsLive w r
      → IsUnique entries
      → Shows (view g (record w { entries = entries })) (receive (some (view g w)) b)
      → let out = publish_locked (record w { entries = entries }) b in
        IsLive out.0 (receive_all r out.1)
  unfolding caught_up
  publish-IsLive w entries b r live u leads =
      let w' = record w { entries = entries } in
      let k = publish_locked-caught_up w' b r live.held in
      record {
        unique = rw (publish_locked-entries w' b) u;
        held = k.0;
        shows =
            rw (publish_locked-view w' b)
              (settle b (view g w) (view g w') (caught_up w r) _ live.shows leads (k.1));
      }

  flush_names-IsLive :
      (look : Bytes → Found) (names : List Bytes) (w : Watch) (r : Replica)
      → IsNamed look
      → IsLive w r
      → IsLive (flush_names g look names w).0 (receive_all r (flush_names g look names w).1)
  unfolding flush_names
  flush_names-IsLive look names w r named live =
      let entries = (touch_all w.spec look names (w.entries, [])).0 in
      publish-IsLive w entries _ r live
        (touch_all-IsUnique w.spec look named names (w.entries, []) live.unique)
        (inr (
          receive-diff (names_of (view g w)) names (view g (record w { entries = entries }))
            (view g w)
          ∙ ap some (
              replay-touch_all g w.spec look named w.include_hidden w.filters names w.entries
                live.unique)))

  gone-IsLive :
      (w : Watch) (r : Replica)
      → IsLive w r
      → IsLive (publish_gone w).0 (receive_all r (publish_gone w).1)
  unfolding publish_gone close
  gone-IsLive w r live =
      publish-IsLive (record w { closed = true }) w.entries (empty_batch gone_kind) r
        (record {
          unique = live.unique;
          held = live.held;
          shows = (unfold caught_up in live.shows);
        })
        live.unique (inl (unfold receive in refl))

  flush-IsLive :
      (standing : Bool) (look : Bytes → Found) (names : List Bytes) (w : Watch) (r : Replica)
      → IsNamed look
      → IsLive w r
      → IsLive (flush g standing look names w).0 (receive_all r (flush g standing look names w).1)
  unfolding flush
  flush-IsLive true look names w r named live = flush_names-IsLive look names w r named live
  flush-IsLive false look names w r named live = gone-IsLive w r live

  resync-IsLive :
      (entries : List Entry) (w : Watch) (r : Replica)
      → IsUnique entries
      → IsLive w r
      → IsLive (resync g (some entries) w).0 (receive_all r (resync g (some entries) w).1)
  unfolding resync
  resync-IsLive entries w r u live =
      publish-IsLive w (sort_entries entries w.spec) (empty_batch resync_kind) r live
        (sort_entries-IsUnique entries w.spec u) (inl (unfold receive in refl))

  applied-IsLive :
      (kind : Kind) (applied entries : List Entry) (w : Watch) (r : Replica)
      → Enrichment kind
      → IsLive w r
      → IsUnique entries
      → view g (record w { entries = entries }) ≡ update_all applied (view g w)
      → let out = publish_applied (record w { entries = entries }) kind applied in
        IsLive out.0 (receive_all r out.1)
  applied-IsLive kind [] entries w r e live u v = record {
    unique = u;
    held = live.held;
    shows = unfold caught_up receive_all in rw (v ∙ update_all-none (view g w)) live.shows;
  }
  applied-IsLive resync_kind (x ∷ xs) entries w r e live u v = elim e [ ]
  applied-IsLive gone_kind (x ∷ xs) entries w r e live u v = elim e [ ]
  applied-IsLive batch_kind (x ∷ xs) entries w r mimes live u v =
      publish-IsLive w entries (applied_batch batch_kind (x ∷ xs)) r live u
        (inr (unfold receive replay remove_names insert_all in ap some (sym v)))
  applied-IsLive thumbnails_kind (x ∷ xs) entries w r previews live u v =
      publish-IsLive w entries (applied_batch thumbnails_kind (x ∷ xs)) r live u
        (inr (unfold receive in ap some (sym v)))

  apply_changed-IsLive :
      (kind : Kind) (changed : List Entry) (w : Watch) (r : Replica)
      → Enrichment kind
      → IsUnique changed
      → AllAgree changed w.entries
      → IsLive w r
      → IsLive (apply_changed g kind changed w).0 (receive_all r (apply_changed g kind changed w).1)
  unfolding apply_changed
  apply_changed-IsLive kind changed w r e u a live =
      let k =
        filter_view-apply_loop g w.include_hidden w.filters changed w.entries u live.unique a in
      applied-IsLive kind
        (filter_view g (apply_loop changed w.entries).1 w.include_hidden w.filters)
        (apply_loop changed w.entries).0 w r e live k.0 k.1

  attach-entries : (w : Watch) → (attach w).0.entries ≡ w.entries
  unfolding attach
  attach-entries w = ground arith

  attach-view : (w : Watch) → view g (attach w).0 ≡ view g w
  unfolding attach
  attach-view w = ground arith

  attach-IsLive :
      (w : Watch) (r : Replica) → IsLive w r → IsLive (attach w).0 (receive_all r (attach w).1)
  attach-IsLive w r live =
      let k = attach-caught_up w r in
      record {
        unique = rw (attach-entries w) live.unique;
        held = k.0;
        shows = rw (attach-view w, k.2) live.shows;
      }

  Step-IsLive :
      {w v : Watch} {bs : List Batch} (r : Replica)
      → Step w v bs
      → IsLive w r
      → IsLive v (receive_all r bs)
  Step-IsLive r (flushed standing look names w named) live =
      flush-IsLive standing look names w r named live
  Step-IsLive r (resynced entries w u) live = resync-IsLive entries w r u live
  Step-IsLive r (lost w) live = unfold resync in gone-IsLive w r live
  Step-IsLive r (completed kind changed w e u a) live =
      apply_changed-IsLive kind changed w r e u a live
  Step-IsLive r (attached w) live = attach-IsLive w r live

  Run-IsLive :
      {w : Watch} {r : Replica} {v : Watch} {s : Replica} → IsLive w r → Run w r v s → IsLive v s
  Run-IsLive live start = live
  Run-IsLive live (next {s = s} run st e) = rw e (Step-IsLive s st (Run-IsLive live run))

  opened-IsLive :
      (id topic path : Bytes) (opts : ListOptions) (attach_on_open : Bool) (entries : List Entry)
      → IsUnique entries
      → let w = opened id topic path opts attach_on_open entries in IsLive w (some (view g w))
  unfolding opened caught_up receive_all
  opened-IsLive id topic path opts attach_on_open entries u = record {
    unique = sort_entries-IsUnique entries opts.sort u;
    held = λ _. (refl, refl);
    shows = inr refl;
  }

  open-IsLive :
      (id topic path : Bytes) (opts : ListOptions) (attach_on_open : Bool) (entries : List Entry)
      (w : Watch)
      → IsUnique entries
      → open_watch id topic path opts attach_on_open (some entries) ≡ some w
      → IsLive w (some (view g w))
  open-IsLive id topic path opts attach_on_open entries w u e =
      subst (λ x. IsLive x (some (view g x)))
        (open_watch-some id topic path opts attach_on_open entries w e)
        (opened-IsLive id topic path opts attach_on_open entries u)

  -- A client that lists a watch when it is opened over entries with unique names, and then receives
  -- every batch in order through any history of flushes, resyncs, enrichments, losses and attachments,
  -- shows exactly the current view, or has been told to list again, whenever it is subscribed. A
  -- looked up entry has the name looked up, a listing read again has unique names, and an enriched
  -- entry keeps what decides whether the entry of its name and time is shown.
  pub Run-Shows :
      (id topic path : Bytes) (opts : ListOptions) (attach_on_open : Bool) (entries : List Entry)
      (w v : Watch) (r : Replica)
      → IsUnique entries
      → open_watch id topic path opts attach_on_open (some entries) ≡ some w
      → Run w (some (view g w)) v r
      → v.subscribed ≡ true
      → Shows (view g v) r
  Run-Shows id topic path opts attach_on_open entries w v r u e run sub =
      let live = Run-IsLive (open-IsLive id topic path opts attach_on_open entries w u e) run in
      let held = live.held sub in
      let now : caught_up v r ≡ r = unfold caught_up receive_all in rw (held.0, held.1) refl in
      subst (Shows (view g v)) now live.shows
