-- ===== src/Ipc/Samples.antt =====
-- A bus with two subscribers and a mux with two routes: the theorems of the package at a run.
use dankgo.Prelude.{ℕ, ◌≡◌, refl, true, none, some, [], ◌∷◌, if◌then◌else◌, ◌+◌, ◌≤◌, arith}
use dankgo.Prelude.Text.{codes, eqb, has_prefix}
use dankgo.Ipc.Bus.{
  Event, EventBus, new_event_bus, new_subscriber, subscribe, close, publish, add_topics,
}
use dankgo.Ipc.Bus.Delivery.{IsBus, publish-received}
use dankgo.Ipc.Bus.History.{
  Run, start, next, created, subscribed, closed_one, published, Run-IsBus, closed-Step,
}
use dankgo.Prelude.{◌||◌, ◌&&◌, not, ◌++◌}
use dankgo.Ipc.Bus.{has_topic}
use dankgo.Ipc.Params.{text, items, other, more, no_more, string_slice, texts_of}
use dankgo.Ipc.Server.{
  Request, Config, topics_now, or_default, handle_subscribe, handle_unsubscribe, dispatch,
}
use dankgo.Ipc.Server.Topics.{Replied, handle-has_topic}
use dankgo.Ipc.Mux.{Mux, new_mux, handle, handle_prefix, serve_ipc, or_prefix}
use dankgo.Ipc.Mux.Routing.{serve_ipc-registered}

abbrev b0 : EventBus ℕ
b0 = new_event_bus

abbrev b1 : EventBus ℕ
b1 = new_subscriber b0

abbrev b2 : EventBus ℕ
b2 = new_subscriber b1

-- The first subscriber listens to "files".
abbrev b3 : EventBus ℕ
b3 = subscribe 0 (codes "files" ∷ []) b2

-- The second is closed.
abbrev b4 : EventBus ℕ
b4 = close 1 b3

run4 : Run b4
run4 =
    next (next (next (next start (created b0)) (created b1)) (subscribed 0 (codes "files" ∷ []) b2))
      (closed_one 1 b3)

Run-IsBus_example : IsBus b4
Run-IsBus_example = Run-IsBus b4 run4

publish-received_example :
    let ev : Event ℕ = record { topic = codes "files"; data_of = 7 } in
    let s = b4.store 0 in
    let after = publish (codes "files") 7 b4 in
    ((after.store 0).received
      ≡ s.received ++ (if not s.closed && has_topic s.topics (codes "files") then ev ∷ [] else []))
    × ((after.store 0).topics ≡ s.topics)
    × ((after.store 0).closed ≡ s.closed)
    × (after.subscribers ≡ b4.subscribers)
    × (after.count ≡ b4.count)
publish-received_example = publish-received (codes "files") 7 b4 0 (Run-IsBus b4 run4)

is_closed : (b4.store 1).closed ≡ true
unfolding close subscribe new_subscriber new_event_bus
is_closed = refl

is_created : 1 + 1 ≤ b4.count
unfolding close subscribe new_subscriber new_event_bus
is_created = omega arith

closed-Step_example :
    (((publish (codes "files") 7 b4).store 1).closed ≡ true)
    × (((publish (codes "files") 7 b4).store 1).received ≡ (b4.store 1).received)
closed-Step_example =
    closed-Step b4 (publish (codes "files") 7 b4) 1 (Run-IsBus b4 run4)
      (published (codes "files") 7 b4) is_closed is_created

abbrev routes : Mux ℕ
routes = handle_prefix (codes "files.") 2 (handle (codes "ping") 1 new_mux)

routed : serve_ipc routes (codes "files.list") ≡ some 2
unfolding serve_ipc handle_prefix handle new_mux eqb has_prefix
routed = refl

serve_ipc-registered_example :
    (serve_ipc (handle (codes "files") 3 routes) (codes "files.list") ≡ (
      if eqb (codes "files") (codes "files.list")
      then some 3
      else serve_ipc routes (codes "files.list")))
    × (serve_ipc (handle_prefix (codes "files") 3 routes) (codes "files.list")
        ≡ or_prefix
            (serve_ipc routes (codes "files.list"))
            (if has_prefix (codes "files.list") (codes "files") then some 3 else none))
serve_ipc-registered_example = serve_ipc-registered routes (codes "files") (codes "files.list") 3

-- A request for the topics "files" and "apps", with a number between them.
abbrev request : Request
request = record {
  id = 1;
  method = codes "subscribe";
  params =
      (
        codes "topics",
        items (more (text (codes "files")) (more other (more (text (codes "apps")) no_more))),
      )
      ∷ [];
}

abbrev config : Config ℕ
config = record {
  default_subscribe_topics = codes "all" ∷ [];
  subscribe_handler = none;
  handler = none;
}

handle-has_topic_example :
    let subscribed = handle_subscribe config request 0 b4 in
    let unsubscribed = handle_unsubscribe {H = ℕ} request 0 b4 in
    ((has_topic (subscribed.0.store 0).topics (codes "apps") ≡ (
        has_topic
          (or_default
            (string_slice request.params (codes "topics"))
            config.default_subscribe_topics)
          (codes "apps")
        || has_topic (b4.store 0).topics (codes "apps")))
      × Replied 0 subscribed)
    × ((has_topic (unsubscribed.0.store 0).topics (codes "apps") ≡ (
          not (has_topic (string_slice request.params (codes "topics")) (codes "apps"))
          && has_topic (b4.store 0).topics (codes "apps")))
        × Replied 0 unsubscribed)
handle-has_topic_example = handle-has_topic config request 0 b4 (codes "apps")

subscribed_to : (dispatch config request 0 b4).1 ≡ topics_now (codes "apps" ∷ codes "files" ∷ [])
unfolding dispatch handle_subscribe subscribe string_slice texts_of eqb add_topics close
    new_subscriber new_event_bus
subscribed_to = refl
