-- ===== src/Ipc/Bus.antt =====
-- ipc/bus.go: the event bus. A subscriber is known by a number, as a pointer would be; the store maps
-- numbers to subscribers, of which those never created count as closed. What the writer of a
-- subscriber's connection is given is kept in `received`. D is the type of an event's data.
pub mod Delivery
pub mod History
use dankgo.Prelude.{
  ℕ, zero, suc, Bool, true, false, not, ◌&&◌, ◌||◌, List, [], ◌∷◌, ◌++◌, if◌then◌else◌, ◌==◌, any,
  keep,
}
use dankgo.Prelude.Text.{Bytes, eqb}

pub record Event (D : Type 0) : Type 0 where
  pub topic : Bytes
  pub data_of : D

pub record Subscriber (D : Type 0) : Type 0 where
  pub topics : List Bytes
  pub closed : Bool
  pub received : List (Event D)

pub record EventBus (D : Type 0) : Type 0 where
  pub subscribers : List ℕ
  pub store : ℕ → Subscriber D
  pub count : ℕ

abbrev pub has_topic : List Bytes → Bytes → Bool
has_topic topics t = any (eqb t) topics

-- s.topics[t] = true and delete(s.topics, t).
abbrev pub add_topic : Bytes → List Bytes → List Bytes
add_topic t topics = if has_topic topics t then topics else t ∷ topics

abbrev pub drop_topic : Bytes → List Bytes → List Bytes
drop_topic t topics = keep (λ u. not (eqb t u)) topics

unfoldable pub add_topics : List Bytes → List Bytes → List Bytes
add_topics [] topics = topics
add_topics (t ∷ ts) topics = add_topics ts (add_topic t topics)

unfoldable pub drop_topics : List Bytes → List Bytes → List Bytes
drop_topics [] topics = topics
drop_topics (t ∷ ts) topics = drop_topics ts (drop_topic t topics)

module _ {D : Type 0} where
  abbrev pub put : ℕ → Subscriber D → (ℕ → Subscriber D) → ℕ → Subscriber D
  put i s store j = if j == i then s else store j

  abbrev pub unborn : Subscriber D
  unborn = record { topics = []; closed = true; received = [] }

  unfoldable pub new_event_bus : EventBus D
  new_event_bus = record { subscribers = []; store = λ i. unborn; count = 0 }

  -- The new subscriber is the number `count` of the bus before.
  unfoldable pub new_subscriber : EventBus D → EventBus D
  new_subscriber b = record {
    subscribers = b.count ∷ b.subscribers;
    store = put b.count (record { topics = []; closed = false; received = [] }) b.store;
    count = suc b.count;
  }

  unfoldable pub subscribe : ℕ → List Bytes → EventBus D → EventBus D
  subscribe i topics b =
      let s = b.store i in
      record b { store = put i (record s { topics = add_topics topics s.topics }) b.store }

  unfoldable pub unsubscribe : ℕ → List Bytes → EventBus D → EventBus D
  unsubscribe i topics b =
      let s = b.store i in
      record b { store = put i (record s { topics = drop_topics topics s.topics }) b.store }

  unfoldable pub close : ℕ → EventBus D → EventBus D
  close i b =
      let s = b.store i in
      let closed = record b {
        subscribers = keep (λ j. not (j == i)) b.subscribers;
        store = put i (record s { closed = true }) b.store;
      } in
      if s.closed then b else closed

  -- What deliver does to the subscriber.
  unfoldable pub receive : Event D → Subscriber D → Subscriber D
  receive ev s =
      if s.closed || not (has_topic s.topics ev.topic)
      then s
      else record s { received = s.received ++ ev ∷ [] }

  unfoldable pub deliver : Event D → ℕ → (ℕ → Subscriber D) → ℕ → Subscriber D
  unfolding receive
  deliver ev i store = put i (receive ev (store i)) store

  unfoldable pub deliver_all : Event D → List ℕ → (ℕ → Subscriber D) → ℕ → Subscriber D
  unfolding deliver
  deliver_all ev [] store = store
  deliver_all ev (i ∷ ids) store = deliver_all ev ids (deliver ev i store)

  unfoldable pub publish : Bytes → D → EventBus D → EventBus D
  unfolding deliver_all
  publish topic data_of b = record b {
    store = deliver_all (record { topic = topic; data_of = data_of }) b.subscribers b.store;
  }

  unfoldable pub has_subscriber : Bytes → EventBus D → Bool
  has_subscriber topic b =
      any (λ i. not (b.store i).closed && has_topic (b.store i).topics topic) b.subscribers
