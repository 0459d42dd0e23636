-- ===== src/Ipc/Bus/History.antt =====
-- The bus through any history of its operations.
use dankgo.Prelude.{
  ℕ, ◌≤◌, ◌+◌, ◌≡◌, refl, sym, ◌∙◌, ap, true, not, List, arith, ◌==◌, Bool-cases, inl, inr,
}
use dankgo.Prelude.Text.{Bytes}
use dankgo.Ipc.Bus.{
  Subscriber, EventBus, put, new_event_bus, new_subscriber, subscribe, unsubscribe, close, receive,
  publish, add_topics, drop_topics,
}
use dankgo.Ipc.Bus.Delivery.{has_id-keep, keep-IsDistinct, IsBus, publish-receive}

new_event_bus-IsBus : (D : Type 0) → IsBus (new_event_bus {D = D})
unfolding new_event_bus
new_event_bus-IsBus D = record { distinct = tt; known = λ i. refl; unused = λ i h. refl }

module _ {D : Type 0} where
  -- One operation of the bus.
  pub data Step : EventBus D → EventBus D → Type 0 where
    created : (b : EventBus D) → Step b (new_subscriber b)
    subscribed : (i : ℕ) (topics : List Bytes) (b : EventBus D) → Step b (subscribe i topics b)
    unsubscribed : (i : ℕ) (topics : List Bytes) (b : EventBus D) → Step b (unsubscribe i topics b)
    closed_one : (i : ℕ) (b : EventBus D) → Step b (close i b)
    published : (topic : Bytes) (data_of : D) (b : EventBus D) → Step b (publish topic data_of b)

  pub data Run : EventBus D → Type 0 where
    start : Run new_event_bus
    next : {a b : EventBus D} → Run a → Step a b → Run b

  new_subscriber-IsBus : (b : EventBus D) → IsBus b → IsBus (new_subscriber b)
  unfolding new_subscriber
  new_subscriber-IsBus b v = record {
    distinct = (ground (arith, v.known b.count, v.unused b.count), v.distinct);
    known = λ i. ground (arith, v.known i);
    unused = λ i h. ground (arith, v.unused i);
  }

  -- Changing the topics of a subscriber.
  retopic-IsBus :
      (i : ℕ) (topics : List Bytes) (b : EventBus D)
      → IsBus b
      → IsBus (record b { store = put i (record (b.store i) { topics = topics }) b.store })
  retopic-IsBus i topics b v = record {
    distinct = v.distinct;
    known = λ j. ground (arith, v.known j, v.known i, same j);
    unused = λ j h. ground (arith, v.unused j, same j);
  }
    where
      same : (j : ℕ) → (j == i) ≡ true → (b.store i).closed ≡ (b.store j).closed
      same j e = ap (λ x. (b.store x).closed) (ground arith)

  close-IsBus : (i : ℕ) (b : EventBus D) → IsBus b → IsBus (close i b)
  unfolding close
  close-IsBus i b v = elim (Bool-cases (b.store i).closed) [
    | inl h ↦ rw h v
    | inr h ↦ rw h record {
      distinct = keep-IsDistinct i b.subscribers v.distinct;
      known = λ j. ground (arith, v.known j, has_id-keep i j b.subscribers);
      unused = λ j k. ground (arith, v.unused j);
    }
  ]

  publish-closed :
      (topic : Bytes) (data_of : D) (b : EventBus D) (i : ℕ)
      → IsBus b
      → ((publish topic data_of b).store i).closed ≡ (b.store i).closed
  unfolding receive
  publish-closed topic data_of b i v =
      ap (λ (s : Subscriber D). s.closed) (publish-receive topic data_of b i v) ∙ ground arith

  publish-IsBus :
      (topic : Bytes) (data_of : D) (b : EventBus D) → IsBus b → IsBus (publish topic data_of b)
  unfolding publish
  publish-IsBus topic data_of b v = record {
    distinct = v.distinct;
    known = λ i. v.known i ∙ ap not (sym (publish-closed topic data_of b i v));
    unused = λ i h. publish-closed topic data_of b i v ∙ v.unused i h;
  }

  Step-IsBus : (a b : EventBus D) → Step a b → IsBus a → IsBus b
  unfolding subscribe unsubscribe
  Step-IsBus a b (created _) v = new_subscriber-IsBus a v
  Step-IsBus a b (subscribed i ts _) v = retopic-IsBus i (add_topics ts (a.store i).topics) a v
  Step-IsBus a b (unsubscribed i ts _) v = retopic-IsBus i (drop_topics ts (a.store i).topics) a v
  Step-IsBus a b (closed_one i _) v = close-IsBus i a v
  Step-IsBus a b (published t d _) v = publish-IsBus t d a v

  -- In every history the bus lists each open subscriber once and no closed one.
  pub Run-IsBus : (b : EventBus D) → Run b → IsBus b
  Run-IsBus b start = new_event_bus-IsBus D
  Run-IsBus b (next r s) = Step-IsBus _ b s (Run-IsBus _ r)

  -- On a bus in its invariant, one operation leaves a subscriber that was created and closed as closed,
  -- with what it had received.
  pub closed-Step :
      (a b : EventBus D) (i : ℕ)
      → IsBus a
      → Step a b
      → (a.store i).closed ≡ true
      → i + 1 ≤ a.count
      → ((b.store i).closed ≡ true) × ((b.store i).received ≡ (a.store i).received)
  unfolding new_subscriber subscribe unsubscribe close receive
  closed-Step a b i v (created _) h k = (ground arith, ground arith)
  closed-Step a b i v (subscribed j ts _) h k = (ground (arith, same j), ground (arith, same j))
    where
      same : (j : ℕ) → (i == j) ≡ true → a.store j ≡ a.store i
      same j e = ap a.store (ground arith)
  closed-Step a b i v (unsubscribed j ts _) h k = (ground (arith, same j), ground (arith, same j))
    where
      same : (j : ℕ) → (i == j) ≡ true → a.store j ≡ a.store i
      same j e = ap a.store (ground arith)
  closed-Step a b i v (closed_one j _) h k = (ground (arith, same j), ground (arith, same j))
    where
      same : (j : ℕ) → (i == j) ≡ true → a.store j ≡ a.store i
      same j e = ap a.store (ground arith)
  closed-Step a b i v (published t d _) h k =
      let e = publish-receive t d a i v in
      (publish-closed t d a i v ∙ h, ap (λ (s : Subscriber D). s.received) e ∙ ground arith)
