-- ===== src/Ipc/Bus/Delivery.antt =====
-- The bus knows exactly its open subscribers, and publishing reaches each of them once.
use dankgo.Prelude.{
  ℕ, ◌≤◌, ◌≡◌, refl, sym, ◌∙◌, ap, inl, inr, Bool, true, false, not, ◌&&◌, List, [], ◌∷◌, arith,
  ◌==◌, any, keep, Bool-cases, subst, append-nil, if◌then◌else◌, ◌++◌,
}
use dankgo.Prelude.Text.{Bytes}
use dankgo.Ipc.Bus.{
  Event, Subscriber, EventBus, has_topic, put, receive, deliver, deliver_all, publish,
}

abbrev pub has_id : List ℕ → ℕ → Bool
has_id ids i = any (λ j. i == j) ids

abbrev pub IsDistinct : List ℕ → Type 0
IsDistinct [] = Unit
IsDistinct (i ∷ ids) = (has_id ids i ≡ false) × IsDistinct ids

pub has_id-keep :
    (i j : ℕ) (ids : List ℕ)
    → has_id (keep (λ x. not (x == i)) ids) j ≡ (has_id ids j && not (j == i))
has_id-keep i j [] = refl
has_id-keep i j (x ∷ ids) = ground (arith, has_id-keep i j ids)

pub keep-IsDistinct :
    (i : ℕ) (ids : List ℕ) → IsDistinct ids → IsDistinct (keep (λ x. not (x == i)) ids)
keep-IsDistinct i [] u = tt
keep-IsDistinct i (x ∷ ids) (h, u) = ground (arith, keep-IsDistinct i ids u, has_id-keep i x ids)

at_same : (i j : ℕ) → (i == j) ≡ true → i ≡ j
at_same i j h = ground arith

module _ {D : Type 0} where
  pub record IsBus (b : EventBus D) : Type 0 where
    pub distinct : IsDistinct b.subscribers
    pub known : (i : ℕ) → has_id b.subscribers i ≡ not (b.store i).closed
    pub unused : (i : ℕ) → b.count ≤ i → (b.store i).closed ≡ true

  deliver_all-other :
      (ev : Event D) (ids : List ℕ) (store : ℕ → Subscriber D) (j : ℕ)
      → has_id ids j ≡ false
      → deliver_all ev ids store j ≡ store j
  unfolding deliver_all deliver
  deliver_all-other ev [] store j h = refl
  deliver_all-other ev (i ∷ ids) store j h =
      ground (arith, deliver_all-other ev ids (deliver ev i store) j)

  put_self : (i : ℕ) (s : Subscriber D) (store : ℕ → Subscriber D) → put i s store i ≡ s
  put_self i s store = ground arith

  put-other :
      (i j : ℕ) (s : Subscriber D) (store : ℕ → Subscriber D)
      → (j == i) ≡ false
      → put i s store j ≡ store j
  put-other i j s store h = rw h refl

  deliver_all-member :
      (ev : Event D) (ids : List ℕ) (store : ℕ → Subscriber D) (j : ℕ)
      → IsDistinct ids
      → has_id ids j ≡ true
      → deliver_all ev ids store j ≡ receive ev (store j)
  unfolding deliver_all deliver
  deliver_all-member ev [] store j u h = ground arith
  deliver_all-member ev (i ∷ ids) store j (n, u) h = elim (Bool-cases (j == i)) [
    | inl e ↦
        subst (λ x. deliver_all ev ids (deliver ev x store) j ≡ receive ev (store j))
          (at_same j i e)
          (deliver_all-other ev ids (deliver ev j store) j
              (subst (λ x. has_id ids x ≡ false) (sym (at_same j i e)) n)
            ∙ put_self j (receive ev (store j)) store)
    | inr e ↦
        deliver_all-member ev ids (deliver ev i store) j u (ground arith)
        ∙ ap (receive ev) (put-other i j (receive ev (store i)) store e)
  ]

  receive-closed : (ev : Event D) (s : Subscriber D) → s.closed ≡ true → receive ev s ≡ s
  unfolding receive
  receive-closed ev s h = ground arith

  -- One subscriber's share of a publication.
  pub publish-receive :
      (topic : Bytes) (data_of : D) (b : EventBus D) (i : ℕ)
      → IsBus b
      → (publish topic data_of b).store i
        ≡ receive (record { topic = topic; data_of = data_of }) (b.store i)
  unfolding publish
  publish-receive topic data_of b i v =
      let ev : Event D = record { topic = topic; data_of = data_of } in
      elim (Bool-cases (has_id b.subscribers i)) [
        | inl h ↦ deliver_all-member ev b.subscribers b.store i v.distinct h
        | inr h ↦
            deliver_all-other ev b.subscribers b.store i h
            ∙ sym (receive-closed ev (b.store i) (ground (arith, v.known i)))
      ]

  receive-received :
      (ev : Event D) (s : Subscriber D)
      → ((receive ev s).received
          ≡ s.received ++ (if not s.closed && has_topic s.topics ev.topic then ev ∷ [] else []))
        × ((receive ev s).topics ≡ s.topics)
        × ((receive ev s).closed ≡ s.closed)
  unfolding receive
  receive-received ev s = elim (Bool-cases s.closed) [
    | inl c ↦ rw c (sym (append-nil s.received), refl, refl)
    | inr c ↦ elim (Bool-cases (has_topic s.topics ev.topic)) [
      | inl h ↦ rw (c, h) (refl, refl, refl)
      | inr h ↦ rw (c, h) (sym (append-nil s.received), refl, refl)
    ]
  ]

  -- On a bus in its invariant, publishing appends the event once to what each subscriber that is open and
  -- subscribed to the topic has received, and appends nothing for any other; the topics of each subscriber and
  -- whether it is closed, the list of subscribers and the count are as they were.
  pub publish-received :
      (topic : Bytes) (data_of : D) (b : EventBus D) (i : ℕ)
      → IsBus b
      → let ev : Event D = record { topic = topic; data_of = data_of } in
        let s = b.store i in
        let after = publish topic data_of b in
        ((after.store i).received
          ≡ s.received ++ (if not s.closed && has_topic s.topics topic then ev ∷ [] else []))
        × ((after.store i).topics ≡ s.topics)
        × ((after.store i).closed ≡ s.closed)
        × (after.subscribers ≡ b.subscribers)
        × (after.count ≡ b.count)
  unfolding publish
  publish-received topic data_of b i v =
      let r = receive-received (record { topic = topic; data_of = data_of }) (b.store i) in
      let e = publish-receive topic data_of b i v in
      (
        ap (λ (s : Subscriber D). s.received) e ∙ r.0,
        ap (λ (s : Subscriber D). s.topics) e ∙ r.1,
        ap (λ (s : Subscriber D). s.closed) e ∙ r.2,
        refl,
        refl,
      )
