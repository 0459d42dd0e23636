-- ===== src/Ipc/Server/Topics.antt =====
-- The topics of a subscriber after its requests.
use dankgo.Prelude.{
  ℕ, ◌≡◌, refl, sym, ap, ◌∙◌, true, false, not, ◌&&◌, ◌||◌, List, [], ◌∷◌, arith, Bool-cases, inl,
  inr,
}
use mathlib.Core.Bool.{true≢false}
use dankgo.Prelude.Text.{Bytes, eqb, codes, eqb_iff}
use dankgo.Ipc.Bus.{
  EventBus, Subscriber, has_topic, add_topic, drop_topic, add_topics, drop_topics, subscribe,
  unsubscribe, put,
}
use dankgo.Ipc.Params.{string_slice}
use dankgo.Ipc.Server.{
  Request, Config, Reply, topics_now, or_default, handle_subscribe, handle_unsubscribe,
  unsubscribe_all,
}

has_topic-same :
    (topics : List Bytes) (t u : Bytes) → eqb u t ≡ true → has_topic topics u ≡ has_topic topics t
has_topic-same topics t u h = ap (has_topic topics) ((eqb_iff u t).0 h)

has_topic-add_topic :
    (t u : Bytes) (topics : List Bytes)
    → has_topic (add_topic t topics) u ≡ (eqb u t || has_topic topics u)
has_topic-add_topic t u topics = ground (arith, has_topic-same topics t u)

same_topic : (t x u : Bytes) → eqb t x ≡ true → eqb u x ≡ eqb u t
same_topic t x u h = ap (eqb u) (sym ((eqb_iff t x).0 h))

apart : (t x u : Bytes) → eqb t x ≡ false → eqb u t ≡ true → eqb u x ≡ false
apart t x u h k = elim (Bool-cases (eqb u x)) [
  | inl e ↦
      absurd (true≢false (sym ((eqb_iff t x).1 (sym ((eqb_iff u t).0 k) ∙ (eqb_iff u x).0 e)) ∙ h))
  | inr e ↦ e
]

has_topic-drop_topic :
    (t u : Bytes) (topics : List Bytes)
    → has_topic (drop_topic t topics) u ≡ (not (eqb u t) && has_topic topics u)
has_topic-drop_topic t u [] = ground arith
has_topic-drop_topic t u (x ∷ xs) =
    ground (arith, has_topic-drop_topic t u xs, same_topic t x u, apart t x u)

has_topic-add_topics :
    (ts topics : List Bytes) (u : Bytes)
    → has_topic (add_topics ts topics) u ≡ (has_topic ts u || has_topic topics u)
unfolding add_topics
has_topic-add_topics [] topics u = refl
has_topic-add_topics (t ∷ ts) topics u =
    has_topic-add_topics ts (add_topic t topics) u
    ∙ (ap (λ b. has_topic ts u || b) (has_topic-add_topic t u topics) ∙ ground arith)

has_topic-drop_topics :
    (ts topics : List Bytes) (u : Bytes)
    → has_topic (drop_topics ts topics) u ≡ (not (has_topic ts u) && has_topic topics u)
unfolding drop_topics
has_topic-drop_topics [] topics u = refl
has_topic-drop_topics (t ∷ ts) topics u =
    has_topic-drop_topics ts (drop_topic t topics) u
    ∙ (ap (λ b. not (has_topic ts u) && b) (has_topic-drop_topic t u topics) ∙ ground arith)

module _ {D : Type 0} where
  at_self : (i : ℕ) (s : Subscriber D) (store : ℕ → Subscriber D) → put i s store i ≡ s
  at_self i s store = ground arith

module _ {D H : Type 0} where
  -- The topics of a subscriber that a reply lists are the topics that it has.
  abbrev pub Replied : ℕ → EventBus D × Reply H → Type 0
  Replied sub out = out.1 ≡ topics_now (out.0.store sub).topics

  -- Subscribing adds the topics of the request, or the configured ones where it names none, to those
  -- that the subscriber has, takes none away, and answers with the topics that it has then.
  handle_subscribe-has_topic :
      (cfg : Config H) (req : Request) (sub : ℕ) (b : EventBus D) (u : Bytes)
      → let out = handle_subscribe cfg req sub b in
        (has_topic (out.0.store sub).topics u ≡ (
          has_topic
            (or_default (string_slice req.params (codes "topics")) cfg.default_subscribe_topics)
            u
          || has_topic (b.store sub).topics u))
        × Replied sub out
  unfolding handle_subscribe subscribe
  handle_subscribe-has_topic cfg req sub b u =
      let ts = or_default (string_slice req.params (codes "topics")) cfg.default_subscribe_topics in
      let s = b.store sub in
      (
        ap (λ (x : Subscriber D). has_topic x.topics u)
              (at_self sub (record s { topics = add_topics ts s.topics }) b.store)
            ∙ has_topic-add_topics ts s.topics u,
        refl,
      )

  unsubscribe_all-has_topic :
      (ts : List Bytes) (sub : ℕ) (b : EventBus D) (u : Bytes)
      → let out = unsubscribe_all {H = H} ts sub b in
        (has_topic (out.0.store sub).topics u
          ≡ (not (has_topic ts u) && has_topic (b.store sub).topics u))
        × Replied sub out
  unfolding unsubscribe
  unsubscribe_all-has_topic [] sub b u = (refl, refl)
  unsubscribe_all-has_topic (t ∷ ts) sub b u =
      let s = b.store sub in
      (
        ap (λ (x : Subscriber D). has_topic x.topics u)
              (at_self sub (record s { topics = drop_topics (t ∷ ts) s.topics }) b.store)
            ∙ has_topic-drop_topics (t ∷ ts) s.topics u,
        refl,
      )

  -- Unsubscribing takes exactly the topics of the request away, none where it names none, and answers
  -- with the topics that are left.
  handle_unsubscribe-has_topic :
      (req : Request) (sub : ℕ) (b : EventBus D) (u : Bytes)
      → let out = handle_unsubscribe {H = H} req sub b in
        (has_topic (out.0.store sub).topics u ≡ (
          not (has_topic (string_slice req.params (codes "topics")) u)
          && has_topic (b.store sub).topics u))
        × Replied sub out
  unfolding handle_unsubscribe
  handle_unsubscribe-has_topic req sub b u =
      unsubscribe_all-has_topic (string_slice req.params (codes "topics")) sub b u

  -- Subscribing adds the topics of the request, or the configured ones where it names none, to those that the
  -- subscriber has, and takes none away; unsubscribing takes exactly the topics of the request away, none where
  -- it names none. Both answer with the topics that the subscriber has then.
  pub handle-has_topic :
      (cfg : Config H) (req : Request) (sub : ℕ) (b : EventBus D) (u : Bytes)
      → let subscribed = handle_subscribe cfg req sub b in
        let unsubscribed = handle_unsubscribe {H = H} req sub b in
        ((has_topic (subscribed.0.store sub).topics u ≡ (
            has_topic
              (or_default (string_slice req.params (codes "topics")) cfg.default_subscribe_topics)
              u
            || has_topic (b.store sub).topics u))
          × Replied sub subscribed)
        × ((has_topic (unsubscribed.0.store sub).topics u ≡ (
              not (has_topic (string_slice req.params (codes "topics")) u)
              && has_topic (b.store sub).topics u))
            × Replied sub unsubscribed)
  handle-has_topic cfg req sub b u =
      (handle_subscribe-has_topic cfg req sub b u, handle_unsubscribe-has_topic req sub b u)
