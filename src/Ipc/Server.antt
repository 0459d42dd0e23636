-- ===== src/Ipc/Server.antt =====
-- ipc/server.go: the dispatch of a request. H is the type of a handler; what the connection's writer is
-- given, and the handler that is called, are the reply. OnSubscribe is left to the application.
pub mod Topics
use dankgo.Prelude.{Bool, true, false, Option, none, some, List, [], ◌∷◌, if◌then◌else◌, ℕ}
use dankgo.Prelude.Text.{Bytes, eqb, codes}
use dankgo.Ipc.Bus.{EventBus, subscribe, unsubscribe}
use dankgo.Ipc.Params.{Value, string_slice}

pub record Request : Type 0 where
  pub id : ℕ
  pub method : Bytes
  pub params : List (Bytes × Value)

pub record Config (H : Type 0) : Type 0 where
  pub default_subscribe_topics : List Bytes
  pub subscribe_handler : Option H
  pub handler : Option H

pub data Reply (H : Type 0) : Type 0 where
  pong : Reply H
  topics_now : List Bytes → Reply H
  unknown_method : Bytes → Reply H
  passed_to : H → Reply H

abbrev pub or_default : List Bytes → List Bytes → List Bytes
or_default [] fallback = fallback
or_default (t ∷ ts) fallback = t ∷ ts

module _ {D H : Type 0} where
  -- The topics of the request, or the configured ones where it has none.
  unfoldable pub handle_subscribe : Config H → Request → ℕ → EventBus D → EventBus D × Reply H
  handle_subscribe cfg req sub b =
      let topics =
        or_default (string_slice req.params (codes "topics")) cfg.default_subscribe_topics in
      let b' = subscribe sub topics b in (b', topics_now (b'.store sub).topics)

  abbrev pub unsubscribe_all : List Bytes → ℕ → EventBus D → EventBus D × Reply H
  unsubscribe_all [] sub b = (b, topics_now (b.store sub).topics)
  unsubscribe_all (t ∷ ts) sub b =
      let b' = unsubscribe sub (t ∷ ts) b in (b', topics_now (b'.store sub).topics)

  unfoldable pub handle_unsubscribe : Request → ℕ → EventBus D → EventBus D × Reply H
  handle_unsubscribe req sub b = unsubscribe_all (string_slice req.params (codes "topics")) sub b

  abbrev pub by_handler : Request → EventBus D → Option H → EventBus D × Reply H
  by_handler req b none = (b, unknown_method req.method)
  by_handler req b (some h) = (b, passed_to h)

  abbrev pub unless_handled : EventBus D → Option H → EventBus D × Reply H → EventBus D × Reply H
  unless_handled b none out = out
  unless_handled b (some h) out = (b, passed_to h)

  unfoldable pub dispatch : Config H → Request → ℕ → EventBus D → EventBus D × Reply H
  unfolding handle_subscribe handle_unsubscribe
  dispatch cfg req sub b =
      if eqb req.method (codes "ping")
      then (b, pong)
      else if eqb req.method (codes "subscribe")
      then unless_handled b cfg.subscribe_handler (handle_subscribe cfg req sub b)
      else if eqb req.method (codes "unsubscribe")
      then unless_handled b cfg.subscribe_handler (handle_unsubscribe req sub b)
      else by_handler req b cfg.handler
