-- ===== src/Registry/State.antt =====
-- src/server/session-registry.ts: SessionRegistry, and the commands of its actors, whose events it
-- handles. An actor is an object that both maps share: they hold its place in `objects`.
use pipane.Base.{
  ℕ, ◌+◌, Option, none, some, List, [], ◌∷◌, if◌then◌else◌, contains, without, same, is_some,
  Result, ok, err,
}
use pipane.Base.Dict.{Dict, get, put, remove}
use pipane.Session.Phase.{
  Phase, Lease, ActorEvent, phase_change, attached, detached_from, steering_queue_update, Effect,
  emits,
}
use pipane.Session.Actor.{Document, Actor, new_actor}
use pipane.Session.Mailbox.{Command, perform}

pub data Status : Type 0 where
  running done : Status

pub data RegistryEvent : Type 0 where
  session_attached session_detached : (session_path process : ℕ) → RegistryEvent
  status_change : (session_path : ℕ) → Status → RegistryEvent
  phase_changes : (session_path : ℕ) → Phase → RegistryEvent
  queue_update : (session_path : ℕ) → List ℕ → RegistryEvent

-- A SessionActor with its path. Its log is handled after each command, and starts anew.
pub record Object (Doc : Type 0) : Type 0 where
  pub session_path : ℕ
  pub actor : Actor Doc

-- `emitted` lists what the listeners were given, the newest first.
pub record Registry (Doc : Type 0) : Type 0 where
  pub actors : Dict ℕ
  pub actors_by_process : Dict ℕ
  pub pending_actors : List ℕ
  pub statuses : Dict Status
  pub emitted : List RegistryEvent
  pub objects : Dict (Object Doc)
  pub next_object : ℕ

pub data RegistryError : Type 0 where
  still_attached : RegistryError

-- The process of an actor's lease.
abbrev pub leased : Option Lease → Option ℕ
leased none = none
leased (some l) = some l.process

module _ {Doc : Type 0} where
  abbrev pub emit : RegistryEvent → Registry Doc → Registry Doc
  emit e r = record r { emitted = e ∷ r.emitted }

  abbrev create : ℕ → Registry Doc → ℕ × Registry Doc
  create path r = (
    r.next_object,
    record r {
      actors = put path r.next_object r.actors;
      objects = put r.next_object (record { session_path = path; actor = new_actor }) r.objects;
      next_object = r.next_object + 1;
    },
  )

  abbrev pub use_or_create : Option ℕ → ℕ → Registry Doc → ℕ × Registry Doc
  use_or_create none path r = create path r
  use_or_create (some o) path r = (o, r)

  -- getOrCreate, get
  unfoldable pub get_or_create : ℕ → Registry Doc → ℕ × Registry Doc
  get_or_create path r = use_or_create (get path r.actors) path r

  abbrev pub use_or_own : Option ℕ → ℕ → Registry Doc → ℕ × Registry Doc
  use_or_own (some o) path r = (o, r)
  use_or_own none path r = get_or_create path (record r {
    pending_actors =
        if contains path r.pending_actors then r.pending_actors else path ∷ r.pending_actors;
  })

  -- getPending
  unfoldable pub get_pending : ℕ → Registry Doc → ℕ × Registry Doc
  get_pending path r = use_or_own (get path r.actors) path r

  abbrev pub lease_of : Option (Object Doc) → Option Lease
  lease_of none = none
  lease_of (some object) = object.actor.lease

  abbrev pub object_at : Option ℕ → Registry Doc → Option (Object Doc)
  object_at none r = none
  object_at (some o) r = get o r.objects

  -- publishAttached
  unfoldable pub publish_attached : (path process : ℕ) → Registry Doc → Registry Doc
  publish_attached path p r =
      emit (session_attached path p)
        (emit (status_change path running) (record r { statuses = put path running r.statuses }))

  abbrev pub promote_with : Option Lease → ℕ → Registry Doc → Registry Doc
  promote_with none path r = r
  promote_with (some l) path r = publish_attached path l.process r

  -- promotePending
  unfoldable pub promote_pending : ℕ → Registry Doc → Registry Doc
  promote_pending path r =
      if contains path r.pending_actors
      then promote_with (lease_of (object_at (get path r.actors) r)) path
          (record r { pending_actors = without path r.pending_actors })
      else r

  -- discardPending
  unfoldable pub discard_pending : ℕ → Registry Doc → Result RegistryError (Unit {0}) × Registry Doc
  discard_pending path r =
      if contains path r.pending_actors
      then (if is_some (lease_of (object_at (get path r.actors) r))
          then (err still_attached, r)
          else (
            ok tt,
            record r {
              pending_actors = without path r.pending_actors;
              actors = remove path r.actors;
            },
          ))
      else (ok tt, r)

  -- handleActorEvent, for the actor at `o`.
  unfoldable pub handle_actor_event : (o path : ℕ) → ActorEvent → Registry Doc → Registry Doc
  handle_actor_event o path (attached p) r =
      let indexed = record r { actors_by_process = put p o r.actors_by_process } in
      if contains path r.pending_actors then indexed else publish_attached path p indexed
  handle_actor_event o path (detached_from p) r =
      let freed = record r {
        actors_by_process =
            if same (get p r.actors_by_process) (some o)
            then remove p r.actors_by_process
            else r.actors_by_process;
      } in
      if contains path r.pending_actors
      then record freed {
        pending_actors = without path r.pending_actors;
        actors = remove path r.actors;
      }
      else emit (session_detached path p)
          (emit (status_change path done) (record freed { statuses = put path done r.statuses }))
  handle_actor_event o path (phase_change phase) r = emit (phase_changes path phase) r
  handle_actor_event o path (steering_queue_update queue) r = emit (queue_update path queue) r

  -- What a command did to the outside, the oldest first.
  unfoldable pub handle_effects : (o path : ℕ) → List Effect → Registry Doc → Registry Doc
  handle_effects o path [] r = r
  handle_effects o path (emits e ∷ log) r =
      handle_actor_event o path e (handle_effects o path log r)
  handle_effects o path (_ ∷ log) r = handle_effects o path log r

-- What is done with the registry and with the actors that it gave out.
pub data RegistryCall (Doc : Type 0) : Type 0 where
  gets gets_pending promotes discards : (path : ℕ) → RegistryCall Doc
  commands : (object : ℕ) → Command Doc → RegistryCall Doc

module _ {Doc : Type 0} (api : Document Doc) where
  abbrev pub run_command : Command Doc → Actor Doc → Actor Doc
  run_command c a = (perform api c (record a { log = [] })).1

  unfoldable pub command : ℕ → Command Doc → Option (Object Doc) → Registry Doc → Registry Doc
  command o c none r = r
  command o c (some object) r =
      let actor = run_command c object.actor in
      handle_effects o object.session_path actor.log
        (record r { objects = put o (record object { actor = actor }) r.objects })

  unfoldable pub call : RegistryCall Doc → Registry Doc → Registry Doc
  call (gets path) r = (get_or_create path r).1
  call (gets_pending path) r = (get_pending path r).1
  call (promotes path) r = promote_pending path r
  call (discards path) r = (discard_pending path r).1
  call (commands o c) r = command o c (get o r.objects) r

  unfoldable pub run_calls : List (RegistryCall Doc) → Registry Doc → Registry Doc
  run_calls [] r = r
  run_calls (c ∷ cs) r = run_calls cs (call c r)
