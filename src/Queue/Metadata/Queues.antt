-- ===== src/Queue/Metadata/Queues.antt =====
-- engine/queue/metadata.go: AddQueue and DelQueue.
use wqs.Common.{
  ℕ, Bool, true, false, not, ◌||◌, Option, none, some, List, [], ◌∷◌, ◌++◌, Bytes, if◌then◌else◌,
}
use wqs.Common.Int.{ℤ, pos}
use wqs.Common.Eq.{bytes_key, bytes_eq}
use wqs.Common.Dict.{Dict, lookup, erase}
use wqs.Engine.{
  Error, already_exists, not_found, not_valid, Result, ok, err, Done, ◌>>◌, throw, throw_if,
  for_each,
}
use wqs.Zookeeper
use wqs.Kafka.Manager
use wqs.Kafka.Manager.Topics.{exist_topic, create_topic, delete_topic}
use wqs.Queue.Config.{QueueConfig}
use wqs.Queue.Metadata.{Metadata, Clients, State, lift, locked, refresh_metadata, build_queue_path}
use wqs.Queue.Metadata.Views.{exist_queue, can_delete_queue, is_there}

unfoldable pub contains : List Bytes → Bytes → Bool
contains [] it = false
contains (item ∷ items) it = bytes_eq item it || contains items it

-- `appendIfNotContains`
unfoldable pub append_if_not_contains : List Bytes → Bytes → List Bytes
append_if_not_contains items it = if contains items it then items else items ++ (it ∷ [])

abbrev pub or_local : Metadata → List Bytes → List Bytes
or_local m [] = m.local ∷ []
or_local m (idc ∷ idcs) = idc ∷ idcs

-- The IDCs of a new queue: the local one is always among them.
unfoldable pub idcs_of : Metadata → List Bytes → List Bytes
idcs_of m idcs = append_if_not_contains (or_local m idcs) m.local

unfoldable pub all_known : Dict Bytes Manager.Manager → List Bytes → Bool
all_known managers [] = true
all_known managers (idc ∷ idcs) =
    let rest = all_known managers idcs in if is_there (lookup managers idc) then rest else false

-- The random numbers of a new topic, by the IDC that it is created in.
abbrev pub Random : Type 0
Random = Bytes → ℤ × ℤ

module _ {W : Type 0} (c : Clients W) where
  abbrev pub exists_there : Result Bool → Bool
  exists_there (ok exist) = exist
  exists_there (err e) = false

  -- A topic that exists is left alone; an error of ExistTopic counts as missing. A manager that is
  -- not there would be a nil pointer.
  abbrev pub create_in : Random → Metadata → Bytes → Bytes → Option Manager.Manager → Done W
  create_in random m queue idc none w = (w, err Error.panicked)
  create_in random m queue idc (some manager) w =
      let (w', exist) = exist_topic (c.kafka idc) queue w in
      if exists_there exist
      then (w', ok tt)
      else create_topic (c.kafka_zk idc) c.kafka_encoding (random idc).0 (random idc).1 manager
          queue m.replications m.partitions w'

  unfoldable pub create_topics : Random → Metadata → Bytes → List Bytes → Done W
  create_topics random m queue idcs =
      for_each (λ idc. create_in random m queue idc (lookup m.managers idc)) idcs

  abbrev pub config_of : Bytes → ℤ → List Bytes → QueueConfig
  config_of queue now idcs = record {
    queue = queue;
    ctime = now;
    length = pos 0;
    groups = [];
    idcs = idcs;
  }

  -- The topics, then the node of the queue; nothing is undone at an error.
  abbrev pub build_queue : Random → ℤ → Bytes → List Bytes → Done (State W)
  build_queue random now queue idcs (m, w) =
      (do
        lift (create_topics random m queue idcs)
        lift (
            Zookeeper.create_recursive c.zk (build_queue_path m queue)
              (c.encoding.queue_string (config_of queue now idcs)) 0))
        (m, w)

  abbrev pub build_known : Random → ℤ → Bytes → List Bytes → Done (State W)
  build_known random now queue idcs (m, w) =
      (do throw_if (not (all_known m.managers idcs)) not_found; build_queue random now queue idcs)
        (m, w)

  abbrev pub create_queue : Random → ℤ → Bytes → List Bytes → Done (State W)
  create_queue random now queue idcs (m, w) =
      (do
        throw_if (exist_queue m queue) already_exists
        build_known random now queue (idcs_of m idcs))
        (m, w)

  abbrev pub add_queue_body : Random → ℤ → Bytes → List Bytes → Done (State W)
  add_queue_body random now queue idcs = do refresh_metadata c; create_queue random now queue idcs

  -- `now` is the clock.
  unfoldable pub add_queue : Random → ℤ → Bytes → List Bytes → Done (State W)
  add_queue random now queue idcs = locked c (add_queue_body random now queue idcs)

  abbrev pub deletable : Result Bool → Done (State W)
  deletable (err e) = throw e
  deletable (ok can) = throw_if (not can) not_valid

  abbrev pub delete_in : Metadata → Bytes → Option Manager.Manager → Done (State W)
  delete_in m queue none = throw Error.panicked
  delete_in m queue (some manager) =
      lift (delete_topic (c.kafka_zk m.local) c.kafka_encoding manager queue)

  abbrev pub forget_queue : Bytes → Done (State W)
  forget_queue queue (m, w) = ((record m { queue_configs = erase m.queue_configs queue }, w), ok tt)

  abbrev pub remove_queue : ℕ → Bytes → Done (State W)
  remove_queue fuel queue (m, w) =
      (do
        lift (Zookeeper.delete_recursive c.zk fuel (build_queue_path m queue))
        forget_queue queue
        delete_in m queue (lookup m.managers m.local))
        (m, w)

  abbrev pub delete_queue : ℕ → Bytes → Done (State W)
  delete_queue fuel queue (m, w) =
      (do deletable (can_delete_queue m queue); remove_queue fuel queue) (m, w)

  abbrev pub del_queue_body : ℕ → Bytes → Done (State W)
  del_queue_body fuel queue = do refresh_metadata c; delete_queue fuel queue

  unfoldable pub del_queue : ℕ → Bytes → Done (State W)
  del_queue fuel queue = locked c (del_queue_body fuel queue)
