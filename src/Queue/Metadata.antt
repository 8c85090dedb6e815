-- ===== src/Queue/Metadata.antt =====
-- engine/queue/metadata.go: `Metadata`, and how it is read from ZooKeeper. The clients of ZooKeeper
-- and of the Kafka of each IDC are records of operations; every IDC has a ZooKeeper for its Kafka.
-- A step holds the lock of the metadata, so that it sees one state of the queues.
pub mod Views
pub mod Groups
pub mod Queues
pub mod Services
pub mod Setup
pub mod Managers
pub mod Ready
pub mod Reads
pub mod Guards
pub mod GroupMap
pub mod Tests
use wqs.Common.{
  ℕ, ◌≡◌, Bool, true, false, not, Option, none, some, List, [], ◌∷◌, ◌++◌, Bytes, codes,
  if◌then◌else◌,
}
use wqs.Common.Int.{ℤ, pos}
use wqs.Common.Eq.{bytes_key, bytes_eq}
use wqs.Common.Dict.{Dict, lookup, insert, erase}
use wqs.Go.Strings.{split}
use wqs.Engine.{Error, Result, ok, err, Io, Done, ◌>>=◌, ◌>>◌, pure, throw, throw_if, continue}
use wqs.Zookeeper
use wqs.Zookeeper.{ZkPath, Client, Node}
use wqs.Kafka.Manager
use wqs.Kafka.Manager.{Sarama}
use wqs.Kafka.Manager.Topics.{exist_topic}
use wqs.Queue.Config.{GroupConfig, QueueConfig, StoredConfig, Encoding, seconds_of}

pub record Metadata : Type 0 where
  pub group_config_path : ZkPath
  pub queue_path : ZkPath
  pub service_path : ZkPath
  pub metrics_path : ZkPath
  pub operation_path : ZkPath
  pub local : Bytes
  pub managers : Dict Bytes Manager.Manager
  pub partitions : ℤ
  pub replications : ℤ
  pub id : ℤ
  pub queue_configs : Dict Bytes QueueConfig

-- The clients, with the Kafka and its ZooKeeper of each IDC.
pub record Clients (W : Type 0) : Type 0 where
  pub zk : Client W
  pub encoding : Encoding
  pub kafka : Bytes → Sarama W
  pub kafka_zk : Bytes → Client W
  pub kafka_encoding : Manager.Encoding

abbrev pub State : Type 0 → Type 0
State W = Metadata × W

abbrev pub build_config_path : Metadata → Bytes → Bytes → ZkPath
build_config_path m group queue = (group ++ (b'.' ∷ queue)) ∷ m.group_config_path

abbrev pub build_queue_path : Metadata → Bytes → ZkPath
build_queue_path m queue = queue ∷ m.queue_path

-- A call of the world in a step of the metadata.
abbrev pub lift : {W A : Type 0} → Io W A → Io (State W) A
lift f (m, w) = let (w', r) = f w in ((m, w'), r)

-- What `RefreshMetadata` makes of the data of a queue: an old version keeps what it has.
abbrev pub or_empty : {A : Type 0} → List A → Option (List A) → List A
or_empty xs none = xs
or_empty xs (some ys) = ys

abbrev pub queue_config_of : Metadata → Bytes → ℤ → StoredConfig × Bool → QueueConfig
queue_config_of m name ctime (c, true) = record {
  queue = name;
  ctime = seconds_of ctime;
  length = pos 0;
  groups = or_empty [] c.groups;
  idcs = or_empty (m.local ∷ []) c.idcs;
}
queue_config_of m name ctime (c, false) = record {
  queue = c.queue;
  ctime = c.ctime;
  length = c.length;
  groups = or_empty [] c.groups;
  idcs = or_empty (m.local ∷ []) c.idcs;
}

-- `queue.Groups[groupName] = groupConfig`, where the queue is known.
abbrev pub add_group_to :
    Dict Bytes QueueConfig
    → Bytes
    → Bytes
    → Option QueueConfig
    → GroupConfig
    → Dict Bytes QueueConfig
add_group_to configs queue group none g = configs
add_group_to configs queue group (some c) g =
    insert configs queue (record c { groups = insert c.groups group g })

abbrev pub group_read :
    Dict Bytes QueueConfig → Bytes → Bytes → Option GroupConfig → Dict Bytes QueueConfig
group_read configs queue group none = configs
group_read configs queue group (some g) = add_group_to configs queue group (lookup configs queue) g

module _ {W : Type 0} (c : Clients W) where
  -- The managers of all IDCs are refreshed; errors are only logged.
  unfoldable pub refresh_managers : Dict Bytes Manager.Manager → W → Dict Bytes Manager.Manager × W
  refresh_managers [] w = ([], w)
  refresh_managers ((idc, manager) ∷ managers) w =
      let ((manager', w'), r) =
        Manager.refresh_metadata (c.kafka_zk idc) c.kafka_encoding (c.kafka idc) (manager, w) in
      let (rest, w'') = refresh_managers managers w' in ((idc, manager') ∷ rest, w'')

  abbrev pub add_queue_if :
      Bool → Dict Bytes QueueConfig → Bytes → QueueConfig → Dict Bytes QueueConfig
  add_queue_if exist configs name q = if exist then insert configs name q else configs

  -- The queues that have a topic in the local Kafka.
  unfoldable pub read_queues :
      Metadata → List Bytes → Dict Bytes QueueConfig → Io W (Dict Bytes QueueConfig)
  read_queues m [] configs = pure configs
  read_queues m (name ∷ names) configs = do
    node ← c.zk.get (build_queue_path m name)
    exist ← exist_topic (c.kafka m.local) name
    read_queues m names (
        add_queue_if exist configs name
          (queue_config_of m name node.ctime (c.encoding.parse_queue node.content)))

  abbrev pub loaded : Result Node → Option GroupConfig
  loaded (ok node) = c.encoding.load_group node.content
  loaded (err e) = none

  -- The text "group.queue" of a queue that is known; another text is passed over unread.
  abbrev pub known_group : Dict Bytes QueueConfig → List Bytes → Option (Bytes × Bytes)
  known_group configs (group ∷ queue ∷ []) = elim (lookup configs queue) [
    | none ↦ none
    | some q ↦ some (group, queue)
  ]
  known_group configs tokens = none

  abbrev pub group_step :
      Metadata
      → Bytes
      → Dict Bytes QueueConfig
      → Option (Bytes × Bytes)
      → W
      → W × Dict Bytes QueueConfig
  group_step m key configs none w = (w, configs)
  group_step m key configs (some (group, queue)) w =
      let (w', r) = c.zk.get (key ∷ m.group_config_path) w in
      (w', group_read configs queue group (loaded r))

  unfoldable pub read_groups :
      Metadata → List Bytes → Dict Bytes QueueConfig → W → W × Dict Bytes QueueConfig
  read_groups m [] configs w = (w, configs)
  read_groups m (key ∷ keys) configs w =
      let (w', configs') = group_step m key configs (known_group configs (split b'.' key)) w in
      read_groups m keys configs' w'

  -- All configurations, as `RefreshMetadata` reads them.
  unfoldable pub read_configs : Metadata → Io W (Dict Bytes QueueConfig)
  read_configs m = do
    names ← c.zk.children m.queue_path
    configs ← read_queues m names []
    keys ← c.zk.children m.group_config_path
    (λ w. let (w', all) = read_groups m keys configs w in (w', ok all))

  abbrev pub with_configs :
      Metadata → W × Result (Dict Bytes QueueConfig) → State W × Result (Unit {0})
  with_configs m (w, ok configs) = ((record m { queue_configs = configs }, w), ok tt)
  with_configs m (w, err e) = ((m, w), err e)

  -- `Metadata.RefreshMetadata`
  unfoldable pub refresh_metadata : Done (State W)
  refresh_metadata (m, w) =
      let (managers, w') = refresh_managers m.managers w in
      let m' = record m { managers = managers } in with_configs m' (read_configs m' w')

  abbrev pub unlocked : ZkPath → State W × Result (Unit {0}) → State W × Result (Unit {0})
  unlocked path ((m, w), r) = ((m, (c.zk.unlock path w).0), r)

  abbrev pub after_lock :
      Done (State W) → Metadata → W × Result (Unit {0}) → State W × Result (Unit {0})
  after_lock body m (w, err e) = ((m, w), err e)
  after_lock body m (w, ok _) = unlocked m.operation_path (body (m, w))

  -- A body between `mu.Lock` and the deferred `mu.Unlock`, whose error is dropped.
  unfoldable pub locked : Done (State W) → Done (State W)
  locked body (m, w) = after_lock body m (c.zk.lock m.operation_path w)
