-- ===== src/Queue/Metadata/Reads.antt =====
-- engine/queue/metadata.go: RefreshMetadata reads, and leaves the tree of nodes as it is.
use wqs.Common.{◌≡◌, refl, ◌∙◌, Bool, true, false, Option, none, some, List, [], ◌∷◌, Bytes}
use wqs.Common.Int.{ℤ}
use wqs.Common.Eq.{bytes_key}
use wqs.Common.Dict.{Dict}
use wqs.Go.Strings.{split}
use wqs.Engine.{Error, Result, ok, err, Io, ◌>>=◌, or_throw, throw_if, continue}
use wqs.Zookeeper.{ZkPath}
use wqs.Zookeeper.Tree.{IsTree}
use wqs.Kafka.Manager
use wqs.Kafka.Manager.{Sarama, Encoding, read_brokers, get_broker_addrs, with_brokers, brokers_ids}
use wqs.Kafka.Manager.Topics.{exist_topic}
use wqs.Queue.Config.{QueueConfig}
use wqs.Queue.Metadata.{
  Metadata, Clients, refresh_managers, read_queues, read_groups, group_step, known_group,
  read_configs, with_configs, refresh_metadata,
}

-- What is relied on beside the laws of the tree: reading the topics and the brokers of a Kafka, and
-- refreshing its client, does not touch the tree of the metadata.
pub record IsApart {W : Type 0} (c : Clients W) (node : W → ZkPath → Option Bytes) : Type 0 where
  pub kafka_refresh :
      (idc : Bytes) (w : W) (q : ZkPath) → node ((c.kafka idc).refresh_metadata w).0 q ≡ node w q
  pub kafka_topics :
      (idc : Bytes) (w : W) (q : ZkPath) → node ((c.kafka idc).topics w).0 q ≡ node w q
  pub kafka_children :
      (idc : Bytes) (path : ZkPath) (w : W) (q : ZkPath)
      → node ((c.kafka_zk idc).children path w).0 q ≡ node w q
  pub kafka_get :
      (idc : Bytes) (path : ZkPath) (w : W) (q : ZkPath)
      → node ((c.kafka_zk idc).get path w).0 q ≡ node w q

module _ {W : Type 0} (node : W → ZkPath → Option Bytes) where
  -- A call after which every node is as before.
  abbrev pub Keeps : {A : Type 0} → Io W A → Type 0
  Keeps f = (w : W) (q : ZkPath) → node (f w).0 q ≡ node w q

  bind-Keeps :
      {A B : Type 0} (f : Io W A) (g : A → Io W B)
      → Keeps f
      → ((a : A) → Keeps (g a))
      → Keeps (f >>= g)
  bind-Keeps {A} {B} f g hf hg w q = go (f w) (hf w q)
    where
      go : (r : W × Result A) → node r.0 q ≡ node w q → node (continue g r).0 q ≡ node w q
      go (v, ok a) e = hg a v q ∙ e
      go (v, err x) e = e

  or_throw-Keeps : {A : Type 0} (e : Error) (o : Option A) → Keeps (or_throw {A = A} e o)
  or_throw-Keeps e none w q = refl
  or_throw-Keeps e (some a) w q = refl

  throw_if-Keeps : (b : Bool) (e : Error) → Keeps (throw_if b e)
  throw_if-Keeps true e w q = refl
  throw_if-Keeps false e w q = refl

  module _ (c : Clients W) (tree : IsTree c.zk node) (apart : IsApart c node) where
    read_brokers-Keeps :
        (idc : Bytes) (root : ZkPath) (names : List Bytes)
        → Keeps (read_brokers (c.kafka_zk idc) c.kafka_encoding root names)
    unfolding read_brokers
    read_brokers-Keeps idc root [] = λ w q. refl
    read_brokers-Keeps idc root (name ∷ names) = search (
      bind-Keeps,
      apart.kafka_get idc (name ∷ brokers_ids root),
      or_throw-Keeps,
      read_brokers-Keeps idc root names,
    )

    get_broker_addrs-Keeps :
        (idc : Bytes) (root : ZkPath)
        → Keeps (get_broker_addrs (c.kafka_zk idc) c.kafka_encoding root)
    unfolding get_broker_addrs
    get_broker_addrs-Keeps idc root = search (
      bind-Keeps,
      apart.kafka_children idc (brokers_ids root),
      read_brokers-Keeps idc root,
      throw_if-Keeps,
    )

    manager-node :
        (idc : Bytes) (m : Manager.Manager) (w : W) (q : ZkPath)
        → node
            (Manager.refresh_metadata (c.kafka_zk idc) c.kafka_encoding (c.kafka idc) (m, w)).0.1
            q
          ≡ node w q
    unfolding wqs.Kafka.Manager.refresh_metadata
    manager-node idc m w q =
        go (get_broker_addrs (c.kafka_zk idc) c.kafka_encoding m.kafka_root w)
          (get_broker_addrs-Keeps idc m.kafka_root w q)
      where
        go :
            (r : W × Result (List Bytes × List ℤ))
            → node r.0 q ≡ node w q
            → node (with_brokers (c.kafka_zk idc) c.kafka_encoding (c.kafka idc) m r).0.1 q
              ≡ node w q
        go (v, err e) h = h
        go (v, ok brokers) h = apart.kafka_refresh idc v q ∙ h

    refresh_managers-node :
        (managers : Dict Bytes Manager.Manager) (w : W) (q : ZkPath)
        → node (refresh_managers c managers w).1 q ≡ node w q
    unfolding refresh_managers
    refresh_managers-node [] w q = refl
    refresh_managers-node ((idc, m) ∷ managers) w q =
        refresh_managers-node managers
          (Manager.refresh_metadata (c.kafka_zk idc) c.kafka_encoding (c.kafka idc) (m, w)).0.1 q
        ∙ manager-node idc m w q

    exist_topic-Keeps : (idc name : Bytes) → Keeps (exist_topic (c.kafka idc) name)
    unfolding exist_topic
    exist_topic-Keeps idc name = search (bind-Keeps, apart.kafka_topics idc)

    read_queues-Keeps :
        (m : Metadata) (names : List Bytes) (configs : Dict Bytes QueueConfig)
        → Keeps (read_queues c m names configs)
    unfolding read_queues
    read_queues-Keeps m [] configs = λ w q. refl
    read_queues-Keeps m (name ∷ names) configs = search (
      bind-Keeps,
      tree.get_node (name ∷ m.queue_path),
      exist_topic-Keeps m.local name,
      read_queues-Keeps m names,
    )

    group_step-node :
        (m : Metadata) (key : Bytes) (configs : Dict Bytes QueueConfig)
        (known : Option (Bytes × Bytes)) (w : W) (q : ZkPath)
        → node (group_step c m key configs known w).0 q ≡ node w q
    group_step-node m key configs none w q = refl
    group_step-node m key configs (some (group, queue)) w q =
        tree.get_node (key ∷ m.group_config_path) w q

    read_groups-node :
        (m : Metadata) (keys : List Bytes) (configs : Dict Bytes QueueConfig) (w : W) (q : ZkPath)
        → node (read_groups c m keys configs w).0 q ≡ node w q
    unfolding read_groups
    read_groups-node m [] configs w q = refl
    read_groups-node m (key ∷ keys) configs w q =
        let r = group_step c m key configs (known_group c configs (split b'.' key)) w in
        read_groups-node m keys r.1 r.0 q
        ∙ group_step-node m key configs (known_group c configs (split b'.' key)) w q

    read_configs-Keeps : (m : Metadata) → Keeps (read_configs c m)
    unfolding read_configs
    read_configs-Keeps m = search (
      bind-Keeps,
      tree.children_node m.queue_path,
      read_queues-Keeps m,
      tree.children_node m.group_config_path,
      read_groups-node m,
    )

    with_configs-node :
        (m : Metadata) (r : W × Result (Dict Bytes QueueConfig)) (q : ZkPath)
        → node (with_configs c m r).0.1 q ≡ node r.0 q
    with_configs-node m (w, ok configs) q = refl
    with_configs-node m (w, err e) q = refl

    -- RefreshMetadata changes no node, whether it fails or not.
    pub refresh_metadata-node :
        (m : Metadata) (w : W) (q : ZkPath) → node (refresh_metadata c (m, w)).0.1 q ≡ node w q
    unfolding refresh_metadata
    refresh_metadata-node m w q =
        let r = refresh_managers c m.managers w in
        let m' = record m { managers = r.0 } in
        with_configs-node m' (read_configs c m' r.1) q
        ∙ read_configs-Keeps m' r.1 q
        ∙ refresh_managers-node m.managers w q
