-- ===== src/Kafka/Manager/Topics.antt =====
-- engine/kafka/manager.go: CreateTopic, UpdateTopic, DeleteTopic and ExistTopic. The locks of the
-- manager make each of them one step.
use wqs.Common.{
  ℕ, Bool, false, ◌||◌, Option, none, some, List, [], ◌∷◌, Bytes, codes, if◌then◌else◌, length,
  ◌==◌,
}
use wqs.Common.Int.{ℤ, pos, negsuc, ltb_ℤ, int32, ◌-ℤ◌}
use wqs.Common.Eq.{bytes_eq, bytes_key}
use wqs.Common.Dict.{lookup, insert}
use wqs.Engine.{
  Error, already_exists, not_valid, not_supported, Io, Done, ◌>>=◌, ◌>>◌, pure, throw, throw_if,
  or_throw,
}
use wqs.Zookeeper.{ZkPath, Client}
use wqs.Kafka.Assign.{Assignment, Outcome, assigned, assign_replicas_to_brokers}
use wqs.Kafka.Manager.{
  Manager, Encoding, Sarama, broker_topics, topic_configs, admin_delete_topic_path, kafka_version,
  group_metadata_topic_name,
}

abbrev pub topic_path : Manager → Bytes → ZkPath
topic_path m topic = topic ∷ broker_topics m.kafka_root

abbrev pub topic_config_path : Manager → Bytes → ZkPath
topic_config_path m topic = topic ∷ topic_configs m.kafka_root

abbrev pub delete_topic_path : Manager → Bytes → ZkPath
delete_topic_path m topic = topic ∷ admin_delete_topic_path m.kafka_root

abbrev pub lift_outcome : {W : Type 0} → Outcome → Io W Assignment
lift_outcome (assigned a) = pure a
lift_outcome Outcome.not_valid = throw not_valid
lift_outcome Outcome.not_supported = throw not_supported
lift_outcome Outcome.panicked = throw Error.panicked

-- The new partitions are entered one by one, unless one has another number of replicas.
unfoldable pub merge_assignment : ℕ → Assignment → Assignment → Option Assignment
merge_assignment count old [] = some old
merge_assignment count old ((partition, replicas) ∷ new) =
    let rest = merge_assignment count (insert old partition replicas) new in
    if length replicas == count then rest else none

module _ {W : Type 0} (zk : Client W) (enc : Encoding) where
  abbrev pub topic_content : Assignment → Bytes
  topic_content a = enc.partition_config kafka_version a

  -- `createOrUpdateTopicPartitionAssignmentPathInZK` with update false and true.
  unfoldable pub create_assignment : Manager → Bytes → Assignment → Done W
  create_assignment m topic a = do
    exist ← zk.exists (topic_path m topic)
    throw_if exist already_exists
    zk.create (topic_config_path m topic) (enc.topic_info kafka_version) 0
    zk.create (topic_path m topic) (topic_content a) 0

  unfoldable pub update_assignment : Manager → Bytes → Assignment → Done W
  update_assignment m topic a = zk.set (topic_path m topic) (topic_content a)

  -- The two numbers are what `rand.Int31n` gives, if it is called.
  unfoldable pub create_topic : ℤ → ℤ → Manager → Bytes → ℤ → ℤ → Done W
  create_topic random_start random_shift m topic replications partitions = do
    a ← lift_outcome (
        assign_replicas_to_brokers random_start random_shift m.brokers_list partitions replications
          (negsuc 0) (negsuc 0))
    create_assignment m topic a

  abbrev pub replicas_of_first : Option (List ℤ) → Io W (ℤ × List ℤ)
  replicas_of_first none = throw Error.plain
  replicas_of_first (some []) = throw Error.plain
  replicas_of_first (some (r ∷ rs)) = pure (r, r ∷ rs)

  -- `partitions` is the number wanted.
  unfoldable pub update_topic : ℤ → ℤ → Manager → Bytes → ℤ → Done W
  update_topic random_start random_shift m topic partitions = do
    throw_if (bytes_eq topic group_metadata_topic_name) not_valid
    node ← zk.get (topic_path m topic)
    old ← or_throw Error.plain (enc.load_partition_config node.content)
    let to_add = partitions -ℤ pos (length old)
    throw_if (ltb_ℤ to_add (pos 1)) Error.plain
    first ← replicas_of_first (lookup old (codes "0"))
    new ← lift_outcome (
        assign_replicas_to_brokers random_start random_shift m.brokers_list (int32 to_add)
          (int32 (pos (length first.1))) first.0 (int32 (pos (length old))))
    merged ← or_throw not_valid (merge_assignment (length first.1) old new)
    update_assignment m topic merged

  unfoldable pub delete_topic : Manager → Bytes → Done W
  delete_topic m topic = zk.create (delete_topic_path m topic) [] 0

module _ {W : Type 0} (kafka : Sarama W) where
  unfoldable pub contains_topic : Bytes → List Bytes → Bool
  contains_topic topic [] = false
  contains_topic topic (t ∷ ts) = bytes_eq t topic || contains_topic topic ts

  unfoldable pub exist_topic : Bytes → Io W Bool
  exist_topic topic = do topics ← kafka.topics; pure (contains_topic topic topics)
