-- ===== src/Kafka/Manager.antt =====
-- engine/kafka/manager.go: `Manager`. The Kafka client of github.com/Shopify/sarama and the JSON
-- encodings of struct.go are records of operations; the ZooKeeper client is that of Zookeeper.
pub mod Topics
pub mod Offsets
pub mod Creation
pub mod Sums
mod Tests
use wqs.Common.{
  ℕ, zero, suc, ◌+◌, ◌≡◌, Bool, true, false, not, ◌||◌, Option, none, some, List, [], ◌∷◌, ◌++◌,
  Bytes, codes, if◌then◌else◌, length,
}
use wqs.Common.Int.{ℤ, pos, negsuc, ltb_ℤ, int32}
use wqs.Go.Strconv.{Parsed, format_int, parse_int}
use wqs.Engine.{
  Error, not_found, Result, ok, err, Io, Done, ◌>>=◌, ◌>>◌, pure, throw, throw_if, or_throw,
  continue,
}
use wqs.Zookeeper.{ZkPath, Client, Node}
use wqs.Kafka.Assign.{Assignment}

-- A block of an OffsetFetchResponse.
pub record OffsetBlock : Type 0 where
  pub offset : ℤ
  pub code : ℤ

-- `sarama.Client` and `sarama.Broker`, a broker by its number. `commit_offset` gets the topic and
-- the offsets by partition, and answers the codes of `response.Errors`; `fetch_offset` answers
-- `response.GetBlock` for the topic.
pub record Sarama (W : Type 0) : Type 0 where
  pub refresh_metadata : Done W
  pub topics : Io W (List Bytes)
  pub partitions : Bytes → Io W (List ℤ)
  pub get_offset : Bytes → ℤ → ℤ → Io W ℤ
  pub refresh_coordinator : Bytes → W → W
  pub coordinator : Bytes → Io W ℕ
  pub commit_offset : ℕ → Bytes → Bytes → List (ℤ × ℤ) → Io W (List ℤ)
  pub fetch_offset : ℕ → Bytes → Bytes → List ℤ → Io W (ℤ → Option OffsetBlock)
  pub close_broker : ℕ → W → W

-- `zookeeper.NewConnect` and `sarama.NewClient`, by the addresses they are given.
pub record Connections (W : Type 0) : Type 0 where
  pub to_zookeeper : List Bytes → Done W
  pub to_kafka : List Bytes → Done W

-- What encoding/json makes of the structs of struct.go, and reads back.
pub record Encoding : Type 0 where
  pub load_broker : Bytes → Option (Bytes × ℤ)
  pub topic_info : ℤ → Bytes
  pub partition_config : ℤ → Assignment → Bytes
  pub load_partition_config : Bytes → Option Assignment

abbrev pub kafka_version : ℤ
kafka_version = pos 1

abbrev pub group_metadata_topic_name : Bytes
group_metadata_topic_name = codes "__consumer_offsets"

abbrev pub brokers_ids : ZkPath → ZkPath
brokers_ids root = codes "ids" ∷ codes "brokers" ∷ root

abbrev pub broker_topics : ZkPath → ZkPath
broker_topics root = codes "topics" ∷ codes "brokers" ∷ root

abbrev pub topic_configs : ZkPath → ZkPath
topic_configs root = codes "topics" ∷ codes "config" ∷ root

abbrev pub admin_delete_topic_path : ZkPath → ZkPath
admin_delete_topic_path root = codes "delete_topics" ∷ codes "admin" ∷ root

pub record Manager : Type 0 where
  pub kafka_root : ZkPath
  pub broker_addrs : List Bytes
  pub brokers_list : List ℤ

-- `sort.Sort` of `utils.Int32Slice`.
unfoldable pub insert_sorted : ℤ → List ℤ → List ℤ
insert_sorted x [] = x ∷ []
insert_sorted x (y ∷ ys) =
    let rest = insert_sorted x ys in if ltb_ℤ y x then y ∷ rest else x ∷ y ∷ ys

unfoldable pub sort_ints : List ℤ → List ℤ
sort_ints [] = []
sort_ints (x ∷ xs) = insert_sorted x (sort_ints xs)

abbrev pub Brokers : Type 0
Brokers = List Bytes × List ℤ

-- A broker whose name is no number is left out.
abbrev pub with_broker : Bytes → ℤ → Parsed ℤ → Brokers → Brokers
with_broker host port (id, none) (addrs, ids) =
    ((host ++ (b':' ∷ format_int 10 port)) ∷ addrs, int32 id ∷ ids)
with_broker host port (id, some e) brokers = brokers

abbrev pub is_empty_list : {A : Type 0} → List A → Bool
is_empty_list [] = true
is_empty_list (a ∷ rest) = false

module _ {W : Type 0} (zk : Client W) (enc : Encoding) where
  unfoldable pub read_brokers : ZkPath → List Bytes → Io W Brokers
  read_brokers root [] = pure ([], [])
  read_brokers root (broker ∷ brokers) = do
    node ← zk.get (broker ∷ brokers_ids root)
    config ← or_throw Error.plain (enc.load_broker node.content)
    rest ← read_brokers root brokers
    pure (with_broker config.0 config.1 (parse_int 10 32 broker) rest)

  -- `getBrokerAddrs`
  unfoldable pub get_broker_addrs : ZkPath → Io W Brokers
  get_broker_addrs root = do
    names ← zk.children (brokers_ids root)
    brokers ← read_brokers root names
    throw_if (is_empty_list brokers.1 || is_empty_list brokers.0) not_found
    pure (brokers.0, sort_ints brokers.1)

abbrev pub refreshed : {W : Type 0} → (Manager × W) × Result (Unit {0}) → W × Result Manager
refreshed ((m, w), ok _) = (w, ok m)
refreshed ((m, w), err e) = (w, err e)

module _ {W : Type 0} (zk : Client W) (enc : Encoding) (kafka : Sarama W) where
  abbrev pub on_world : {A : Type 0} → Manager → W × Result A → (Manager × W) × Result A
  on_world m (w, r) = ((m, w), r)

  abbrev pub with_brokers : Manager → W × Result Brokers → (Manager × W) × Result (Unit {0})
  with_brokers m (w, err e) = ((m, w), err e)
  with_brokers m (w, ok brokers) =
      let m' = record m { broker_addrs = brokers.0; brokers_list = brokers.1 } in
      on_world m' (kafka.refresh_metadata w)

  -- `Manager.RefreshMetadata`: the cache is replaced when the brokers were read.
  unfoldable pub refresh_metadata : Done (Manager × W)
  refresh_metadata (m, w) = with_brokers m (get_broker_addrs zk enc m.kafka_root w)

  -- `NewManager`
  unfoldable pub new_manager : Connections W → List Bytes → ZkPath → Io W Manager
  new_manager connections addrs root = do
    connections.to_zookeeper addrs
    brokers ← get_broker_addrs zk enc root
    connections.to_kafka brokers.0
    (λ w. refreshed (
        refresh_metadata
          (record { kafka_root = root; broker_addrs = brokers.0; brokers_list = brokers.1 }, w)))
