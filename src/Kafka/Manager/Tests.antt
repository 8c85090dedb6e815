-- ===== src/Kafka/Manager/Tests.antt =====
-- The theorems on the manager, over a dictionary of nodes.
use wqs.Common.{
  ◌+◌, ◌≡◌, refl, Option, none, some, List, [], ◌∷◌, Bytes, codes, arith, if◌then◌else◌,
}
use wqs.Common.Int.{ℤ, pos, negsuc, ◌≤ℤ◌}
use wqs.Common.Eq.{bytes_eq, int_key}
use wqs.Common.Dict.{lookup}
use wqs.Engine.{node_exists, ok, err}
use wqs.Zookeeper.Tree.{path_key, path_eq}
use wqs.Zookeeper.Tests.{Nodes, dict_client, node_of, dict_client-IsTree}
use wqs.Kafka.Assign.{Assignment}
use wqs.Kafka.Manager.{Manager, Encoding, broker_topics, topic_configs, kafka_version}
use wqs.Kafka.Manager.Topics.{
  create_assignment, create_topic, topic_path, topic_config_path, topic_content,
}
use wqs.Kafka.Manager.Creation.{create_assignment_stuck, create_topic-creates}
use wqs.Kafka.Assign.Replicas.{Distinct}
use wqs.Kafka.Assign.Rounds.{GoodAt, key_of}
use wqs.Kafka.Manager.Offsets.{Offsets, accumulated}

abbrev encoding : Encoding
encoding = record {
  load_broker = λ b. none;
  topic_info = λ n. codes "info";
  partition_config = λ n a. codes "partitions";
  load_partition_config = λ b. none;
}

abbrev manager : Manager
manager = record { kafka_root = []; broker_addrs = []; brokers_list = pos 1 ∷ [] }

abbrev topic : Bytes
topic = codes "t"

abbrev one_partition : Assignment
one_partition = (codes "0", pos 1 ∷ []) ∷ []

abbrev parents : Nodes
parents = (broker_topics [], codes "a") ∷ (topic_configs [], codes "b") ∷ []

-- What a CreateTopic leaves that fails after its first node.
abbrev left_over : Nodes
left_over = (topic_config_path manager topic, codes "info") ∷ parents

parents_here :
    (node_of parents (topic_path manager topic) ≡ none)
    × (node_of parents (topic_config_path manager topic) ≡ none)
    × (node_of parents (broker_topics []) ≡ some (codes "a"))
    × (node_of parents (topic_configs []) ≡ some (codes "b"))
unfolding lookup path_eq bytes_eq
parents_here = (refl, refl, refl, refl)

left_over_here :
    (node_of left_over (topic_path manager topic) ≡ none)
    × (node_of left_over (topic_config_path manager topic) ≡ some (codes "info"))
unfolding lookup path_eq bytes_eq
left_over_here = (refl, refl)

one_broker-Distinct : Distinct manager.brokers_list
unfolding Distinct
one_broker-Distinct = (tt, tt)

create_topic-creates_example :
    let made =
      create_topic dict_client encoding (pos 0) (pos 0) manager topic (pos 1) (pos 2) parents in
    (a : Assignment) × GoodAt manager.brokers_list 1 (key_of 1) a
    × (made.1 ≡ ok tt)
    × (node_of made.0 (topic_path manager topic) ≡ some (topic_content dict_client encoding a))
    × (node_of made.0 (topic_config_path manager topic) ≡ some (encoding.topic_info kafka_version))
create_topic-creates_example =
    create_topic-creates dict_client encoding node_of dict_client-IsTree manager topic 0 0 2 1 1
      parents (codes "a") (codes "b") one_broker-Distinct (omega arith) (omega arith) (omega arith)
      (omega arith) (omega arith) (omega arith) (omega arith) parents_here.0 parents_here.1
      parents_here.2 parents_here.3

create_assignment_stuck_example :
    ((create_assignment dict_client encoding manager topic one_partition left_over).1
      ≡ err node_exists)
    × (node_of (create_assignment dict_client encoding manager topic one_partition left_over).0 []
        ≡ node_of left_over [])
create_assignment_stuck_example =
    create_assignment_stuck dict_client encoding node_of dict_client-IsTree manager topic
      one_partition left_over (codes "info") [] left_over_here.0 left_over_here.1

abbrev topic_ends : Offsets
topic_ends = (pos 0, pos 10) ∷ (pos 1, pos 4) ∷ []

abbrev group_ends : Offsets
group_ends = (pos 0, pos 7) ∷ (pos 1, negsuc 0) ∷ []

consumed_7 : accumulated group_ends topic_ends (pos 0) (pos 0) ≡ (pos 14, pos 7)
unfolding accumulated lookup wqs.Common.Int.eq_ℤ wqs.Common.Int.int64
consumed_7 = refl
