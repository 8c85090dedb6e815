-- ===== src/Queue/Metadata/Tests.antt =====
-- Clients over a dictionary of nodes, and the theorems on the metadata in them.
use wqs.Common.{◌≡◌, refl, true, false, none, some, [], ◌∷◌, Bytes, codes, if◌then◌else◌}
use wqs.Common.Int.{pos}
use wqs.Common.Eq.{bytes_key, bytes_eq}
use wqs.Common.Dict.{Dict, lookup, insert}
use wqs.Go.Strings.{split}
use wqs.Engine.{not_found, ok, err}
use wqs.Zookeeper.{ZkPath}
use wqs.Zookeeper.Tree.{path_eq}
use wqs.Zookeeper.Tests.{Nodes, dict_client, node_of, dict_client-IsTree}
use wqs.Kafka.Manager
use wqs.Kafka.Manager.{Sarama, read_brokers, get_broker_addrs, sort_ints, insert_sorted}
use wqs.Kafka.Manager.Topics.{exist_topic, contains_topic}
use wqs.Queue.Config.{GroupConfig, QueueConfig, Encoding}
use wqs.Queue.Metadata.{
  Metadata, Clients, refresh_metadata, refresh_managers, read_configs, read_queues, read_groups,
  build_config_path,
}
use wqs.Queue.Metadata.Views.{
  exist_group, exist_queue, can_delete_queue, get_group_map, get_queue_map,
}
use wqs.Queue.Metadata.Groups.{add_group, delete_group, update_group_config}
use wqs.Queue.Metadata.Queues.{contains, idcs_of, append_if_not_contains, all_known}
use wqs.Queue.Metadata.Reads.{IsApart}
use wqs.Queue.Metadata.Guards.{unknown_group, add_group-node, update_group_config-node}
use wqs.Queue.Metadata.GroupMap.{names_in, listed, get_group_map-listed}

program : Unit {0}
unfolding refresh_metadata refresh_managers read_configs read_queues read_groups exist_topic
    contains_topic lookup insert bytes_eq path_eq split exist_group exist_queue can_delete_queue
    contains idcs_of append_if_not_contains all_known wqs.Kafka.Manager.refresh_metadata
    get_broker_addrs read_brokers
program = tt

abbrev yf : Bytes
yf = codes "yf"

-- A Kafka without partitions whose only topic is "q".
abbrev kafka_q : Sarama Nodes
kafka_q = record {
  refresh_metadata = λ w. (w, ok tt);
  topics = λ w. (w, ok (codes "q" ∷ []));
  partitions = λ topic w. (w, ok []);
  get_offset = λ topic p time w. (w, ok (pos 0));
  refresh_coordinator = λ group w. w;
  coordinator = λ group w. (w, ok 1);
  commit_offset = λ broker group topic offsets w. (w, ok []);
  fetch_offset = λ broker group topic ps w. (w, ok (λ p. none));
  close_broker = λ broker w. w;
}

abbrev group_named : Bytes → GroupConfig
group_named group = record {
  group = group;
  queue = codes "q";
  write = true;
  read = true;
  url = [];
  ips = [];
}

abbrev name_encoding : Encoding
name_encoding = record {
  queue_string = λ q. q.queue;
  parse_queue =
      λ b. (record { queue = b; ctime = pos 1; length = pos 0; groups = none; idcs = none }, false);
  group_string = λ g. g.group;
  load_group = λ b. some (group_named b);
  load_proxy = λ b. none;
}

abbrev kafka_encoding : Manager.Encoding
kafka_encoding = record {
  load_broker = λ b. none;
  topic_info = λ n. codes "info";
  partition_config = λ n a. codes "partitions";
  load_partition_config = λ b. none;
}

abbrev pub dict_clients : Clients Nodes
dict_clients = record {
  zk = dict_client;
  encoding = name_encoding;
  kafka = λ idc. kafka_q;
  kafka_zk = λ idc. dict_client;
  kafka_encoding = kafka_encoding;
}

dict_clients-IsApart : IsApart dict_clients node_of
dict_clients-IsApart = record {
  kafka_refresh = λ idc w q. refl;
  kafka_topics = λ idc w q. refl;
  kafka_children = λ idc path w q. refl;
  kafka_get = λ idc path w q. dict_client-IsTree.get_node path w q;
}

abbrev queues_path : ZkPath
queues_path = codes "queue" ∷ []

abbrev groups_path : ZkPath
groups_path = codes "groupconfig" ∷ []

abbrev manager_yf : Manager.Manager
manager_yf = record { kafka_root = []; broker_addrs = codes "b:1" ∷ []; brokers_list = pos 1 ∷ [] }

abbrev pub metadata_with : Dict Bytes QueueConfig → Metadata
metadata_with configs = record {
  group_config_path = groups_path;
  queue_path = queues_path;
  service_path = codes "service" ∷ [];
  metrics_path = codes "metrics" ∷ [];
  operation_path = codes "operation" ∷ [];
  local = yf;
  managers = (yf, manager_yf) ∷ [];
  partitions = pos 2;
  replications = pos 1;
  id = pos 1;
  queue_configs = configs;
}

abbrev pub queue_q : QueueConfig
queue_q = record {
  queue = codes "q";
  ctime = pos 1;
  length = pos 0;
  groups = (codes "g", group_named (codes "g")) ∷ [];
  idcs = yf ∷ [];
}

abbrev m0 : Metadata
m0 = metadata_with []

abbrev m1 : Metadata
m1 = metadata_with ((codes "q", queue_q) ∷ [])

-- The tree with the queue "q" and its group "g".
abbrev w0 : Nodes
w0 =
    ([], [])
    ∷ (queues_path, [])
    ∷ (groups_path, [])
    ∷ (codes "q" ∷ queues_path, codes "q")
    ∷ (codes "g.q" ∷ groups_path, codes "g")
    ∷ []

refreshed_m1 : refresh_metadata dict_clients (m0, w0) ≡ ((m1, w0), ok tt)
unfolding program
refreshed_m1 = refl

group_h_unknown : exist_group m1 (codes "q") (codes "h") ≡ false
unfolding program
group_h_unknown = refl

unknown_group_example :
    ((delete_group dict_clients 3 (codes "h") (codes "q") (m0, w0)).1 ≡ err not_found)
    × (node_of (delete_group dict_clients 3 (codes "h") (codes "q") (m0, w0)).0.1 []
        ≡ node_of w0 [])
    × ((update_group_config dict_clients (group_named (codes "h")) (m0, w0)).1 ≡ err not_found)
    × (node_of (update_group_config dict_clients (group_named (codes "h")) (m0, w0)).0.1 []
        ≡ node_of w0 [])
unknown_group_example =
    unknown_group dict_clients node_of dict_client-IsTree dict_clients-IsApart m0 m1 w0 w0 refl
      refreshed_m1 3 (group_named (codes "h")) [] group_h_unknown

queue_r_unknown : exist_queue m1 (codes "r") ≡ false
unfolding program
queue_r_unknown = refl

idc_hk_unknown : all_known m1.managers (idcs_of m1 (codes "hk" ∷ [])) ≡ false
unfolding program
idc_hk_unknown = refl

root_here : node_of w0 [] ≡ some []
unfolding program
root_here = refl

group_h_missing : node_of w0 (build_config_path m1 (codes "h") (codes "q")) ≡ none
unfolding program
group_h_missing = refl

group_g_here : node_of w0 (build_config_path m1 (codes "g") (codes "q")) ≡ some (codes "g")
unfolding program
group_g_here = refl

add_group-node_example :
    ((add_group dict_clients (group_named (codes "h")) (m0, w0)).1 ≡ ok tt)
    × (node_of
          (add_group dict_clients (group_named (codes "h")) (m0, w0)).0.1
          (build_config_path m1 (codes "h") (codes "q"))
        ≡ some (codes "h"))
    × (node_of
          (add_group dict_clients (group_named (codes "h")) (m0, w0)).0.1
          (build_config_path m1 (codes "g") (codes "q"))
        ≡ some (codes "g"))
add_group-node_example =
    add_group-node dict_clients node_of dict_client-IsTree dict_clients-IsApart m0 m1 w0 w0 refl
      refreshed_m1 (group_named (codes "h")) [] (codes "g")
      (build_config_path m1 (codes "g") (codes "q")) group_h_unknown root_here group_h_missing
      group_g_here

group_g_known : exist_group m1 (codes "q") (codes "g") ≡ true
unfolding program
group_g_known = refl

update_group_config-node_example :
    ((update_group_config dict_clients (group_named (codes "g")) (m0, w0)).1 ≡ ok tt)
    × (node_of
          (update_group_config dict_clients (group_named (codes "g")) (m0, w0)).0.1
          (codes "g.q" ∷ groups_path)
        ≡ (if path_eq (build_config_path m1 (codes "g") (codes "q")) (codes "g.q" ∷ groups_path)
            then some (codes "g")
            else node_of w0 (codes "g.q" ∷ groups_path)))
update_group_config-node_example =
    update_group_config-node dict_clients node_of dict_client-IsTree dict_clients-IsApart m0 m1 w0
      w0 refl refreshed_m1 (group_named (codes "g")) (codes "g") (codes "g.q" ∷ groups_path)
      group_g_known group_g_here

get_group_map-listed_example :
    contains (names_in (lookup (get_group_map m1) (codes "g"))) (codes "q")
    ≡ listed (get_queue_map m1) (codes "q") (codes "g")
get_group_map-listed_example = get_group_map-listed m1 (codes "q") (codes "g")

yf_asked : contains (yf ∷ []) yf ≡ true
unfolding program
yf_asked = refl

yf_known : all_known m1.managers (idcs_of m1 (yf ∷ [])) ≡ true
unfolding program
yf_known = refl
