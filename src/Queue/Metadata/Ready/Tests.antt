-- ===== src/Queue/Metadata/Ready/Tests.antt =====
-- The start of a metadata with a remote IDC, over a dictionary of nodes.
use wqs.Common.{◌≡◌, refl, some, [], ◌∷◌, Bytes, codes}
use wqs.Common.Int.{pos, int32, eq_ℤ}
use wqs.Common.Eq.{bytes_key, bytes_eq}
use wqs.Common.Dict.{lookup, insert}
use wqs.Go.Strings.{split, split_n, cut, all_words}
use wqs.Go.Strconv.{format_int, format_uint, digits, parse_int, parse_uint, scan}
use wqs.Engine.{ok, err, not_valid}
use wqs.Zookeeper.{create_recursive, create_recursive_ignore_exist}
use wqs.Zookeeper.Tree.{path_key, path_eq}
use wqs.Zookeeper.Tests.{Nodes}
use wqs.Kafka.Manager
use wqs.Kafka.Manager.{
  Connections, new_manager, read_brokers, get_broker_addrs, sort_ints, insert_sorted, brokers_ids,
}
use wqs.Config.{
  Config, Section, get_section, get_string, get_string_must, get_int64_must, get_int64,
  get_dup_by_pattern,
}
use wqs.Queue.Metadata.{
  Metadata, Clients, refresh_metadata, refresh_managers, read_configs, read_queues, read_groups,
}
use wqs.Queue.Metadata.Setup.{
  new_metadata, with_section, with_sizes, with_manager, load_metadata, sizes_of, sized,
  create_paths, add_remotes, add_remote, is_remote, metadata_path,
}
use wqs.Queue.Metadata.Ready.{IsReady, new_metadata-IsReady}
use wqs.Queue.Metadata.Tests.{dict_clients}

program : Unit {0}
unfolding new_metadata with_section with_sizes with_manager load_metadata sizes_of sized
    create_paths add_remotes add_remote is_remote refresh_metadata refresh_managers read_configs
    read_queues read_groups wqs.Kafka.Manager.refresh_metadata new_manager read_brokers
    get_broker_addrs sort_ints insert_sorted get_section get_string get_string_must get_int64_must
    get_int64 get_dup_by_pattern create_recursive create_recursive_ignore_exist lookup insert
    bytes_eq path_eq split split_n cut all_words format_int format_uint digits parse_int parse_uint
    scan int32 eq_ℤ
program = tt

abbrev clients : Clients Nodes
clients = record dict_clients {
  kafka_encoding = record dict_clients.kafka_encoding {
    load_broker = λ b. some (codes "b", pos 9092);
  };
}

abbrev connections : Connections Nodes
connections = record { to_zookeeper = λ addrs w. (w, ok tt); to_kafka = λ addrs w. (w, ok tt) }

-- One broker in the Kafka at the root, and one in the Kafka below "/k".
abbrev world : Nodes
world =
    ([], [])
    ∷ (codes "1" ∷ brokers_ids [], [])
    ∷ (codes "7" ∷ brokers_ids (codes "k" ∷ []), [])
    ∷ []

abbrev section_with : Bytes → Section
section_with partitions =
    (codes "zookeeper.connect", codes "z:2181")
    ∷ (codes "zookeeper.root", codes "/")
    ∷ (codes "topic.replications", codes "1")
    ∷ (codes "topic.partitions", partitions)
    ∷ (codes "remote.hk.zookeeper.connect", codes "y:2181/k")
    ∷ []

abbrev config_with : Section → Config
config_with section = record {
  proxy_id = pos 3;
  ui_dir = [];
  http_port = [];
  mc_port = [];
  mc_socket_recv_buffer = pos 0;
  mc_socket_send_buffer = pos 0;
  motan_port = [];
  meta_data_zk_addr = codes "z:2181";
  meta_data_zk_root = codes "/";
  log_info = [];
  log_debug = [];
  log_profile = [];
  log_expire = [];
  sections = (codes "kafka", section) ∷ [];
}

abbrev started : Metadata
started = record {
  group_config_path = metadata_path [] (codes "groupconfig");
  queue_path = metadata_path [] (codes "queue");
  service_path = metadata_path [] (codes "service");
  metrics_path = metadata_path [] (codes "metrics");
  operation_path = metadata_path [] (codes "operation");
  local = codes "local";
  managers =
      (
        codes "local",
        record { kafka_root = []; broker_addrs = codes "b:9092" ∷ []; brokers_list = pos 1 ∷ [] },
      )
      ∷ (
        codes "hk",
        record {
          kafka_root = codes "k" ∷ [];
          broker_addrs = codes "b:9092" ∷ [];
          brokers_list = pos 7 ∷ [];
        },
      )
      ∷ [];
  partitions = pos 2;
  replications = pos 1;
  id = pos 3;
  queue_configs = [];
}

abbrev two_partitions : Section
two_partitions = section_with (codes "2")

start_works :
    new_metadata clients connections (config_with two_partitions) world
    ≡ ((new_metadata clients connections (config_with two_partitions) world).0, ok started)
unfolding program
start_works = refl

kafka_section :
    get_section (config_with two_partitions).sections (codes "kafka") ≡ ok two_partitions
unfolding program
kafka_section = refl

new_metadata-IsReady_example : IsReady two_partitions started
new_metadata-IsReady_example =
    new_metadata-IsReady clients connections (config_with two_partitions) two_partitions
      kafka_section world _ started start_works

-- A number of partitions that is 2^32 is 0 once it is an int32.
wrapped_partitions :
    (new_metadata clients connections (config_with (section_with (codes "4294967296"))) world).1
    ≡ err not_valid
unfolding program
wrapped_partitions = refl
