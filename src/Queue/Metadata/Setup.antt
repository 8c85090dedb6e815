-- ===== src/Queue/Metadata/Setup.antt =====
-- engine/queue/metadata.go: NewMetadata, but for the goroutine that refreshes the metadata again
-- and again. The remote IDCs are visited in the order of the entries of their section.
use wqs.Common.{
  Bool, true, false, ◌&&◌, not, Option, none, some, List, [], ◌∷◌, Bytes, codes, if◌then◌else◌,
}
use mathlib.Core.List.{reverse}
use wqs.Common.Int.{ℤ, pos, ltb_ℤ, int32}
use wqs.Common.Eq.{bytes_key, bytes_eq}
use wqs.Common.Dict.{Dict, lookup, insert}
use wqs.Go.Strings.{split, split_n, all_words}
use wqs.Engine.{
  already_exists, not_valid, panicked, Result, ok, err, Io, ◌>>=◌, ◌>>◌, pure, throw_if, or_throw,
}
use wqs.Zookeeper
use wqs.Zookeeper.{ZkPath}
use wqs.Kafka.Manager
use wqs.Kafka.Manager.{Connections, new_manager, is_empty_list}
use wqs.Config.{
  Config, Section, get_section, get_string, get_string_must, get_int64_must, get_dup_by_pattern,
}
use wqs.Queue.Metadata.{Metadata, Clients, State, refresh_metadata}

-- The names of a path, which starts with a slash or is empty.
abbrev without_first : List Bytes → List Bytes
without_first [] = []
without_first (name ∷ names) = names

abbrev pub path_of : Bytes → ZkPath
path_of text = reverse (without_first (split b'/' text))

abbrev pub root_path : Bytes → ZkPath
root_path text = path_of (if bytes_eq text (codes "/") then [] else text)

-- "/wqs/metadata/" and a name, below the root.
abbrev pub metadata_path : ZkPath → Bytes → ZkPath
metadata_path root name = name ∷ codes "metadata" ∷ codes "wqs" ∷ root

abbrev pub default_idc : Bytes
default_idc = codes "local"

-- The expression `^remote\.\w+\.zookeeper\.connect$`, and the name that it stands around.
abbrev pub remote_idc : List Bytes → Option Bytes
remote_idc (first ∷ idc ∷ third ∷ fourth ∷ []) =
    if bytes_eq first (codes "remote")
      && (bytes_eq third (codes "zookeeper") && bytes_eq fourth (codes "connect"))
      && (all_words idc && not (is_empty_list idc))
    then some idc
    else none
remote_idc tokens = none

abbrev pub is_some : {A : Type 0} → Option A → Bool
is_some none = false
is_some (some a) = true

unfoldable pub is_remote : Bytes → Bool
is_remote name = is_some (remote_idc (split b'.' name))

abbrev pub idc_token : List Bytes → Option Bytes
idc_token (first ∷ idc ∷ tokens) = some idc
idc_token tokens = none

-- The addresses of a remote ZooKeeper, and the root of its Kafka after the first slash.
abbrev addrs_and_root : Bytes → List Bytes → Bytes × Bytes
addrs_and_root value (addrs ∷ root ∷ []) = (addrs, b'/' ∷ root)
addrs_and_root value tokens = (value, b'/' ∷ [])

abbrev pub remote_parts : Bytes → Bytes × Bytes
remote_parts value = addrs_and_root value (split_n b'/' value 2)

abbrev pub Managers : Type 0
Managers = Dict Bytes Manager.Manager

module _ {W : Type 0} (c : Clients W) (connections : Connections W) where
  abbrev pub connect_manager : Bytes → Bytes → Bytes → Io W Manager.Manager
  connect_manager idc addrs root =
      new_manager (c.kafka_zk idc) c.kafka_encoding (c.kafka idc) connections (split b',' addrs)
        (root_path root)

  unfoldable pub add_remote : Bytes → Bytes → Managers → Io W Managers
  add_remote name value managers = do
    idc ← or_throw panicked (idc_token (split b'.' name))
    manager ← connect_manager idc (remote_parts value).0 (remote_parts value).1
    throw_if (is_some (lookup managers idc)) already_exists
    pure (insert managers idc manager)

  -- An IDC without addresses is passed over.
  unfoldable pub add_remotes : Section → Managers → Io W Managers
  add_remotes [] managers = pure managers
  add_remotes ((name, []) ∷ remotes) managers = add_remotes remotes managers
  add_remotes ((name, b ∷ value) ∷ remotes) managers = do
    managers' ← add_remote name (b ∷ value) managers
    add_remotes remotes managers'

  abbrev pub when_refreshed : State W × Result (Unit {0}) → W × Result Metadata
  when_refreshed ((m, w), ok _) = (w, ok m)
  when_refreshed ((m, w), err e) = (w, err e)

  abbrev pub from_result : {A : Type 0} → Result A → Io W A
  from_result r w = (w, r)

  abbrev create_path : ZkPath → Io W (Unit {0})
  create_path path = Zookeeper.create_recursive_ignore_exist c.zk path [] 0

  unfoldable pub create_paths : ZkPath → Io W (Unit {0})
  create_paths root = do
    create_path (metadata_path root (codes "groupconfig"))
    create_path (metadata_path root (codes "queue"))
    create_path (metadata_path root (codes "service"))
    create_path (metadata_path root (codes "operation"))

  unfoldable pub sized : ℤ → Io W ℤ
  sized n = do throw_if (ltb_ℤ n (pos 1)) not_valid; pure n

  -- Replications and partitions.
  unfoldable pub sizes_of : Section → Io W (ℤ × ℤ)
  sizes_of section = do
    replications ← sized (int32 (get_int64_must section (codes "topic.replications") (pos 0)))
    partitions ← sized (int32 (get_int64_must section (codes "topic.partitions") (pos 0)))
    pure (replications, partitions)

  unfoldable pub load_metadata : Config → Bytes → ℤ × ℤ → Managers → Io W Metadata
  load_metadata config idc sizes managers w =
      let root = root_path config.meta_data_zk_root in
      when_refreshed (
        refresh_metadata c (
          record {
            group_config_path = metadata_path root (codes "groupconfig");
            queue_path = metadata_path root (codes "queue");
            service_path = metadata_path root (codes "service");
            metrics_path = metadata_path root (codes "metrics");
            operation_path = metadata_path root (codes "operation");
            local = idc;
            managers = managers;
            partitions = sizes.1;
            replications = sizes.0;
            id = config.proxy_id;
            queue_configs = [];
          },
          w,
        ))

  unfoldable pub with_manager : Config → Section → ℤ × ℤ → Manager.Manager → Io W Metadata
  with_manager config section sizes manager =
      let idc = get_string_must section (codes "idc") default_idc in
      add_remotes (get_dup_by_pattern is_remote section) ((idc, manager) ∷ [])
      >>= load_metadata config idc sizes

  unfoldable pub with_sizes : Config → Section → Bytes → Bytes → ℤ × ℤ → Io W Metadata
  with_sizes config section addrs root sizes =
      connect_manager (get_string_must section (codes "idc") default_idc) addrs root
      >>= with_manager config section sizes

  unfoldable pub with_section : Config → Section → Io W Metadata
  with_section config section = do
    addrs ← from_result (get_string section (codes "zookeeper.connect"))
    root ← from_result (get_string section (codes "zookeeper.root"))
    sizes ← sizes_of section
    with_sizes config section addrs root sizes

  unfoldable pub new_metadata : Config → Io W Metadata
  new_metadata config = do
    section ← from_result (get_section config.sections (codes "kafka"))
    connections.to_zookeeper (split b',' config.meta_data_zk_addr)
    create_paths (root_path config.meta_data_zk_root)
    with_section config section
