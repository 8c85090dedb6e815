-- ===== src/Queue/Imp/Status.antt =====
-- engine/queue/queue_imp.go: Lookup, LookupGroup, GetSingleGroup, AccumulationStatus, Proxys and
-- the load and save of metrics.
use wqs.Common.{Option, none, some, List, [], ◌∷◌, ◌++◌, Bytes, map, if◌then◌else◌}
use wqs.Common.Int.{ℤ}
use wqs.Common.Eq.{bytes_key, bytes_eq}
use wqs.Common.Dict.{Dict, lookup}
use wqs.Engine.{Error, not_found, Io, Done, Result, ok, err, ◌>>=◌, ◌>>◌, pure}
use wqs.Memcached.{Accumulation}
use wqs.Queue.Config.{GroupConfig, QueueInfo, GroupInfo}
use wqs.Queue.Metadata
use wqs.Queue.Metadata.{Metadata, State, lift}
use wqs.Queue.Metadata.Views.{
  exist_group, get_queues, get_queue_info, get_queue_map, get_group_map, get_group_config,
}
use wqs.Queue.Metadata.Services.{accumulation_of, proxys, get_proxy_config_by_id}
use wqs.Queue.Imp.{QueueImp, Service, on_metadata}

-- The first group of that name.
unfoldable pub group_named : Bytes → List GroupConfig → List GroupConfig
group_named group [] = []
group_named group (g ∷ groups) =
    let rest = group_named group groups in if bytes_eq g.group group then g ∷ [] else rest

abbrev pub only_group : Bytes → List QueueInfo × Option Error → List QueueInfo × Option Error
only_group group (info ∷ [], none) =
    (record info { groups = group_named group info.groups } ∷ [], none)
only_group group answer = answer

abbrev pub group_info : Metadata → Bytes → Bytes → List QueueInfo × Option Error
group_info m queue group =
    if exist_group m queue group
    then only_group group (get_queue_info m (queue ∷ []))
    else ([], some not_found)

abbrev pub lookup_info : Metadata → Bytes → Bytes → List QueueInfo × Option Error
lookup_info m [] group = get_queue_info m (get_queues m)
lookup_info m (c ∷ queue) [] = get_queue_info m ((c ∷ queue) ∷ [])
lookup_info m (c ∷ queue) (d ∷ group) = group_info m (c ∷ queue) (d ∷ group)

-- The configurations that are found; the others are passed over.
unfoldable pub configs_in : Metadata → Bytes → List Bytes → List GroupConfig
configs_in m group [] = []
configs_in m group (queue ∷ queues) = elim (get_group_config m group queue) [
  | ok g ↦ g ∷ configs_in m group queues
  | err e ↦ configs_in m group queues
]

abbrev pub info_of_group : Metadata → Bytes → List Bytes → GroupInfo
info_of_group m group queues = record { group = group; queues = configs_in m group queues }

abbrev pub one_group : Metadata → Bytes → Option (List Bytes) → List GroupInfo × Option Error
one_group m group none = ([], some not_found)
one_group m group (some queues) = (info_of_group m group queues ∷ [], none)

abbrev pub group_infos : Metadata → Bytes → List GroupInfo × Option Error
group_infos m [] = (map (λ e. info_of_group m e.0 e.1) (get_group_map m), none)
group_infos m (c ∷ group) = one_group m (c ∷ group) (lookup (get_group_map m) (c ∷ group))

module _ {W : Type 0} (s : Service W) where
  -- A look-up in the metadata that a refresh left, and what it answers at an error.
  abbrev pub answered :
      {A : Type 0}
      → (Metadata → List A × Option Error)
      → (QueueImp × W) × Result (Unit {0})
      → (QueueImp × W) × (List A × Option Error)
  answered view ((q, w), ok _) = ((q, w), view q.metadata)
  answered view ((q, w), err e) = ((q, w), ([], some e))

  abbrev pub refreshed : Done (QueueImp × W)
  refreshed = on_metadata (Metadata.refresh_metadata s.clients)

  unfoldable pub lookup_queue :
      Bytes → Bytes → QueueImp × W → (QueueImp × W) × (List QueueInfo × Option Error)
  lookup_queue queue group state = answered (λ m. lookup_info m queue group) (refreshed state)

  unfoldable pub lookup_group :
      Bytes → QueueImp × W → (QueueImp × W) × (List GroupInfo × Option Error)
  lookup_group group state = answered (λ m. group_infos m group) (refreshed state)

  unfoldable pub get_single_group : QueueImp → Bytes → Bytes → Result GroupConfig
  get_single_group q group queue = get_group_config q.metadata group queue

  abbrev pub accumulation_info : Bytes → Bytes → ℤ × ℤ → Accumulation
  accumulation_info queue group (total, consumed) = record {
    group = group;
    queue = queue;
    total = total;
    consumed = consumed;
  }

  unfoldable pub accumulations_in : Metadata → Bytes → List Bytes → Io W (List Accumulation)
  accumulations_in m queue [] = pure []
  accumulations_in m queue (group ∷ groups) = do
    sums ← accumulation_of s.clients m queue group
    infos ← accumulations_in m queue groups
    pure (accumulation_info queue group sums ∷ infos)

  unfoldable pub accumulations : Metadata → Dict Bytes (List Bytes) → Io W (List Accumulation)
  accumulations m [] = pure []
  accumulations m ((queue, groups) ∷ rest) = do
    first ← accumulations_in m queue groups
    others ← accumulations m rest
    pure (first ++ others)

  abbrev pub all_accumulations : Io (State W) (List Accumulation)
  all_accumulations (m, w) = lift (accumulations m (get_queue_map m)) (m, w)

  unfoldable pub accumulation_status : Io (QueueImp × W) (List Accumulation)
  accumulation_status = do refreshed; on_metadata all_accumulations

  unfoldable pub online_proxys : QueueImp → W → W × (Dict Bytes Bytes × Option Error)
  online_proxys q w = proxys s.clients q.metadata w

  unfoldable pub proxy_config : QueueImp → ℤ → Io W Bytes
  proxy_config q id = get_proxy_config_by_id s.clients q.metadata id
