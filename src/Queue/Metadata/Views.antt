-- ===== src/Queue/Metadata/Views.antt =====
-- engine/queue/metadata.go: the answers from the configurations in memory.
use wqs.Common.{Bool, true, false, Option, none, some, List, [], ◌∷◌, ◌++◌, Bytes, map}
use wqs.Common.Eq.{bytes_key}
use wqs.Common.Dict.{Dict, lookup, insert}
use wqs.Engine.{Error, not_found, Result, ok, err}
use wqs.Queue.Config.{GroupConfig, QueueConfig, QueueInfo, sort_by}
use wqs.Queue.Metadata.{Metadata}

abbrev pub is_there : {A : Type 0} → Option A → Bool
is_there none = false
is_there (some a) = true

abbrev pub names_of : {A : Type 0} → Dict Bytes A → List Bytes
names_of d = map (λ e. e.0) d

abbrev pub values_of : {A : Type 0} → Dict Bytes A → List A
values_of d = map (λ e. e.1) d

unfoldable pub exist_queue : Metadata → Bytes → Bool
exist_queue m queue = is_there (lookup m.queue_configs queue)

abbrev pub group_of : Option QueueConfig → Bytes → Option GroupConfig
group_of none group = none
group_of (some q) group = lookup q.groups group

unfoldable pub exist_group : Metadata → Bytes → Bytes → Bool
exist_group m queue group = is_there (group_of (lookup m.queue_configs queue) group)

unfoldable pub get_queue_config : Metadata → Bytes → Option QueueConfig
get_queue_config m queue = lookup m.queue_configs queue

abbrev pub found : {A : Type 0} → Option A → Result A
found none = err not_found
found (some a) = ok a

unfoldable pub get_group_config : Metadata → Bytes → Bytes → Result GroupConfig
get_group_config m group queue = found (group_of (lookup m.queue_configs queue) group)

abbrev pub info_of : Bytes → QueueConfig → QueueInfo
info_of queue q = record {
  queue = queue;
  ctime = q.ctime;
  length = q.length;
  groups = sort_by (λ g. g.group) (values_of q.groups);
}

-- The slice and the error: what was gathered before an unknown queue is not sorted.
unfoldable pub queue_infos : Metadata → List Bytes → List QueueInfo × Option Error
queue_infos m [] = ([], none)
queue_infos m (queue ∷ queues) = elim (lookup m.queue_configs queue) [
  | none ↦ ([], some not_found)
  | some q ↦ let (infos, e) = queue_infos m queues in (info_of queue q ∷ infos, e)
]

abbrev pub sorted_infos : List QueueInfo × Option Error → List QueueInfo × Option Error
sorted_infos (infos, none) = (sort_by (λ i. i.queue) infos, none)
sorted_infos (infos, some e) = (infos, some e)

unfoldable pub get_queue_info : Metadata → List Bytes → List QueueInfo × Option Error
get_queue_info m queues = sorted_infos (queue_infos m queues)

unfoldable pub get_queues : Metadata → List Bytes
get_queues m = names_of m.queue_configs

unfoldable pub get_queue_map : Metadata → Dict Bytes (List Bytes)
get_queue_map m = map (λ e. (e.0, names_of e.1.groups)) m.queue_configs

abbrev pub appended : Option (List Bytes) → Bytes → List Bytes
appended none queue = queue ∷ []
appended (some queues) queue = queues ++ (queue ∷ [])

unfoldable pub add_queue_to : Bytes → List Bytes → Dict Bytes (List Bytes) → Dict Bytes (List Bytes)
add_queue_to queue [] d = d
add_queue_to queue (group ∷ groups) d =
    add_queue_to queue groups (insert d group (appended (lookup d group) queue))

unfoldable pub group_map_of :
    Dict Bytes (List Bytes) → Dict Bytes (List Bytes) → Dict Bytes (List Bytes)
group_map_of [] d = d
group_map_of ((queue, groups) ∷ rest) d = group_map_of rest (add_queue_to queue groups d)

unfoldable pub get_group_map : Metadata → Dict Bytes (List Bytes)
get_group_map m = group_map_of (get_queue_map m) []

unfoldable pub get_broker_addrs_by_idc : Metadata → List Bytes → Dict Bytes (List Bytes)
get_broker_addrs_by_idc m [] = []
get_broker_addrs_by_idc m (idc ∷ idcs) =
    let rest = get_broker_addrs_by_idc m idcs in
    elim (lookup m.managers idc) [
      | none ↦ rest
      | some manager ↦ insert rest idc manager.broker_addrs
    ]

abbrev pub has_no_group : QueueConfig → Bool
has_no_group q = elim q.groups [ [] ↦ true | _ ∷ _ ↦ false ]

-- `canDeleteQueue`
unfoldable pub can_delete_queue : Metadata → Bytes → Result Bool
can_delete_queue m queue = elim (lookup m.queue_configs queue) [
  | none ↦ err not_found
  | some q ↦ ok (has_no_group q)
]
