-- ===== src/Queue/Metadata/GroupMap.antt =====
-- engine/queue/metadata.go: GetGroupMap against GetQueueMap, and the IDCs of a new queue.
use wqs.Common.{
  ◌≡◌, ap, ◌∙◌, Bool, true, false, Bool-cases, ◌||◌, ◌&&◌, Option, none, some, List, [], ◌∷◌, ◌++◌,
  inl, inr, Bytes, arith,
}
use wqs.Common.Eq.{bytes_key, bytes_eq, bytes_eq_iff}
use wqs.Common.Dict.{Dict, lookup, insert, lookup-insert}
use wqs.Kafka.Manager
use wqs.Queue.Metadata.{Metadata}
use wqs.Queue.Metadata.Views.{
  add_queue_to, group_map_of, get_group_map, get_queue_map, appended, is_there,
}
use wqs.Queue.Metadata.Queues.{contains, append_if_not_contains, or_local, idcs_of, all_known}

abbrev pub names_in : Option (List Bytes) → List Bytes
names_in none = []
names_in (some names) = names

-- Whether a queue is entered with a group.
unfoldable pub listed : Dict Bytes (List Bytes) → Bytes → Bytes → Bool
listed [] queue group = false
listed ((q, groups) ∷ rest) queue group =
    bytes_eq q queue && contains groups group || listed rest queue group

contains-append :
    (xs : List Bytes) (y x : Bytes) → contains (xs ++ (y ∷ [])) x ≡ (contains xs x || bytes_eq y x)
unfolding contains
contains-append [] y x = ground arith
contains-append (z ∷ xs) y x = ground (arith, contains-append xs y x)

contains-appended :
    (o : Option (List Bytes)) (y x : Bytes)
    → contains (appended o y) x ≡ (contains (names_in o) x || bytes_eq y x)
unfolding contains
contains-appended none y x = ground arith
contains-appended (some xs) y x = contains-append xs y x

-- One queue is added under each of its groups.
add_queue_to-contains :
    (q : Bytes) (groups : List Bytes) (d : Dict Bytes (List Bytes)) (queue group : Bytes)
    → contains (names_in (lookup (add_queue_to q groups d) group)) queue
      ≡ (contains (names_in (lookup d group)) queue || (bytes_eq q queue && contains groups group))
unfolding add_queue_to contains
add_queue_to-contains q [] d queue group = ground arith
add_queue_to-contains q (g ∷ groups) d queue group =
    let d' = insert d g (appended (lookup d g) q) in
    elim (Bool-cases (bytes_eq g group)) [
      | inl hit ↦
          let here : lookup d' group ≡ some (appended (lookup d g) q) =
            lookup-insert d g group (appended (lookup d g) q) ∙ ground (arith) in
          let same : lookup d g ≡ lookup d group = ap (lookup d) ((bytes_eq_iff g group).0 hit) in
          ground (
            arith,
            add_queue_to-contains q groups d' queue group,
            contains-appended (lookup d g) q queue,
          )
      | inr miss ↦
          let other : lookup d' group ≡ lookup d group =
            lookup-insert d g group (appended (lookup d g) q) ∙ ground (arith) in
          ground (arith, add_queue_to-contains q groups d' queue group)
    ]

group_map_of-contains :
    (map d : Dict Bytes (List Bytes)) (queue group : Bytes)
    → contains (names_in (lookup (group_map_of map d) group)) queue
      ≡ (contains (names_in (lookup d group)) queue || listed map queue group)
unfolding group_map_of listed
group_map_of-contains [] d queue group = ground arith
group_map_of-contains ((q, groups) ∷ rest) d queue group = ground (
  arith,
  group_map_of-contains rest (add_queue_to q groups d) queue group,
  add_queue_to-contains q groups d queue group,
)

-- GetGroupMap holds a queue under a group exactly if GetQueueMap holds the group under the queue.
pub get_group_map-listed :
    (m : Metadata) (queue group : Bytes)
    → contains (names_in (lookup (get_group_map m) group)) queue
      ≡ listed (get_queue_map m) queue group
unfolding get_group_map lookup contains
get_group_map-listed m queue group = group_map_of-contains (get_queue_map m) [] queue group

contains_local : (xs : List Bytes) (it : Bytes) → contains (append_if_not_contains xs it) it ≡ true
unfolding append_if_not_contains
contains_local xs it = ground (arith, contains-append xs it it, bytes_eq_iff it it)

contains_more :
    (xs : List Bytes) (it x : Bytes)
    → contains xs x ≡ true
    → contains (append_if_not_contains xs it) x ≡ true
unfolding append_if_not_contains
contains_more xs it x h = ground (arith, contains-append xs it x)

all_known-lookup :
    (managers : Dict Bytes Manager.Manager) (idcs : List Bytes) (idc : Bytes)
    → all_known managers idcs ≡ true
    → contains idcs idc ≡ true
    → is_there (lookup managers idc) ≡ true
unfolding all_known contains
all_known-lookup managers [] idc known h = absurd (cc)
all_known-lookup managers (x ∷ idcs) idc known h = elim (Bool-cases (bytes_eq x idc)) [
  | inl same ↦ rw (← (bytes_eq_iff x idc).0 same) (ground arith)
  | inr other ↦ all_known-lookup managers idcs idc (ground arith) (ground arith)
]

or_local-contains :
    (m : Metadata) (idcs : List Bytes) (idc : Bytes)
    → contains idcs idc ≡ true
    → contains (or_local m idcs) idc ≡ true
unfolding contains
or_local-contains m [] idc h = absurd (cc)
or_local-contains m (x ∷ idcs) idc h = h

-- The IDCs of a new queue are those asked for and the local one; when AddQueue has found all of
-- them known, each of these has a manager.
pub idcs_of-all_known :
    (m : Metadata) (idcs : List Bytes) (idc : Bytes)
    → contains idcs idc ≡ true
    → all_known m.managers (idcs_of m idcs) ≡ true
    → (contains (idcs_of m idcs) m.local ≡ true)
      × (contains (idcs_of m idcs) idc ≡ true)
      × (is_there (lookup m.managers m.local) ≡ true)
      × (is_there (lookup m.managers idc) ≡ true)
unfolding idcs_of
idcs_of-all_known m idcs idc asked known =
    let here = contains_local (or_local m idcs) m.local in
    let there = contains_more (or_local m idcs) m.local idc (or_local-contains m idcs idc asked) in
    (
      here,
      there,
      all_known-lookup m.managers (append_if_not_contains (or_local m idcs) m.local) m.local known
          here,
      all_known-lookup m.managers (append_if_not_contains (or_local m idcs) m.local) idc known
          there,
    )
