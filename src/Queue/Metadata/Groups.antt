-- ===== src/Queue/Metadata/Groups.antt =====
-- engine/queue/metadata.go: AddGroup, DeleteGroup, UpdateGroupConfig and ResetOffset.
use wqs.Common.{ℕ, Bool, true, false, not, [], ◌∷◌, Bytes, if◌then◌else◌}
use wqs.Common.Int.{ℤ}
use wqs.Common.Dict.{Dict}
use wqs.Engine.{Error, already_exists, not_found, Done, ◌>>=◌, ◌>>◌, pure, throw_if}
use wqs.Zookeeper
use wqs.Kafka.Manager
use wqs.Kafka.Manager.Offsets.{fetch_topic_offsets, commit_offset}
use wqs.Queue.Config.{GroupConfig}
use wqs.Queue.Metadata.{Clients, State, lift, locked, refresh_metadata, build_config_path}
use wqs.Queue.Metadata.Views.{exist_group}

module _ {W : Type 0} (c : Clients W) where
  abbrev pub create_group : GroupConfig → Done (State W)
  create_group g (m, w) =
      lift
        (Zookeeper.create_recursive c.zk (build_config_path m g.group g.queue)
          (c.encoding.group_string g) 0)
        (m, w)

  abbrev pub guard_group : Bool → Error → Bytes → Bytes → Done (State W)
  guard_group wanted e queue group (m, w) =
      throw_if (if wanted then not (exist_group m queue group) else exist_group m queue group) e
        (m, w)

  abbrev pub add_group_body : GroupConfig → Done (State W)
  add_group_body g = do
    refresh_metadata c
    guard_group false already_exists g.queue g.group
    create_group g

  unfoldable pub add_group : GroupConfig → Done (State W)
  add_group g = locked c (add_group_body g)

  abbrev pub remove_group : ℕ → Bytes → Bytes → Done (State W)
  remove_group fuel group queue (m, w) =
      lift (Zookeeper.delete_recursive c.zk fuel (build_config_path m group queue)) (m, w)

  abbrev pub delete_group_body : ℕ → Bytes → Bytes → Done (State W)
  delete_group_body fuel group queue = do
    refresh_metadata c
    guard_group true not_found queue group
    remove_group fuel group queue

  -- `fuel` bounds the height of the tree below the group.
  unfoldable pub delete_group : ℕ → Bytes → Bytes → Done (State W)
  delete_group fuel group queue = locked c (delete_group_body fuel group queue)

  abbrev pub set_group : GroupConfig → Done (State W)
  set_group g (m, w) =
      lift (c.zk.set (build_config_path m g.group g.queue) (c.encoding.group_string g)) (m, w)

  abbrev pub update_group_body : GroupConfig → Done (State W)
  update_group_body g = do
    refresh_metadata c
    guard_group true not_found g.queue g.group
    set_group g

  unfoldable pub update_group_config : GroupConfig → Done (State W)
  update_group_config g = locked c (update_group_body g)

  -- The offsets of a group, in the Kafka of each IDC in the order of the list.
  unfoldable pub reset_in : Bytes → Bytes → ℤ → Dict Bytes Manager.Manager → Done W
  reset_in queue group time [] = pure tt
  reset_in queue group time ((idc, manager) ∷ managers) = do
    offsets ← fetch_topic_offsets (c.kafka idc) queue time
    commit_offset (c.kafka idc) queue group offsets
    reset_in queue group time managers

  abbrev pub reset_all : Bytes → Bytes → ℤ → Done (State W)
  reset_all queue group time (m, w) = lift (reset_in queue group time m.managers) (m, w)

  unfoldable pub reset_offset : Bytes → Bytes → ℤ → Done (State W)
  reset_offset queue group time = do refresh_metadata c; reset_all queue group time
