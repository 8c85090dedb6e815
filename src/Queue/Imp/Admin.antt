-- ===== src/Queue/Imp/Admin.antt =====
-- engine/queue/queue_imp.go: Create, Update, Delete, AddGroup, UpdateGroup and DeleteGroup.
use wqs.Common.{ℕ, Bool, not, ◌&&◌, List, Bytes}
use wqs.Common.Int.{ℤ, negsuc}
use wqs.Engine.{not_found, not_valid, Done, ◌>>◌, throw_if}
use wqs.Queue.Config.{GroupConfig}
use wqs.Queue.Metadata
use wqs.Queue.Metadata.{State}
use wqs.Queue.Metadata.Views.{exist_queue}
use wqs.Queue.Metadata.Groups.{add_group, delete_group, update_group_config, reset_offset}
use wqs.Queue.Metadata.Queues.{Random, add_queue, del_queue}
use wqs.Queue.Imp.{QueueImp, Service, on_metadata, vaild_name}

-- `sarama.OffsetNewest`
abbrev pub offset_newest : ℤ
offset_newest = negsuc 0

abbrev pub both_vaild : Bytes → Bytes → Bool
both_vaild group queue = vaild_name group && vaild_name queue

module _ {W : Type 0} (s : Service W) where
  unfoldable pub create : Random → ℤ → Bytes → List Bytes → Done (QueueImp × W)
  create random now queue idcs = do
    throw_if (not (vaild_name queue)) not_valid
    on_metadata (add_queue s.clients random now queue idcs)

  abbrev pub must_exist : Bytes → Done (State W)
  must_exist queue (m, w) = throw_if (not (exist_queue m queue)) not_found (m, w)

  unfoldable pub update : Bytes → Done (QueueImp × W)
  update queue = do
    throw_if (not (vaild_name queue)) not_valid
    on_metadata (Metadata.refresh_metadata s.clients)
    on_metadata (must_exist queue)

  unfoldable pub delete : ℕ → Bytes → Done (QueueImp × W)
  delete fuel queue = do
    throw_if (not (vaild_name queue)) not_valid
    on_metadata (del_queue s.clients fuel queue)

  unfoldable pub add_group_of : GroupConfig → Done (QueueImp × W)
  add_group_of g = do
    throw_if (not (both_vaild g.group g.queue)) not_valid
    on_metadata (add_group s.clients g)
    on_metadata (reset_offset s.clients g.queue g.group offset_newest)

  unfoldable pub update_group : GroupConfig → Done (QueueImp × W)
  update_group g = do
    throw_if (not (both_vaild g.group g.queue)) not_valid
    on_metadata (update_group_config s.clients g)

  unfoldable pub delete_group_of : ℕ → Bytes → Bytes → Done (QueueImp × W)
  delete_group_of fuel group queue = do
    throw_if (not (both_vaild group queue)) not_valid
    on_metadata (delete_group s.clients fuel group queue)
