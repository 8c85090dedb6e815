-- ===== src/Queue/Imp.antt =====
-- engine/queue/queue_imp.go: `queueImp`, the operations of the queue. Their counters and logs are
-- left out. An operation sees one state of the metadata; the order of Go's maps is the order of
-- their entries.
pub mod Admin
pub mod Status
pub mod Messages
pub mod Keys
pub mod Delivery
pub mod Owners
pub mod Guards
mod Tests
use wqs.Common.{
  ℕ, Bool, true, false, ◌&&◌, ◌||◌, ltb, leb, List, [], ◌∷◌, ◌++◌, Bytes, length, ◌==◌,
}
use wqs.Go.Strings.{all_words}
use wqs.Common.Eq.{bytes_key}
use wqs.Common.Dict.{Dict}
use wqs.Engine.{Io, Result}
use wqs.Kafka.Consumer
use wqs.Kafka.Opening.{Cluster}
use wqs.Queue.IdGenerator.{IdGenerator}
use wqs.Queue.Metadata.{Metadata, Clients, State}

pub record QueueImp : Type 0 where
  pub metadata : Metadata
  pub id_generator : IdGenerator
  pub consumer_map : Dict Bytes Consumer.Consumer

-- What the queue calls outside: the clients of the metadata, and those for messages.
pub record Service (W : Type 0) : Type 0 where
  pub clients : Clients W
  pub cluster : Cluster W

-- A method of the metadata, called by the queue.
abbrev pub on_metadata : {W A : Type 0} → Io (State W) A → Io (QueueImp × W) A
on_metadata f (q, w) = let ((m, w'), r) = f (q.metadata, w) in ((record q { metadata = m }, w'), r)

-- The expression `^[a-zA-Z0-9_]{1,20}$`.
unfoldable pub vaild_name : Bytes → Bool
vaild_name s = all_words s && (leb 1 (length s) && leb (length s) 20)

abbrev pub owner_of : Bytes → Bytes → Bytes
owner_of queue group = queue ++ (b'@' ∷ group)
