-- ===== src/Kafka/Consumer/Round.antt =====
-- The redelivery of all messages of a partition: calls of `Recv` while nothing new arrives.
use wqs.Common.{Bool, ◌||◌, false, ℕ, ◌-◌, ◌<◌, ◌≡◌, some, List, [], ◌∷◌, Bytes}
use wqs.Common.Int.{ℤ}
use wqs.Common.Eq.{int_key, bytes_key}
use wqs.Kafka.Ack.{AckHead, Nodes, expired_max, get_expired, head_at, none_expired}
use wqs.Kafka.Consumer.{Consumer, Outcome, timed_out, recv}
use wqs.Kafka.Consumer.Views.{same}

-- Calls of `Recv` at one time, all of which time out in the channel. Each has its own order, in
-- which Go visits the partitions.
pub idle_recvs : ℕ → List (List (Bytes × ℤ)) → Consumer → List Outcome
idle_recvs now [] c = []
idle_recvs now (order ∷ orders) c =
    let (c', outcome) = recv c timed_out now now order in outcome ∷ idle_recvs now orders c'

-- The order comes to the partition.
unfoldable pub visits : Bytes → ℤ → List (Bytes × ℤ) → Bool
visits i p [] = false
visits i p ((j, q) ∷ order) = same i p j q || visits i p order

-- No message of the partition was delivered too long ago.
unfoldable pub IsQuiet : Consumer → ℕ → Bytes → ℤ → Type 0
IsQuiet c now j q =
    (h : AckHead) → head_at c.ack_groups j q ≡ some h → get_expired c.nodes now h ≡ none_expired

-- None but this one has such messages.
unfoldable pub OthersQuiet : Consumer → ℕ → Bytes → ℤ → Type 0
unfolding IsQuiet
OthersQuiet c now i p = (j : Bytes) (q : ℤ) → same i p j q ≡ false → IsQuiet c now j q

-- The last delivery of a node is too long ago.
abbrev pub Old : Nodes → ℕ → ℕ → Type 0
Old nodes now n = expired_max < now - (nodes n).expired
