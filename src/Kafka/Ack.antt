-- ===== src/Kafka/Ack.antt =====
-- engine/kafka/consumer.go: `ackNode`, `ackHead` and `ackGroup`. A node is known by its address; the
-- two rings of a head are the sequences of node addresses that List.Ring relates to the heap.
pub mod Sequence
use wqs.Common.{
  ℕ, zero, suc, ◌+◌, ◌-◌, ◌*◌, ◌^◌, Bool, true, false, Option, none, some, List, [], ◌∷◌, ◌++◌,
  Bytes, ltb, ◌==◌, if◌then◌else◌,
}
use wqs.Common.Int.{ℤ}
use wqs.Common.Eq.{bytes_key, int_key}
use wqs.Common.Dict.{Dict, lookup, insert}

-- The fields of `sarama.ConsumerMessage` that the program reads.
pub record Message : Type 0 where
  pub topic : Bytes
  pub partition : ℤ
  pub offset : ℤ
  pub key : Bytes
  pub value : Bytes

-- Times are nanoseconds.
pub record AckNode : Type 0 where
  pub msg : Message
  pub expired : ℕ

-- The node addresses in the order of arrival, and in the order of delivery to clients.
pub record AckHead : Type 0 where
  pub ack_head : List ℕ
  pub get_head : List ℕ

abbrev pub expired_max : ℕ
expired_max = 10 * 1000000000

abbrev pub new_ack_head : AckHead
new_ack_head = record { ack_head = []; get_head = [] }

abbrev pub push : AckHead → ℕ → AckHead
push h n = record { ack_head = h.ack_head ++ n ∷ []; get_head = h.get_head ++ n ∷ [] }

abbrev pub is_empty : AckHead → Bool
is_empty h = elim h.ack_head [ [] ↦ true | _ ∷ _ ↦ false ]

abbrev pub front : List ℕ → Option ℕ
front [] = none
front (n ∷ ns) = some n

-- The node leaves a ring; it stands in it once.
unfoldable pub without : ℕ → List ℕ → List ℕ
without n [] = []
without n (m ∷ ms) = let rest = without n ms in if m == n then rest else m ∷ rest

abbrev pub remove : AckHead → ℕ → AckHead
remove h n = record { ack_head = without n h.ack_head; get_head = without n h.get_head }

abbrev pub Nodes : Type 0
Nodes = ℕ → AckNode

abbrev pub set_node : Nodes → ℕ → AckNode → Nodes
set_node nodes n v m = if n == m then v else nodes m

-- The first node by delivery, if its delivery is older than `expired_max`: it is now the last one,
-- with a new time.
pub data Expiry : Type 0 where
  none_expired : Expiry
  expired_at : ℕ → AckHead → Expiry

unfoldable pub first_expired : Nodes → ℕ → AckHead → List ℕ → Expiry
first_expired nodes now h [] = none_expired
first_expired nodes now h (n ∷ rest) =
    if ltb expired_max (now - (nodes n).expired)
    then expired_at n (record h { get_head = rest ++ n ∷ [] })
    else none_expired

unfoldable pub get_expired : Nodes → ℕ → AckHead → Expiry
unfolding first_expired
get_expired nodes now h = first_expired nodes now h h.get_head

pub record AckGroup : Type 0 where
  pub ack_messages : Dict ℤ (Dict ℤ ℕ)
  pub partition_heads : Dict ℤ AckHead

abbrev pub Groups : Type 0
Groups = Dict Bytes AckGroup

abbrev pub new_group : AckGroup
new_group = record { ack_messages = []; partition_heads = [] }

abbrev pub group_or_new : Option AckGroup → AckGroup
group_or_new none = new_group
group_or_new (some g) = g

-- `g.partitionHeads[p]` and `g.ackMessages[p]` of the group `c.ackGroups[idc]`.
unfoldable pub head_at : Groups → Bytes → ℤ → Option AckHead
head_at gs idc p = elim (lookup gs idc) [ none ↦ none | some g ↦ lookup g.partition_heads p ]

unfoldable pub messages_at : Groups → Bytes → ℤ → Option (Dict ℤ ℕ)
messages_at gs idc p = elim (lookup gs idc) [ none ↦ none | some g ↦ lookup g.ack_messages p ]

unfoldable pub set_head : Groups → Bytes → ℤ → AckHead → Groups
set_head gs idc p h =
    let g = group_or_new (lookup gs idc) in
    insert gs idc (record g { partition_heads = insert g.partition_heads p h })

unfoldable pub set_messages : Groups → Bytes → ℤ → Dict ℤ ℕ → Groups
set_messages gs idc p ms =
    let g = group_or_new (lookup gs idc) in
    insert gs idc (record g { ack_messages = insert g.ack_messages p ms })
