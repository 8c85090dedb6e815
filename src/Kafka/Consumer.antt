-- ===== src/Kafka/Consumer.antt =====
-- engine/kafka/consumer.go: `Consumer`. A method is a function of the state; what it is told by its
-- surroundings (the message channel, the clock, the order in which Go visits a map) are arguments.
-- `recv` and `ack` are calls that no other gets in the way of; Runs has the steps of several calls.
pub mod Views
pub mod Invariant
pub mod Valid
pub mod Redelivery
pub mod Round
pub mod Acks
pub mod Tracking
pub mod Commit
pub mod Safety
pub mod Runs
mod Tests
use wqs.Common.{
  ℕ, zero, suc, ◌+◌, ◌-◌, Bool, true, false, Option, none, some, List, [], ◌∷◌, ◌++◌, Bytes, ◌==◌,
  ◌&&◌, if◌then◌else◌,
}
use wqs.Common.Int.{ℤ, pos, ◌+ℤ◌, ◌-ℤ◌, ltb_ℤ, eq_ℤ, int32, int64}
use wqs.Common.Eq.{bytes_key, int_key}
use wqs.Common.Dict.{Dict, lookup, insert, erase}
use wqs.Kafka.Ack.{
  Message, AckNode, AckHead, new_ack_head, push, is_empty, front, remove, Nodes, set_node, Expiry,
  none_expired, expired_at, get_expired, Groups, head_at, messages_at, set_head, set_messages,
}

pub data Error : Type 0 where
  timeout closed bad_ack new_consumer idc_not_exist invalid_partition invalid_offset empty_addr :
      Error

-- The calls that a Kafka consumer of an IDC gets.
pub data Mark : Type 0 where
  mark_offset : Message → Mark
  mark_partition_offset : Bytes → ℤ → ℤ → Mark

pub record Consumer : Type 0 where
  pub padding : ℤ
  pub ack_groups : Groups
  -- The nodes in the heap, and the address of the next one.
  pub nodes : Nodes
  pub next_node : ℕ
  -- The calls of `MarkOffset` and `MarkPartitionOffset` so far, with the IDC, the latest first.
  pub marks : List (Bytes × Mark)

abbrev pub padding_max : ℤ
padding_max = pos 1024

-- What the `select` of `recv` yields.
pub data Incoming : Type 0 where
  arrived : Bytes → Message → Incoming
  channel_closed : Incoming
  timed_out : Incoming

pub data Outcome : Type 0 where
  received : Bytes → Message → Outcome
  failed : Error → Outcome
  panicked : Outcome

abbrev pub head_or_new : Option AckHead → AckHead
head_or_new none = new_ack_head
head_or_new (some h) = h

-- The map of the partition: a new one beside a new head; writing to a nil map panics.
abbrev pub messages_or_new : Option AckHead → Option (Dict ℤ ℕ) → Option (Dict ℤ ℕ)
messages_or_new none ms = some []
messages_or_new (some h) ms = ms

abbrev pub tracked : Consumer → ℕ → Bytes → Message → Dict ℤ ℕ → Consumer
tracked c now idc msg ms =
    let h = push (head_or_new (head_at c.ack_groups idc msg.partition)) c.next_node in
    let heads = set_head c.ack_groups idc msg.partition h in
    record c {
      padding = int32 (c.padding +ℤ pos 1);
      ack_groups = set_messages heads idc msg.partition (insert ms msg.offset c.next_node);
      nodes = set_node c.nodes c.next_node (record { msg = msg; expired = now });
      next_node = suc c.next_node;
    }

pub try_recv : Consumer → ℕ → Incoming → Consumer × Outcome
try_recv c now channel_closed = (c, failed closed)
try_recv c now timed_out = (c, failed timeout)
try_recv c now (arrived idc msg) =
    elim (messages_or_new (head_at c.ack_groups idc msg.partition)
      (messages_at c.ack_groups idc msg.partition)) [
        | none ↦ (c, panicked)
        | some ms ↦ (tracked c now idc msg ms, received idc msg)
      ]

-- The loops of `Recv` over groups and heads, in the order that Go visits them.
pub find_expired : Consumer → ℕ → List (Bytes × ℤ) → Option (Consumer × Bytes × Message)
find_expired c now [] = none
find_expired c now ((idc, p) ∷ order) =
    let rest = find_expired c now order in
    elim (head_at c.ack_groups idc p) [
      | none ↦ rest
      | some h ↦ elim (get_expired c.nodes now h) [
        | none_expired ↦ rest
        | expired_at n h' ↦ some (
          record c {
            ack_groups = set_head c.ack_groups idc p h';
            nodes = set_node c.nodes n (record { msg = (c.nodes n).msg; expired = now });
          },
          idc,
          (c.nodes n).msg,
        )
      ]
    ]

abbrev pub redelivered : Consumer → Error → Option (Consumer × Bytes × Message) → Consumer × Outcome
redelivered c err none = (c, failed err)
redelivered c err (some (c', idc, msg)) = (c', received idc msg)

-- The second half of `Recv`, after `recv` failed or was not tried.
pub recv_expired : Consumer → Error → ℕ → List (Bytes × ℤ) → Consumer × Outcome
unfolding find_expired
recv_expired c err now order =
    if ltb_ℤ (pos 0) c.padding
    then redelivered c err (find_expired c now order)
    else (c, failed err)

abbrev pub after_try : Consumer × Outcome → ℕ → List (Bytes × ℤ) → Consumer × Outcome
after_try (c, failed err) now order = recv_expired c err now order
after_try (c, result) now order = (c, result)

pub recv : Consumer → Incoming → ℕ → ℕ → List (Bytes × ℤ) → Consumer × Outcome
unfolding try_recv recv_expired
recv c incoming arrival now order =
    if ltb_ℤ c.padding padding_max
    then after_try (try_recv c arrival incoming) now order
    else recv_expired c timeout now order

-- What follows the first node, if there is a gap behind the acknowledged offset.
abbrev pub gap_mark : Nodes → Bytes → ℤ → Option ℕ → List (Bytes × Mark)
gap_mark nodes idc offset none = []
gap_mark nodes idc offset (some first) =
    let msg = (nodes first).msg in
    if ltb_ℤ (int64 (offset +ℤ pos 1)) msg.offset
    then (idc, mark_partition_offset msg.topic msg.partition (int64 (msg.offset -ℤ pos 1))) ∷ []
    else []

abbrev pub is_front : ℕ → Option ℕ → Bool
is_front n none = false
is_front n (some first) = first == n

abbrev pub ack_marks : Nodes → Bytes → ℤ → ℕ → AckHead → List (Bytes × Mark)
ack_marks nodes idc offset n h =
    if is_front n (front h.ack_head)
    then gap_mark nodes idc offset (front (remove h n).ack_head)
      ++ (idc, mark_offset (nodes n).msg) ∷ []
    else []

abbrev pub acked : Consumer → Bytes → ℤ → ℤ → AckHead → Dict ℤ ℕ → ℕ → Consumer
acked c idc p offset h ms n = record c {
  padding = int32 (c.padding -ℤ pos 1);
  ack_groups = set_messages (set_head c.ack_groups idc p (remove h n)) idc p (erase ms offset);
  marks = ack_marks c.nodes idc offset n h ++ c.marks;
}

-- `Ack` behind the look-up of the group; `none` is success.
pub ack_in_group :
    Consumer → Bytes → ℤ → ℤ → Option AckHead → Option (Dict ℤ ℕ) → Consumer × Option Error
ack_in_group c idc p offset none ms = (c, some invalid_partition)
ack_in_group c idc p offset (some h) none = (c, some invalid_partition)
ack_in_group c idc p offset (some h) (some ms) = elim (lookup ms offset) [
  | none ↦ (c, some invalid_offset)
  | some n ↦ if is_empty h then (c, some bad_ack) else (acked c idc p offset h ms n, none)
]

pub ack : Consumer → Bytes → ℤ → ℤ → Consumer × Option Error
unfolding ack_in_group
ack c idc p offset = elim (lookup c.ack_groups idc) [
  | none ↦ (c, some idc_not_exist)
  | some _ ↦
      ack_in_group c idc p offset (head_at c.ack_groups idc p) (messages_at c.ack_groups idc p)
]

-- The state that `NewConsumer` builds.
abbrev pub fresh : Consumer
fresh = record {
  padding = pos 0;
  ack_groups = [];
  nodes = λ _. record {
    msg = record { topic = []; partition = pos 0; offset = pos 0; key = []; value = [] };
    expired = 0;
  };
  next_node = 0;
  marks = [];
}
