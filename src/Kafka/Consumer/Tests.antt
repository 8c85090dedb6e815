-- ===== src/Kafka/Consumer/Tests.antt =====
-- A consumer that received the offsets 5, 6 and 9 of partition 0, and the theorems on it.
use wqs.Common.{List, ◌*◌, ℕ, suc, ◌≡◌, refl, false, none, some, [], ◌∷◌, Bytes, arith, codes}
use wqs.Common.Int.{ℤ, pos, int32, int64, eq_ℤ}
use wqs.Common.Eq.{int_key, bytes_eq}
use wqs.Common.Dict.{lookup, insert, erase, sum}
use wqs.Kafka.Ack.{
  AckHead, Groups, Message, head_at, messages_at, set_head, set_messages, without, get_expired,
}
use wqs.Kafka.Consumer.{
  Consumer, mark_offset, mark_partition_offset, arrived, timed_out, received, failed, timeout, ack,
  recv, try_recv, recv_expired, find_expired, fresh,
}
use wqs.Kafka.Consumer.Views.{same, pending, total, group_size}
use wqs.Kafka.Consumer.Acks.{node_at, ack_tracked}
use wqs.Kafka.Consumer.Runs.{Run, start, step, enter, take, Run-keeps}
use wqs.Kafka.Consumer.Valid.{IsValid}

program : Unit {0}
unfolding recv try_recv recv_expired find_expired ack lookup insert erase head_at messages_at
    set_head set_messages without get_expired int32 int64 eq_ℤ bytes_eq pending total group_size sum
program = tt

abbrev yf : Bytes
yf = codes "yf"

abbrev at_offset : ℕ → Message
at_offset o = record {
  topic = codes "q";
  partition = pos 0;
  offset = pos o;
  key = [];
  value = codes "m";
}

abbrev second : ℕ
second = 1000000000

abbrev c5 : Consumer
c5 = (recv fresh (arrived yf (at_offset 5)) 0 0 []).0

abbrev c56 : Consumer
c56 = (recv c5 (arrived yf (at_offset 6)) 0 0 []).0

abbrev c569 : Consumer
c569 = (recv c56 (arrived yf (at_offset 9)) 0 0 []).0

-- The acknowledgement of the first message reports its offset; that of the second the gap as well.
marks_in_order :
    (ack (ack c569 yf (pos 0) (pos 5)).0 yf (pos 0) (pos 6)).0.marks
    ≡ (yf, mark_partition_offset (codes "q") (pos 0) (pos 8))
      ∷ (yf, mark_offset (at_offset 6))
      ∷ (yf, mark_offset (at_offset 5))
      ∷ []
unfolding program
marks_in_order = refl

-- Acknowledged from the last to the first, nothing is pending and only the first is reported.
marks_out_of_order :
    (ack (ack (ack c569 yf (pos 0) (pos 9)).0 yf (pos 0) (pos 6)).0 yf (pos 0) (pos 5)).0.marks
    ≡ (yf, mark_offset (at_offset 5)) ∷ []
unfolding program
marks_out_of_order = refl

-- After ten seconds without an acknowledgement the oldest delivery is repeated.
redelivery : (recv c569 timed_out 0 (11 * second) ((yf, pos 0) ∷ [])).1 ≡ received yf (at_offset 5)
unfolding program
redelivery = refl

no_redelivery : (recv c569 timed_out 0 (9 * second) ((yf, pos 0) ∷ [])).1 ≡ failed timeout
unfolding program
no_redelivery = refl

-- Two calls of Recv go into `recv` before the first of them enters its message.
run56 : Run 2 (record { consumer = c56; entered = 0 })
unfolding program
run56 =
    step
      (step (step (step start (enter refl (omega arith))) (enter refl (omega arith))) (
        take (arrived yf (at_offset 5)) 0 (omega arith)
          (record { range = (omega arith, omega arith); above = tt; unmarked = tt })))
      (take (arrived yf (at_offset 6)) 0 (omega arith)
        (record { range = (omega arith, omega arith); above = (omega arith, tt); unmarked = tt }))

valid56 : IsValid c56
valid56 = (Run-keeps 2 (omega arith) run56).valid

tracked_node_5 : node_at c56 yf (pos 0) (pos 5) ≡ some 0
unfolding program
tracked_node_5 = refl

ack_tracked_example :
    ((ack c56 yf (pos 0) (pos 5)).1 ≡ none)
    × (pending (ack c56 yf (pos 0) (pos 5)).0.ack_groups yf (pos 0)
        ≡ without 0 (pending c56.ack_groups yf (pos 0)))
    × ((j : Bytes) (q : ℤ)
        → same yf (pos 0) j q ≡ false
        → pending (ack c56 yf (pos 0) (pos 5)).0.ack_groups j q ≡ pending c56.ack_groups j q)
    × (suc (total (ack c56 yf (pos 0) (pos 5)).0.ack_groups) ≡ total c56.ack_groups)
    × (node_at (ack c56 yf (pos 0) (pos 5)).0 yf (pos 0) (pos 5) ≡ none)
ack_tracked_example = ack_tracked c56 valid56 yf (pos 0) (pos 5) 0 tracked_node_5

abbrev c6 : Consumer
c6 = (ack c56 yf (pos 0) (pos 5)).0

abbrev head_of_56 : AckHead
head_of_56 = record { ack_head = 0 ∷ 1 ∷ []; get_head = 0 ∷ 1 ∷ [] }

abbrev groups_of_56 : Groups
groups_of_56 =
    (
      yf,
      record {
        ack_messages = (pos 0, (pos 5, 0) ∷ (pos 6, 1) ∷ []) ∷ [];
        partition_heads = (pos 0, head_of_56) ∷ [];
      },
    )
    ∷ []

abbrev either_order : List (List (Bytes × ℤ))
either_order = ((yf, pos 1) ∷ (yf, pos 0) ∷ []) ∷ ((yf, pos 0) ∷ (codes "hk", pos 0) ∷ []) ∷ []
