-- ===== src/Queue/Imp/Delivery.antt =====
-- RecvMessage and AckMessage together: the id that the one prints leads the other to the message.
use wqs.Common.{◌<◌, ◌≡◌, ◌≢◌, refl, ◌∙◌, true, Option, none, some, Bytes}
use wqs.Common.Int.{InInt32, InInt64}
use wqs.Common.Eq.{bytes_key}
use wqs.Common.Dict.{lookup, lookup-insert_self}
use wqs.Go.Strings.{Free}
use wqs.Kafka.Ack.{Message}
use wqs.Kafka.Consumer
use wqs.Kafka.Consumer.{recv, ack, arrived, received}
use wqs.Kafka.Consumer.Views.{total}
use wqs.Kafka.Consumer.Valid.{IsValid}
use wqs.Kafka.Consumer.Redelivery.{recv-IsValid}
use wqs.Kafka.Consumer.Acks.{node_at, ack_tracked, ack_untracked, ack-IsValid}
use wqs.Kafka.Consumer.Tracking.{recv_arrived}
use wqs.Queue.MessageId.{MessageId, to_string, parse-to_string}
use wqs.Queue.Metadata.Views.{exist_group}
use wqs.Queue.Imp.{QueueImp, Service, owner_of}
use wqs.Queue.Imp.Messages.{
  Arrival, reply, received_of, id_to, read_key, recv_message, ack_message, set_consumer, empty_id,
  ack_reply,
}

ack_reply_fails :
    (q : QueueImp) (owner : Bytes) (r : Consumer.Consumer × Option Consumer.Error)
    → r.1 ≢ none
    → (ack_reply q owner r).1 ≢ none
ack_reply_fails q owner (c, none) h = λ e. h refl
ack_reply_fails q owner (c, some x) h = λ e. cc

ack_reply_done :
    (q : QueueImp) (owner : Bytes) (r : Consumer.Consumer × Option Consumer.Error)
    → r.1 ≡ none
    → ack_reply q owner r ≡ (set_consumer q owner r.0, none)
ack_reply_done q owner (c, none) h = refl
ack_reply_done q owner (c, some x) h = absurd (cc)

module _ (q : QueueImp) (queue group : Bytes) (c : Consumer.Consumer)
    (known : exist_group q.metadata queue group ≡ true)
    (opened : lookup q.consumer_map (owner_of queue group) ≡ some c) where
  -- An id that the queue printed reaches the consumer with the IDC, the partition and the offset.
  pub ack_message-to_string :
      (m : MessageId)
      → Free b':' m.queue
      → Free b':' m.group
      → InInt32 m.partition
      → InInt64 m.offset
      → ack_message q queue group (to_string m)
        ≡ ack_reply q (owner_of queue group) (ack c m.idc m.partition m.offset)
  unfolding ack_message
  ack_message-to_string m queue_free group_free p o =
      rw (known, opened, parse-to_string empty_id m queue_free group_free p o) refl

module _ {W : Type 0} (s : Service W) (w : W) (q : QueueImp) (queue group : Bytes)
    (c : Consumer.Consumer) (known : exist_group q.metadata queue group ≡ true)
    (opened : lookup q.consumer_map (owner_of queue group) ≡ some c) (v : IsValid c)
    (below : total c.ack_groups < 1024) (idc : Bytes) (msg : Message) (a : Arrival)
    (new : a.incoming ≡ arrived idc msg) where
  abbrev c_after : Consumer.Consumer
  c_after = (recv c a.incoming a.arrival a.now a.order).0

  -- RecvMessage hands out the message that Recv hands out, and keeps its consumer.
  recv_message-recv : recv_message s q w queue group a ≡ (
    (set_consumer q (owner_of queue group) c_after, w),
    reply (received_of queue group idc msg),
  )
  unfolding recv_message
  recv_message-recv =
      let out : (recv c a.incoming a.arrival a.now a.order).1 ≡ received idc msg =
        rw new (recv_arrived c v idc msg a.arrival a.now a.order below).0 in
      rw (known, opened, out) refl

  -- Below the limit of pending messages, a new message comes with its value, and an id whose
  -- acknowledgement succeeds, once: the next one fails. The names of the queue and the group are
  -- without colons, and the partition and the offset are numbers of 32 and 64 bits.
  pub recv_message-ack_message :
      Free b':' queue
      → Free b':' group
      → InInt32 msg.partition
      → InInt64 msg.offset
      → ((recv_message s q w queue group a).1 ≡ reply (received_of queue group idc msg))
        × ((ack_message
              (recv_message s q w queue group a).0.0
              queue
              group
              (received_of queue group idc msg).id).1
            ≡ none)
        × ((ack_message
              (ack_message
                (recv_message s q w queue group a).0.0
                queue
                group
                (received_of queue group idc msg).id).0
              queue
              group
              (received_of queue group idc msg).id).1
            ≢ none)
  recv_message-ack_message queue_free group_free p o =
      let owner = owner_of queue group in
      let m = id_to queue group idc msg.partition msg.offset (read_key msg.key).0 in
      let q1 = set_consumer q owner c_after in
      let v1 = (recv-IsValid c a.incoming a.arrival a.now a.order v).0 in
      let here : node_at c_after idc msg.partition msg.offset ≡ some c.next_node =
        rw new (recv_arrived c v idc msg a.arrival a.now a.order below).1 in
      let done = ack_tracked c_after v1 idc msg.partition msg.offset c.next_node here in
      let c2 = (ack c_after idc msg.partition msg.offset).0 in
      let q2 = set_consumer q1 owner c2 in
      let first : ack_message q1 queue group (to_string m) ≡ (q2, none) =
        ack_message-to_string q1 queue group c_after known
          (lookup-insert_self q.consumer_map owner c_after) m queue_free group_free p o
        ∙ ack_reply_done q1 owner (ack c_after idc msg.partition msg.offset) done.0 in
      let again : ack_message q2 queue group (to_string m)
          ≡ ack_reply q2 owner (ack c2 idc msg.partition msg.offset) =
        ack_message-to_string q2 queue group c2 known (lookup-insert_self q1.consumer_map owner c2)
          m queue_free group_free p o in
      let gone =
        ack_untracked c2 (ack-IsValid c_after v1 idc msg.partition msg.offset) idc msg.partition
          msg.offset done.4 in
      rw (recv_message-recv, first, again)
        (refl, refl, ack_reply_fails q2 owner (ack c2 idc msg.partition msg.offset) gone.1)
