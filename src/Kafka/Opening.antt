-- ===== src/Kafka/Opening.antt =====
-- engine/kafka/consumer.go and producer.go: NewConsumer, and what the queue uses of
-- github.com/bsm/sarama-cluster and of the producer of github.com/Shopify/sarama.
use wqs.Common.{Bool, true, false, List, [], ◌∷◌, Bytes, ◌⊎◌, inl, inr}
use wqs.Common.Int.{ℤ}
use wqs.Common.Dict.{Dict}
use wqs.Engine.{Io}
use wqs.Kafka.Consumer
use wqs.Kafka.Consumer.{fresh, empty_addr, new_consumer}

pub record Cluster (W : Type 0) : Type 0 where
  -- `cluster.NewConsumer` of the brokers, for a group and a topic: whether there was no error.
  pub join : List Bytes → Bytes → Bytes → W → W × Bool
  -- `Close` of the consumer of an IDC, for a group and a topic; its error is only logged.
  pub leave : Bytes → Bytes → Bytes → W → W
  -- `SendMessage` of a topic, a key and a value: the partition and the offset.
  pub send_message : Bytes → Bytes → Bytes → Io W (ℤ × ℤ)

module _ {W : Type 0} (k : Cluster W) (topic group : Bytes) where
  unfoldable pub leave_all : List Bytes → W → W
  leave_all [] w = w
  leave_all (idc ∷ idcs) w = leave_all idcs (k.leave idc group topic w)

  -- The consumers of all IDCs, or none: those that were opened are closed at an error.
  unfoldable pub join_all : Dict Bytes (List Bytes) → List Bytes → W → W × Bool
  join_all [] opened w = (w, true)
  join_all ((idc, addrs) ∷ rest) opened w =
      let (w', joined) = k.join addrs group topic w in
      elim joined [ true ↦ join_all rest (idc ∷ opened) w' | false ↦ (leave_all opened w', false) ]

  abbrev pub after_join : W × Bool → W × (Consumer.Consumer ⊎ Consumer.Error)
  after_join (w, true) = (w, inl fresh)
  after_join (w, false) = (w, inr new_consumer)

  unfoldable pub open_consumer :
      Dict Bytes (List Bytes) → W → W × (Consumer.Consumer ⊎ Consumer.Error)
  open_consumer [] w = (w, inr empty_addr)
  open_consumer (addr ∷ addrs) w = after_join (join_all (addr ∷ addrs) [] w)

  -- `Producer.Send`
  abbrev pub send : Bytes → Bytes → Io W (ℤ × ℤ)
  send key value = k.send_message topic key value
