-- ===== src/Kafka/Consumer/Tracking.antt =====
-- `Recv` of a new message, which is tracked under its offset, and an `Ack` that fails.
use wqs.Common.{
  ℕ, ◌<◌, ◌≡◌, ◌≢◌, refl, ap, ◌∙◌, true, Option, Option-cases, none, some, inl, inr, List, [],
  Bytes, arith,
}
use wqs.Common.Int.{ℤ, ltb_ℤ}
use wqs.Common.Eq.{int_key, bytes_key}
use wqs.Common.Dict.{Dict, lookup, insert, lookup-insert_self}
use wqs.Kafka.Ack.{Message, AckHead, push, head_at, messages_at, set_head}
use wqs.Kafka.Consumer.{
  Consumer, Outcome, arrived, received, tracked, head_or_new, messages_or_new, try_recv, recv, ack,
  ack_in_group, padding_max, after_try,
}
use wqs.Kafka.Consumer.Views.{
  same_self, head_at-set_head, head_at-set_messages, messages_at-set_messages, total,
}
use wqs.Kafka.Consumer.Valid.{IsValid}
use wqs.Kafka.Consumer.Acks.{node_at}

ack_in_group_failed :
    (c : Consumer) (i : Bytes) (p o : ℤ) (h : Option AckHead) (ms : Option (Dict ℤ ℕ))
    → (ack_in_group c i p o h ms).1 ≢ none
    → (ack_in_group c i p o h ms).0 ≡ c
unfolding ack_in_group
ack_in_group_failed c i p o none ms e = refl
ack_in_group_failed c i p o (some h) none e = refl
ack_in_group_failed c i p o (some h) (some ms) e = ground arith

-- An acknowledgement that a consumer refuses leaves it as it was.
pub ack_failed : (c : Consumer) (i : Bytes) (p o : ℤ) → (ack c i p o).1 ≢ none → (ack c i p o).0 ≡ c
unfolding ack
ack_failed c i p o e = elim (Option-cases (lookup c.ack_groups i)) [
  | inl missing ↦ rw (missing, ack) refl
  | inr (g, found) ↦
      let h = head_at c.ack_groups i p in
      let ms = messages_at c.ack_groups i p in
      let ran : ack c i p o ≡ ack_in_group c i p o h ms = rw (found, ack) refl in
      ap (λ r. r.0) ran ∙ ack_in_group_failed c i p o h ms (λ f. e (ap (λ r. r.1) ran ∙ f))
]

module _ (c : Consumer) (v : IsValid c) (i : Bytes) (msg : Message) where
  -- A tracked message is found under its offset.
  tracked-node_at :
      (now : ℕ) (ms : Dict ℤ ℕ)
      → node_at (tracked c now i msg ms) i msg.partition msg.offset ≡ some c.next_node
  tracked-node_at now ms =
      let h = push (head_or_new (head_at c.ack_groups i msg.partition)) c.next_node in
      let heads = set_head c.ack_groups i msg.partition h in
      let ms' = insert ms msg.offset c.next_node in
      rw
        (
          head_at-set_messages heads i msg.partition ms' i msg.partition,
          head_at-set_head c.ack_groups i msg.partition h i msg.partition,
          messages_at-set_messages heads i msg.partition ms' i msg.partition,
          same_self i msg.partition,
        )
        (lookup-insert_self ms msg.offset c.next_node)

  messages_there :
      (o : Option AckHead)
      → head_at c.ack_groups i msg.partition ≡ o
      → (ms : Dict ℤ ℕ) × (messages_or_new o (messages_at c.ack_groups i msg.partition) ≡ some ms)
  messages_there none e = ([], refl)
  messages_there (some h) e = let (ms, found, part) = v.paired i msg.partition h e in (ms, found)

  -- Below the limit a message that arrives is handed out, and tracked under its offset.
  pub recv_arrived :
      (arrival now : ℕ) (order : List (Bytes × ℤ))
      → total c.ack_groups < 1024
      → ((recv c (arrived i msg) arrival now order).1 ≡ received i msg)
        × (node_at (recv c (arrived i msg) arrival now order).0 i msg.partition msg.offset
            ≡ some c.next_node)
  unfolding recv try_recv
  recv_arrived arrival now order below =
      let (ms, found) = messages_there (head_at c.ack_groups i msg.partition) refl in
      let free : ltb_ℤ c.padding padding_max ≡ true = ground (arith, v.counted) in
      let tried : try_recv c arrival (arrived i msg)
          ≡ (tracked c arrival i msg ms, received i msg) =
        rw (found, try_recv) refl in
      let whole : recv c (arrived i msg) arrival now order
          ≡ (tracked c arrival i msg ms, received i msg) =
        rw free (ap (λ r. after_try r now order) tried) in
      (
        ap (λ (r : Consumer × Outcome). r.1) whole,
        ap (λ (r : Consumer × Outcome). node_at r.0 i msg.partition msg.offset) whole
            ∙ tracked-node_at arrival ms,
      )
