-- ===== src/Kafka/Consumer/Valid.antt =====
-- The invariant of the consumer, and that `Recv` and `Ack` keep it.
use wqs.Common.{
  ◌^◌, ℕ, suc, ◌≤◌, ◌<◌, ◌≡◌, ◌≢◌, refl, ◌∙◌, Bool-cases, Option, none, some, inl, inr, [], ◌∷◌,
  Bytes, arith, length-append,
}
use wqs.Common.Int.{ℤ, pos, int32-suc}
use wqs.Common.Eq.{int_key, bytes_key}
use wqs.Common.Dict.{Dict, insert}
use wqs.Kafka.Ack.{
  Message, AckHead, push, Nodes, set_node, Groups, head_at, messages_at, set_head, set_messages,
}
use wqs.Kafka.Consumer.{
  Consumer, panicked, Incoming, arrived, channel_closed, timed_out, tracked, head_or_new,
  messages_or_new, try_recv,
}
use wqs.Kafka.Consumer.Views.{
  same, same_eq, head_at-set_head, messages_at-set_head, messages_at-set_messages,
  head_at-set_messages, total, total-set_head, total-set_messages, pending,
}
use wqs.Kafka.Consumer.Invariant.{
  IsPartition, new-IsPartition, push-IsPartition, others-IsPartition,
}

-- Beside every head stands the map of its partition, and the two fit together.
abbrev pub Paired : Groups → Nodes → ℕ → Type 0
Paired gs nodes next =
    (i : Bytes) (p : ℤ) (h : AckHead)
    → head_at gs i p ≡ some h
    → (ms : Dict ℤ ℕ) × (messages_at gs i p ≡ some ms) × IsPartition nodes next p h ms

pub record IsValid (c : Consumer) : Type 0 where
  pub paired : Paired c.ack_groups c.nodes c.next_node
  -- The counter counts the pending messages, which an int32 can hold.
  pub counted : c.padding ≡ pos (total c.ack_groups)
  pub room : total c.ack_groups < 2 ^ 31

module _ (gs : Groups) (nodes nodes' : Nodes) (next next' : ℕ) (later : next ≤ next')
    (kept : (n : ℕ) → n < next → (nodes' n).msg ≡ (nodes n).msg) (i : Bytes) (p : ℤ)
    (h : AckHead) where
  -- Writing one partition's head and map keeps the pairing of all.
  pub Paired-set :
      (ms : Dict ℤ ℕ)
      → IsPartition nodes' next' p h ms
      → Paired gs nodes next
      → Paired (set_messages (set_head gs i p h) i p ms) nodes' next'
  Paired-set ms part before j q k e = elim (Bool-cases (same i p j q)) [
    | inl hit ↦
        let (ij, pq) = same_eq i p j q hit in
        let here : h ≡ k = ground (
          arith,
          head_at-set_messages (set_head gs i p h) i p ms j q,
          head_at-set_head gs i p h j q,
        ) in
        (
          ms,
          ground (arith, messages_at-set_messages (set_head gs i p h) i p ms j q),
          rw (← here, ← pq) part,
        )
    | inr miss ↦
        let old : head_at gs j q ≡ some k = ground (
          arith,
          head_at-set_messages (set_head gs i p h) i p ms j q,
          head_at-set_head gs i p h j q,
        ) in
        let (ms', found, part') = before j q k old in
        (
          ms',
          ground (
            arith,
            messages_at-set_messages (set_head gs i p h) i p ms j q,
            messages_at-set_head gs i p h j q,
          ),
          others-IsPartition nodes next q k ms' part' nodes' next' later kept,
        )
  ]

  -- Writing one partition's head alone, beside a map that fits.
  pub Paired-set_head :
      (ms : Dict ℤ ℕ)
      → messages_at gs i p ≡ some ms
      → IsPartition nodes' next' p h ms
      → Paired gs nodes next
      → Paired (set_head gs i p h) nodes' next'
  Paired-set_head ms found part before j q k e = elim (Bool-cases (same i p j q)) [
    | inl hit ↦
        let (ij, pq) = same_eq i p j q hit in
        let here : h ≡ k = ground (arith, head_at-set_head gs i p h j q) in
        (ms, rw (← ij, ← pq) (messages_at-set_head gs i p h i p ∙ found), rw (← here, ← pq) part)
    | inr miss ↦
        let old : head_at gs j q ≡ some k = ground (arith, head_at-set_head gs i p h j q) in
        let (ms', found', part') = before j q k old in
        (
          ms',
          messages_at-set_head gs i p h j q ∙ found',
          others-IsPartition nodes next q k ms' part' nodes' next' later kept,
        )
  ]

-- One more message is pending.
pub tracked-total :
    (gs : Groups) (i : Bytes) (p : ℤ) (n : ℕ) (ms : Dict ℤ ℕ)
    → total (set_messages (set_head gs i p (push (head_or_new (head_at gs i p)) n)) i p ms)
      ≡ suc (total gs)
unfolding pending
tracked-total gs i p n ms = ground (
  arith,
  total-set_messages (set_head gs i p (push (head_or_new (head_at gs i p)) n)) i p ms,
  total-set_head gs i p (push (head_or_new (head_at gs i p)) n),
  length-append (head_or_new (head_at gs i p)).ack_head (n ∷ []),
)

module _ (c : Consumer) (v : IsValid c) where
  -- What `recv` finds for a partition: a head and a map that fit, new ones if there were none.
  found-IsPartition :
      (i : Bytes) (p : ℤ) (o : Option AckHead)
      → head_at c.ack_groups i p ≡ o
      → (ms : Dict ℤ ℕ) × (messages_or_new o (messages_at c.ack_groups i p) ≡ some ms)
        × IsPartition c.nodes c.next_node p (head_or_new o) ms
  found-IsPartition i p none e = ([], refl, new-IsPartition c.nodes c.next_node p)
  found-IsPartition i p (some h) e = v.paired i p h e

  pub tracked-IsValid :
      (now : ℕ) (i : Bytes) (msg : Message) (ms : Dict ℤ ℕ)
      → suc (total c.ack_groups) < 2 ^ 31
      → IsPartition c.nodes c.next_node msg.partition
          (head_or_new (head_at c.ack_groups i msg.partition))
          ms
      → IsValid (tracked c now i msg ms)
  tracked-IsValid now i msg ms free part =
      let gs = c.ack_groups in
      let p = msg.partition in
      let old = head_or_new (head_at gs i p) in
      let h = push old c.next_node in
      let grown : total (set_messages (set_head gs i p h) i p (insert ms msg.offset c.next_node))
          ≡ suc (total gs) =
        tracked-total gs i p c.next_node (insert ms msg.offset c.next_node) in
      record {
        paired =
            Paired-set gs c.nodes
              (set_node c.nodes c.next_node (record { msg = msg; expired = now })) c.next_node
              (suc c.next_node) (omega arith) (λ n below. ground arith) i p h
              (insert ms msg.offset c.next_node)
              (push-IsPartition c.nodes c.next_node p old ms part msg now refl) v.paired;
        counted = rw (grown, v.counted) (int32-suc (total gs) (omega arith));
        room = omega (arith, grown);
      }

  -- `recv` keeps the invariant, while the counter has room, and its write to the inner map never panics.
  pub try_recv-IsValid :
      (now : ℕ) (incoming : Incoming)
      → suc (total c.ack_groups) < 2 ^ 31
      → IsValid (try_recv c now incoming).0 × ((try_recv c now incoming).1 ≢ panicked)
  unfolding try_recv
  try_recv-IsValid now channel_closed free = (v, λ e. cc)
  try_recv-IsValid now timed_out free = (v, λ e. cc)
  try_recv-IsValid now (arrived i msg) free =
      let (ms, found, part) =
        found-IsPartition i msg.partition (head_at c.ack_groups i msg.partition) refl in
      rw (found, try_recv) (tracked-IsValid now i msg ms free part, λ e. cc)
