-- ===== src/Kafka/Consumer/Safety.antt =====
-- Runs of the consumer: whatever clients receive and acknowledge, and in whatever order, no call to
-- Kafka covers a message that still waits for its acknowledgement.
use wqs.Common.{
  ℕ, ◌<◌, ◌≡◌, sym, ap, ◌∙◌, Bool-cases, Option-cases, false, some, inl, inr, ◌++◌, Bytes, All,
  All-map, arith,
}
use wqs.Common.Int.{ℤ, ◌<ℤ◌, InInt64}
use wqs.Common.Dict.{Dict, lookup, insert, erase}
use wqs.Common.Eq.{int_key}
use wqs.Kafka.Ack.{
  Message, AckHead, push, remove, without, set_node, head_at, messages_at, set_head, set_messages,
}
use wqs.Kafka.Ack.Sequence.{count, offset_of, All-mono, All-tabulate, SameOffsets}
use wqs.Kafka.Consumer.{
  Consumer, Incoming, arrived, channel_closed, timed_out, tracked, ack, try_recv, head_or_new,
  messages_or_new, ack_marks,
}
use wqs.Kafka.Consumer.Views.{
  same, same_eq, same_self, pending, pending-set, pending-set_head, pending_found, pending_or_new,
}
use wqs.Kafka.Consumer.Invariant.{IsPartition}
use wqs.Kafka.Consumer.Valid.{IsValid}
use wqs.Kafka.Consumer.Redelivery.{IsRedelivery, refreshed, get_expired-first}
use wqs.Kafka.Consumer.Acks.{node_at, ack_untracked, ack-eq-acked, tracked_parts}
use wqs.Kafka.Consumer.Commit.{
  mark_partition, marked_offset, IsSafeAt, IsSafeAt-cong, IsSafeAt-without, IsSafeAt-append,
  IsSafeAt-marks, ack_marks-Above, ack_marks-home,
}

pub record IsSafe (c : Consumer) : Type 0 where
  pub at : (i : Bytes) (p : ℤ) → IsSafeAt c.nodes c.marks i p (pending c.ack_groups i p)

-- Kafka delivers the messages of a partition by rising offsets: what arrives lies above what is
-- pending and above what was reported as consumed.
pub record InOrder (c : Consumer) (i : Bytes) (msg : Message) : Type 0 where
  pub range : InInt64 msg.offset
  pub above : All (λ m. offset_of c.nodes m <ℤ msg.offset) (pending c.ack_groups i msg.partition)
  pub unmarked :
      All
        (λ e. e.0 ≡ i → mark_partition e.1 ≡ msg.partition → marked_offset e.1 <ℤ msg.offset)
        c.marks

other_partition : (i : Bytes) (p : ℤ) (j : Bytes) (q : ℤ) → same i p j q ≡ false → i ≡ j → p ≡ q → ⊥
other_partition i p j q miss ij pq =
    cc (same_self i p, ap (λ k. same i p k q) ij, ap (λ r. same i p i r) pq)

module _ (c : Consumer) (v : IsValid c) where
  -- A pending node of any partition is older than the next one.
  pending-older :
      (i : Bytes) (p : ℤ) (n : ℕ) → 0 < count n (pending c.ack_groups i p) → n < c.next_node
  unfolding pending count
  pending-older i p n h = elim (Option-cases (head_at c.ack_groups i p)) [
    | inl missing ↦ absurd (ground arith)
    | inr (k, found) ↦ let (ms, _, part) = v.paired i p k found in part.older n (rw found at h)
  ]

  acked-IsSafeAt :
      (i : Bytes) (p o : ℤ) (h : AckHead) (ms : Dict ℤ ℕ) (n : ℕ)
      → head_at c.ack_groups i p ≡ some h
      → lookup ms o ≡ some n
      → IsPartition c.nodes c.next_node p h ms
      → IsSafe c
      → (j : Bytes) (q : ℤ)
      → IsSafeAt c.nodes
          (ack_marks c.nodes i o n h ++ c.marks)
          j
          q
          (pending (set_messages (set_head c.ack_groups i p (remove h n)) i p (erase ms o)) j q)
  acked-IsSafeAt i p o h ms n found_h found_n part s j q =
      let (one, offset_n) = part.held o n found_n in
      let here : IsSafeAt c.nodes c.marks i p h.ack_head =
        rw (pending_found c.ack_groups i p h found_h) at (s.at i p) in
      let after = pending-set c.ack_groups i p (remove h n) (erase ms o) j q in
      elim (Bool-cases (same i p j q)) [
        | inl hit ↦
            let (ij, pq) = same_eq i p j q hit in
            rw (after, hit, ← ij, ← pq, ← offset_n)
              (IsSafeAt-marks c.nodes i p (without n h.ack_head) c.marks
                (IsSafeAt-without c.nodes i p h.ack_head c.marks here n)
                (ack_marks c.nodes i (offset_of c.nodes n) n h)
                (All-map _ _ (ack_marks c.nodes i (offset_of c.nodes n) n h) (λ e above _ _. above)
                  (ack_marks-Above c.nodes i n h.ack_head h.get_head here.ascending here.ranged
                    one)))
        | inr miss ↦
            rw (after, miss, ← offset_n)
              (IsSafeAt-marks c.nodes j q (pending c.ack_groups j q) c.marks (s.at j q)
                (ack_marks c.nodes i (offset_of c.nodes n) n h)
                (All-map _ _ (ack_marks c.nodes i (offset_of c.nodes n) n h)
                  (λ e home a b.
                    absurd (other_partition i p j q miss (sym home.0 ∙ a) (sym home.1 ∙ b)))
                  (ack_marks-home c.nodes i p n h.ack_head h.get_head
                    (All-tabulate _ h.ack_head part.homed) one)))
      ]

  refreshed-pending :
      (i : Bytes) (p : ℤ) (h h' : AckHead)
      → head_at c.ack_groups i p ≡ some h
      → h'.ack_head ≡ h.ack_head
      → (j : Bytes) (q : ℤ) → pending (set_head c.ack_groups i p h') j q ≡ pending c.ack_groups j q
  refreshed-pending i p h h' found same_order j q = elim (Bool-cases (same i p j q)) [
    | inl hit ↦
        let (ij, pq) = same_eq i p j q hit in
        rw (pending-set_head c.ack_groups i p h' j q, hit, ← ij, ← pq)
          (same_order ∙ sym (pending_found c.ack_groups i p h found))
    | inr miss ↦ rw (pending-set_head c.ack_groups i p h' j q, miss)
  ]

  pub ack-IsSafe : (i : Bytes) (p o : ℤ) → IsSafe c → IsSafe (ack c i p o).0
  ack-IsSafe i p o s = elim (Option-cases (node_at c i p o)) [
    | inl missing ↦ rw (ack_untracked c v i p o missing).0 s
    | inr (n, found) ↦
        let (h, ms, found_h, found_ms, found_n, part) = tracked_parts c v i p o n found in
        let one = (part.held o n found_n).0 in
        rw (ack-eq-acked c v i p o h ms n found_h found_ms found_n one)
          (record { at = λ j q. acked-IsSafeAt i p o h ms n found_h found_n part s j q })
  ]

  fresh_node :
      (i : Bytes) (p : ℤ) (msg : Message) (now : ℕ)
      → SameOffsets c.nodes
          (set_node c.nodes c.next_node (record { msg = msg; expired = now }))
          (pending c.ack_groups i p)
  fresh_node i p msg now =
      All-tabulate _ (pending c.ack_groups i p)
        (λ m there. let old = pending-older i p m there in ground arith)

  tracked-IsSafe :
      (now : ℕ) (i : Bytes) (msg : Message) (ms : Dict ℤ ℕ)
      → InOrder c i msg
      → IsSafe c
      → IsSafe (tracked c now i msg ms)
  tracked-IsSafe now i msg ms order s = record {
    at = λ j q.
        let gs = c.ack_groups in
        let nodes' = set_node c.nodes c.next_node (record { msg = msg; expired = now }) in
        let kept = λ (r : Bytes) (u : ℤ). fresh_node r u msg now in
        let after =
          pending-set gs i msg.partition
            (push (head_or_new (head_at gs i msg.partition)) c.next_node)
            (insert ms msg.offset c.next_node) j q in
        elim (Bool-cases (same i msg.partition j q)) [
          | inl hit ↦
              let (ij, pq) = same_eq i msg.partition j q hit in
              let xs = pending gs i msg.partition in
              let here : offset_of nodes' c.next_node ≡ msg.offset = ground arith in
              rw (after, hit, ← ij, ← pq, ← pending_or_new gs i msg.partition)
                (IsSafeAt-append nodes' i msg.partition xs c.marks
                  (IsSafeAt-cong c.nodes i msg.partition xs c.marks (s.at i msg.partition) nodes'
                    (kept i msg.partition))
                  c.next_node (rw here order.range)
                  (All-mono _ _ xs
                    (λ m there above.
                      let old = pending-older i msg.partition m there in ground arith)
                    order.above)
                  (rw here order.unmarked))
          | inr miss ↦
              rw (after, miss)
                (IsSafeAt-cong c.nodes j q (pending gs j q) c.marks (s.at j q) nodes' (kept j q))
        ];
  }

  refreshed-IsSafe :
      (now : ℕ) (i : Bytes) (p : ℤ) (h : AckHead) (n : ℕ) (h' : AckHead)
      → head_at c.ack_groups i p ≡ some h
      → h'.ack_head ≡ h.ack_head
      → IsSafe c
      → IsSafe (refreshed c now i p n h')
  refreshed-IsSafe now i p h n h' found same_order s = record {
    at = λ j q.
        let nodes' = set_node c.nodes n (record { msg = (c.nodes n).msg; expired = now }) in
        let kept : pending (set_head c.ack_groups i p h') j q ≡ pending c.ack_groups j q =
          refreshed-pending i p h h' found same_order j q in
        rw kept (
          IsSafeAt-cong c.nodes j q (pending c.ack_groups j q) c.marks (s.at j q) nodes'
            (All-tabulate _ (pending c.ack_groups j q) (λ m _. ground arith)));
  }

  pub IsRedelivery-IsSafe :
      (now : ℕ) (c' : Consumer) (i : Bytes) (msg : Message)
      → IsRedelivery c now c' i msg
      → IsSafe c
      → IsSafe c'
  IsRedelivery-IsSafe now c' i msg r s =
      let (rest, _, moved) = get_expired-first c.nodes now r.head r.node r.head' r.expiry in
      rw r.state (
        refreshed-IsSafe now i r.partition r.head r.node r.head' r.found
          (ap (λ (h : AckHead). h.ack_head) moved) s)

abbrev pub ArrivesInOrder : Consumer → Incoming → Type 0
ArrivesInOrder c (arrived i msg) = InOrder c i msg
ArrivesInOrder c channel_closed = Unit
ArrivesInOrder c timed_out = Unit

pub try_recv-IsSafe :
    (c : Consumer) (v : IsValid c) (now : ℕ) (incoming : Incoming)
    → ArrivesInOrder c incoming
    → IsSafe c
    → IsSafe (try_recv c now incoming).0
unfolding try_recv
try_recv-IsSafe c v now channel_closed order s = s
try_recv-IsSafe c v now timed_out order s = s
try_recv-IsSafe c v now (arrived i msg) order s =
    elim (Option-cases (
      messages_or_new (head_at c.ack_groups i msg.partition)
        (messages_at c.ack_groups i msg.partition))) [
          | inl missing ↦ rw (missing, try_recv) s
          | inr (ms, found) ↦ rw (found, try_recv) (tracked-IsSafe c v now i msg ms order s)
        ]
