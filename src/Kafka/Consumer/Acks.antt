-- ===== src/Kafka/Consumer/Acks.antt =====
-- `Ack`: its result in every case, and that it keeps the invariant.
use wqs.Common.{
  ◌≤◌, ℕ, suc, ◌≡◌, ◌≢◌, refl, Option-cases, false, Option, none, some, inl, inr, Bytes, arith,
}
use wqs.Common.Int.{eq_ℤ_iff, ℤ, int32-pred}
use wqs.Common.Eq.{int_key, bytes_key}
use wqs.Common.Dict.{lookup-erase, Dict, lookup, erase}
use wqs.Kafka.Ack.{without, AckHead, remove, is_empty, head_at, messages_at, set_head, set_messages}
use wqs.Kafka.Ack.Sequence.{count, length-without}
use wqs.Kafka.Consumer.{Consumer, acked, ack, bad_ack}
use wqs.Kafka.Consumer.Views.{
  same, same_self, head_at-set_head, messages_at-set_messages, head_at-set_messages, total,
  total-set_head, total-set_messages, pending,
}
use wqs.Kafka.Consumer.Invariant.{IsPartition, remove-IsPartition}
use wqs.Kafka.Consumer.Valid.{IsValid, Paired-set}

abbrev tracked_node : Option AckHead → Option (Dict ℤ ℕ) → ℤ → Option ℕ
tracked_node none ms o = none
tracked_node (some h) none o = none
tracked_node (some h) (some ms) o = lookup ms o

-- The node that an acknowledgement is about.
abbrev pub node_at : Consumer → Bytes → ℤ → ℤ → Option ℕ
node_at c i p o = tracked_node (head_at c.ack_groups i p) (messages_at c.ack_groups i p) o

module _ (c : Consumer) (v : IsValid c) (i : Bytes) (p o : ℤ) where
  -- One message fewer is pending.
  acked-total :
      (h : AckHead) (ms ms' : Dict ℤ ℕ) (n : ℕ)
      → head_at c.ack_groups i p ≡ some h
      → count n h.ack_head ≡ 1
      → suc (total (set_messages (set_head c.ack_groups i p (remove h n)) i p ms'))
        ≡ total c.ack_groups
  unfolding pending
  acked-total h ms ms' n found one = ground (
    arith,
    total-set_messages (set_head c.ack_groups i p (remove h n)) i p ms',
    total-set_head c.ack_groups i p (remove h n),
    length-without n h.ack_head,
  )

  pub acked-IsValid :
      (h : AckHead) (ms : Dict ℤ ℕ) (n : ℕ)
      → head_at c.ack_groups i p ≡ some h
      → messages_at c.ack_groups i p ≡ some ms
      → IsPartition c.nodes c.next_node p h ms
      → lookup ms o ≡ some n
      → IsValid (acked c i p o h ms n)
  acked-IsValid h ms n found_h found_ms part found_n =
      let gs = c.ack_groups in
      let fewer = acked-total h ms (erase ms o) n found_h (part.held o n found_n).0 in
      let less = total (set_messages (set_head gs i p (remove h n)) i p (erase ms o)) in
      record {
        paired =
            Paired-set gs c.nodes c.nodes c.next_node c.next_node (omega arith) (λ m below. refl) i
              p (remove h n) (erase ms o)
              (remove-IsPartition c.nodes c.next_node p h ms part o n found_n) v.paired;
        counted = rw (v.counted, ← fewer) (int32-pred less (omega (arith, v.room, fewer)));
        room = omega (arith, v.room, fewer);
      }

  is_empty-count : (h : AckHead) (n : ℕ) → count n h.ack_head ≡ 1 → is_empty h ≡ false
  unfolding count
  is_empty-count h n one = ground arith

  head_in_group : (h : AckHead) → head_at c.ack_groups i p ≡ some h → lookup c.ack_groups i ≢ none
  unfolding head_at
  head_in_group h found missing = ground arith

  -- On a valid consumer an acknowledgement of a tracked offset runs to its end.
  pub ack-eq-acked :
      (h : AckHead) (ms : Dict ℤ ℕ) (n : ℕ)
      → head_at c.ack_groups i p ≡ some h
      → messages_at c.ack_groups i p ≡ some ms
      → lookup ms o ≡ some n
      → count n h.ack_head ≡ 1
      → ack c i p o ≡ (acked c i p o h ms n, none)
  unfolding ack
  ack-eq-acked h ms n found_h found_ms found_n one =
      ground (arith, is_empty-count h n one, head_in_group h found_h)

  -- Otherwise it reports why, and changes nothing; the internal error is never reported.
  pub ack_untracked :
      node_at c i p o ≡ none
      → ((ack c i p o).0 ≡ c) × ((ack c i p o).1 ≢ none) × ((ack c i p o).1 ≢ some bad_ack)
  unfolding ack
  ack_untracked missing = go (head_at c.ack_groups i p) (messages_at c.ack_groups i p) refl refl
    where
      go :
          (h : Option AckHead) (ms : Option (Dict ℤ ℕ))
          → head_at c.ack_groups i p ≡ h
          → messages_at c.ack_groups i p ≡ ms
          → ((ack c i p o).0 ≡ c) × ((ack c i p o).1 ≢ none) × ((ack c i p o).1 ≢ some bad_ack)
      go none ms e f = (ground arith, λ q. ground arith, λ q. ground arith)
      go (some h) none e f = (ground arith, λ q. ground arith, λ q. ground arith)
      go (some h) (some ms) e f =
          let absent : lookup ms o ≡ none = ground arith in
          (ground arith, λ q. ground arith, λ q. ground arith)

  -- The parts that a tracked offset leads to.
  pub tracked_parts :
      (n : ℕ)
      → node_at c i p o ≡ some n
      → (h : AckHead) × (ms : Dict ℤ ℕ) × (head_at c.ack_groups i p ≡ some h)
        × (messages_at c.ack_groups i p ≡ some ms)
        × (lookup ms o ≡ some n)
        × IsPartition c.nodes c.next_node p h ms
  tracked_parts n found = go (head_at c.ack_groups i p) refl
    where
      go :
          (h : Option AckHead)
          → head_at c.ack_groups i p ≡ h
          → (h : AckHead) × (ms : Dict ℤ ℕ) × (head_at c.ack_groups i p ≡ some h)
            × (messages_at c.ack_groups i p ≡ some ms)
            × (lookup ms o ≡ some n)
            × IsPartition c.nodes c.next_node p h ms
      go none e = absurd (ground arith)
      go (some h) e = let (ms, f, part) = v.paired i p h e in (h, ms, e, f, ground arith, part)

  -- Acknowledging a tracked message succeeds: it is pending no more and its offset is tracked no
  -- more, the other pending messages of its partition keep their order, other partitions are as
  -- they were, and one message fewer is pending.
  pub ack_tracked :
      (n : ℕ)
      → node_at c i p o ≡ some n
      → ((ack c i p o).1 ≡ none)
        × (pending (ack c i p o).0.ack_groups i p ≡ without n (pending c.ack_groups i p))
        × ((j : Bytes) (q : ℤ)
            → same i p j q ≡ false
            → pending (ack c i p o).0.ack_groups j q ≡ pending c.ack_groups j q)
        × (suc (total (ack c i p o).0.ack_groups) ≡ total c.ack_groups)
        × (node_at (ack c i p o).0 i p o ≡ none)
  unfolding pending
  ack_tracked n found =
      let (h, ms, found_h, found_ms, found_n, part) = tracked_parts n found in
      let one = (part.held o n found_n).0 in
      let ran = ack-eq-acked h ms n found_h found_ms found_n one in
      let heads = set_head c.ack_groups i p (remove h n) in
      rw ran (
        refl,
        ground (
          arith,
          head_at-set_messages heads i p (erase ms o) i p,
          head_at-set_head c.ack_groups i p (remove h n) i p,
          same_self i p,
        ),
        λ j q other. ground (
          arith,
          head_at-set_messages heads i p (erase ms o) j q,
          head_at-set_head c.ack_groups i p (remove h n) j q,
        ),
        acked-total h ms (erase ms o) n found_h one,
        ground (
          arith,
          head_at-set_messages heads i p (erase ms o) i p,
          head_at-set_head c.ack_groups i p (remove h n) i p,
          messages_at-set_messages heads i p (erase ms o) i p,
          same_self i p,
          lookup-erase ms o o,
          eq_ℤ_iff o o,
        ),
      )

  -- No acknowledgement makes more messages pending.
  pub ack-total : total (ack c i p o).0.ack_groups ≤ total c.ack_groups
  ack-total = elim (Option-cases (node_at c i p o)) [
    | inl missing ↦ rw (ack_untracked missing).0 (omega arith)
    | inr (n, found) ↦ omega (arith, (ack_tracked n found).3)
  ]

  -- `Ack` keeps the invariant, whatever it is asked to acknowledge.
  pub ack-IsValid : IsValid (ack c i p o).0
  ack-IsValid = elim (Option-cases (node_at c i p o)) [
    | inl missing ↦ rw (ack_untracked missing).0 v
    | inr (n, found) ↦
        let (h, ms, found_h, found_ms, found_n, part) = tracked_parts n found in
        rw (ack-eq-acked h ms n found_h found_ms found_n (part.held o n found_n).0)
          (acked-IsValid h ms n found_h found_ms part found_n)
  ]
