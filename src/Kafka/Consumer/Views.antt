-- ===== src/Kafka/Consumer/Views.antt =====
-- What the two maps of a group show after each of the writes to them.
use wqs.Common.{
  ℕ, ◌+◌, ◌≡◌, refl, Bool, true, ◌&&◌, Option, none, some, List, [], Bytes, arith, if◌then◌else◌,
  length,
}
use wqs.Common.Int.{ℤ, eq_ℤ, eq_ℤ_iff}
use wqs.Common.Eq.{bytes_key, int_key, bytes_eq, bytes_eq_iff}
use wqs.Common.Dict.{Dict, lookup, insert, lookup-insert, sum, sum-insert}
use wqs.Kafka.Ack.{
  AckHead, AckGroup, Groups, head_at, messages_at, set_head, set_messages, group_or_new,
}
use wqs.Kafka.Consumer.{head_or_new}

abbrev pub same : Bytes → ℤ → Bytes → ℤ → Bool
same i p j q = bytes_eq i j && eq_ℤ p q

pub same_self : (i : Bytes) (p : ℤ) → same i p i p ≡ true
same_self i p = ground (arith, (bytes_eq_iff i i).1 refl, (eq_ℤ_iff p p).1 refl)

module _ (gs : Groups) (i : Bytes) (p : ℤ) where
  pub head_at-set_head :
      (h : AckHead) (j : Bytes) (q : ℤ)
      → head_at (set_head gs i p h) j q ≡ (if same i p j q then some h else head_at gs j q)
  unfolding head_at set_head lookup
  head_at-set_head h j q = ground (
    arith,
    bytes_eq_iff i j,
    lookup-insert gs i j (record (group_or_new (lookup gs i)) {
      partition_heads = insert (group_or_new (lookup gs i)).partition_heads p h;
    }),
    lookup-insert (group_or_new (lookup gs i)).partition_heads p q h,
  )

  pub messages_at-set_head :
      (h : AckHead) (j : Bytes) (q : ℤ) → messages_at (set_head gs i p h) j q ≡ messages_at gs j q
  unfolding messages_at set_head lookup
  messages_at-set_head h j q = ground (
    arith,
    bytes_eq_iff i j,
    lookup-insert gs i j (record (group_or_new (lookup gs i)) {
      partition_heads = insert (group_or_new (lookup gs i)).partition_heads p h;
    }),
  )

  pub messages_at-set_messages :
      (ms : Dict ℤ ℕ) (j : Bytes) (q : ℤ)
      → messages_at (set_messages gs i p ms) j q
        ≡ (if same i p j q then some ms else messages_at gs j q)
  unfolding messages_at set_messages lookup
  messages_at-set_messages ms j q = ground (
    arith,
    bytes_eq_iff i j,
    lookup-insert gs i j (record (group_or_new (lookup gs i)) {
      ack_messages = insert (group_or_new (lookup gs i)).ack_messages p ms;
    }),
    lookup-insert (group_or_new (lookup gs i)).ack_messages p q ms,
  )

  pub head_at-set_messages :
      (ms : Dict ℤ ℕ) (j : Bytes) (q : ℤ) → head_at (set_messages gs i p ms) j q ≡ head_at gs j q
  unfolding head_at set_messages lookup
  head_at-set_messages ms j q = ground (
    arith,
    bytes_eq_iff i j,
    lookup-insert gs i j (record (group_or_new (lookup gs i)) {
      ack_messages = insert (group_or_new (lookup gs i)).ack_messages p ms;
    }),
  )

pub same_eq : (i : Bytes) (p : ℤ) (j : Bytes) (q : ℤ) → same i p j q ≡ true → (i ≡ j) × (p ≡ q)
same_eq i p j q h = ground (arith, bytes_eq_iff i j, eq_ℤ_iff p q)

-- How many messages are pending, over all groups and partitions.
unfoldable pub group_size : AckGroup → ℕ
group_size g = sum (λ h. length h.ack_head) g.partition_heads

unfoldable pub total : Groups → ℕ
total gs = sum group_size gs

abbrev pub pending_of : Option AckHead → List ℕ
pending_of none = []
pending_of (some h) = h.ack_head

-- The messages of a partition that wait for their acknowledgement, in the order of arrival.
unfoldable pub pending : Groups → Bytes → ℤ → List ℕ
pending gs i p = pending_of (head_at gs i p)

module _ (gs : Groups) (i : Bytes) (p : ℤ) where
  pub total-set_head :
      (h : AckHead)
      → total (set_head gs i p h) + length (pending gs i p) ≡ total gs + length h.ack_head
  unfolding total set_head group_size head_at lookup sum pending
  total-set_head h =
      let g = group_or_new (lookup gs i) in
      ground (
        arith,
        sum-insert group_size gs i (record g { partition_heads = insert g.partition_heads p h }),
        sum-insert (λ (k : AckHead). length k.ack_head) g.partition_heads p h,
      )

  pub total-set_messages : (ms : Dict ℤ ℕ) → total (set_messages gs i p ms) ≡ total gs
  unfolding total set_messages group_size lookup sum
  total-set_messages ms =
      let g = group_or_new (lookup gs i) in
      ground
        (arith, sum-insert group_size gs i (record g { ack_messages = insert g.ack_messages p ms }))

  pub pending-set_head :
      (h : AckHead) (j : Bytes) (q : ℤ)
      → pending (set_head gs i p h) j q ≡ (if same i p j q then h.ack_head else pending gs j q)
  unfolding pending
  pending-set_head h j q = ground (arith, head_at-set_head gs i p h j q)

  pub pending-set :
      (h : AckHead) (ms : Dict ℤ ℕ) (j : Bytes) (q : ℤ)
      → pending (set_messages (set_head gs i p h) i p ms) j q
        ≡ (if same i p j q then h.ack_head else pending gs j q)
  unfolding pending
  pending-set h ms j q =
      ground
        (arith, head_at-set_messages (set_head gs i p h) i p ms j q, head_at-set_head gs i p h j q)

  pub pending_found : (h : AckHead) → head_at gs i p ≡ some h → pending gs i p ≡ h.ack_head
  unfolding pending
  pending_found h found = ground arith

  pub pending_or_new : pending gs i p ≡ (head_or_new (head_at gs i p)).ack_head
  unfolding pending
  pending_or_new = ground arith
