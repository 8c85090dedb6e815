-- ===== src/Kafka/Consumer/Invariant.antt =====
-- The invariant of one partition's bookkeeping: the two rings of its head and its map of offsets.
use wqs.Common.{ℕ, suc, ◌≤◌, ◌<◌, ◌≡◌, refl, some, List, [], ◌∷◌, ◌++◌, arith, ◌==◌, if◌then◌else◌}
use wqs.Common.Int.{ℤ, eq_ℤ_iff}
use wqs.Common.Eq.{int_key}
use wqs.Common.Dict.{Dict, lookup, insert, erase, lookup-insert, lookup-erase}
use wqs.Kafka.Ack.{Message, AckHead, new_ack_head, push, remove, Nodes, set_node}
use wqs.Kafka.Ack.Sequence.{count, count-append, count-without}

pub record IsPartition (nodes : Nodes) (next : ℕ) (p : ℤ) (h : AckHead) (ms : Dict ℤ ℕ)
    : Type 0 where
  -- Every pending node was allocated, holds a message of the partition, and is pending once.
  pub older : (n : ℕ) → 0 < count n h.ack_head → n < next
  pub homed : (n : ℕ) → 0 < count n h.ack_head → (nodes n).msg.partition ≡ p
  pub once : (n : ℕ) → count n h.ack_head ≤ 1
  -- The ring of deliveries holds the nodes of the ring of arrivals.
  pub balanced : (n : ℕ) → count n h.get_head ≡ count n h.ack_head
  -- An offset in the map leads to a pending node with this offset.
  pub held :
      (o : ℤ) (n : ℕ) → lookup ms o ≡ some n → (count n h.ack_head ≡ 1) × ((nodes n).msg.offset ≡ o)

pub new-IsPartition : (nodes : Nodes) (next : ℕ) (p : ℤ) → IsPartition nodes next p new_ack_head []
unfolding count lookup
new-IsPartition nodes next p = record {
  older = λ n h. absurd (omega arith);
  homed = λ n h. absurd (omega arith);
  once = λ n. omega arith;
  balanced = λ n. refl;
  held = λ o n h. cc;
}

module _ (nodes : Nodes) (next : ℕ) (p : ℤ) (h : AckHead) (ms : Dict ℤ ℕ)
    (v : IsPartition nodes next p h ms) where
  count-push :
      (n m : ℕ)
      → count n (h.ack_head ++ m ∷ [])
        ≡ (if m == n then suc (count n h.ack_head) else count n h.ack_head)
  unfolding count
  count-push n m = ground (arith, count-append n h.ack_head (m ∷ []))

  count_next : count next h.ack_head ≡ 0
  count_next = ground (arith, v.older next)

  pub push-IsPartition :
      (msg : Message) (now : ℕ)
      → msg.partition ≡ p
      → IsPartition
          (set_node nodes next (record { msg = msg; expired = now }))
          (suc next)
          p
          (push h next)
          (insert ms msg.offset next)
  push-IsPartition msg now home = record {
    older = λ n c. ground (arith, count-push n next, v.older n);
    homed = λ n c. ground (arith, count-push n next, v.homed n);
    once = λ n. ground (arith, count-push n next, v.once n, count_next);
    balanced = λ n. omega (
      arith,
      count-append n h.ack_head (next ∷ []),
      count-append n h.get_head (next ∷ []),
      v.balanced n,
    );
    held = λ o n e. ground (
      arith,
      count-push n next,
      v.held o n,
      count_next,
      lookup-insert ms msg.offset o next,
      eq_ℤ_iff msg.offset o,
    );
  }

  pub remove-IsPartition :
      (o : ℤ) (n : ℕ) → lookup ms o ≡ some n → IsPartition nodes next p (remove h n) (erase ms o)
  remove-IsPartition o n found = record {
    older = λ m c. ground (arith, count-without m n h.ack_head, v.older m);
    homed = λ m c. ground (arith, count-without m n h.ack_head, v.homed m);
    once = λ m. ground (arith, count-without m n h.ack_head, v.once m);
    balanced = λ m.
        ground (arith, count-without m n h.ack_head, count-without m n h.get_head, v.balanced m);
    held = λ q m e. ground (
      arith,
      count-without m n h.ack_head,
      v.held q m,
      v.held o n,
      lookup-erase ms o q,
      eq_ℤ_iff o q,
    );
  }

  -- A node at the front of the ring of deliveries goes to its end, with a new time.
  pub rotate-IsPartition :
      (n : ℕ) (rest : List ℕ) (now : ℕ)
      → h.get_head ≡ n ∷ rest
      → IsPartition
          (set_node nodes n (record { msg = (nodes n).msg; expired = now }))
          next
          p
          (record h { get_head = rest ++ n ∷ [] })
          ms
  unfolding count
  rotate-IsPartition n rest now e = record {
    older = v.older;
    homed = λ m c. ground (arith, v.homed m);
    once = v.once;
    balanced = λ m. ground (arith, v.balanced m, count-append m rest (n ∷ []));
    held = λ o m f. ground (arith, v.held o m);
  }

  -- Writes to other nodes, and new nodes, do not matter.
  pub others-IsPartition :
      (nodes' : Nodes) (next' : ℕ)
      → next ≤ next'
      → ((n : ℕ) → n < next → (nodes' n).msg ≡ (nodes n).msg)
      → IsPartition nodes' next' p h ms
  others-IsPartition nodes' next' later kept = record {
    older = λ n c. omega (arith, v.older n c);
    homed = λ n c. ground (arith, v.homed n, kept n, v.older n);
    once = v.once;
    balanced = v.balanced;
    held = λ o n e. ground (arith, v.held o n, kept n, v.older n);
  }
