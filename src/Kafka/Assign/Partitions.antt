-- ===== src/Kafka/Assign/Partitions.antt =====
-- engine/kafka/manager.go: every new partition gets its replicas.
use wqs.Common.{
  ℕ, zero, suc, ◌+◌, ◌-◌, ◌^◌, ◌<◌, ◌≤◌, ◌≡◌, refl, ap, ◌∙◌, List, [], ◌∷◌, arith, length,
}
use wqs.Common.Int.{ℤ, pos, negsuc, pos_part, int32_of_range}
use wqs.Common.Eq.{bytes_key}
use wqs.Kafka.Assign.{
  Assignment, assigned, assign_loop, assign_from, start_or, outcome, assign_replicas_to_brokers,
}
use wqs.Kafka.Assign.Replicas.{Distinct}
use wqs.Kafka.Assign.Rounds.{GoodAt, key_of, assign_loop-GoodAt}

start_or-pos :
    (fixed : ℤ) (r bound : ℕ)
    → r < bound
    → pos_part fixed < bound
    → (s : ℕ) × (start_or fixed (pos r) ≡ pos s) × (s < bound)
start_or-pos (pos n) r bound hr hf = (n, ground arith, hf)
start_or-pos (negsuc n) r bound hr hf = (r, ground arith, hr)

start_or_zero : (fixed : ℤ) → start_or fixed (pos 0) ≡ pos (pos_part fixed)
start_or_zero (pos n) = ground arith
start_or_zero (negsuc n) = ground arith

assign_from-GoodAt :
    (brokers : List ℤ) (start shift current partitions replications p : ℕ)
    → Distinct brokers
    → 1 ≤ replications
    → replications ≤ length brokers
    → length brokers < 2 ^ 30
    → current + partitions + start < 2 ^ 31
    → shift + partitions + replications < 2 ^ 31
    → p < partitions
    → (d : Assignment) × (assign_from brokers
          (pos (length brokers))
          (pos start)
          (pos shift)
          (pos current)
          (pos partitions)
          (pos replications)
        ≡ assigned d)
      × GoodAt brokers replications (key_of (current + p)) d
unfolding assign_from
assign_from-GoodAt [] start shift current partitions replications p distinct some_replica enough
      small hstart hshift hp =
    absurd (omega arith)
assign_from-GoodAt (b ∷ bs) start shift current zero replications p distinct some_replica enough
      small hstart hshift hp =
    absurd (omega arith)
assign_from-GoodAt (b ∷ bs) start shift current (suc k) zero p distinct some_replica enough small
      hstart hshift hp =
    absurd (omega arith)
assign_from-GoodAt (b ∷ bs) start shift current (suc k) (suc count) p distinct some_replica enough
      small hstart hshift hp =
    let (d, done, kept, good) =
      assign_loop-GoodAt (b ∷ bs) (length bs) start count current shift (suc k) [] distinct refl
        (omega arith) (omega arith) (omega arith) (omega arith) in
    (
      d,
      guards
          ∙ ap
              (λ c. outcome (
                assign_loop (b ∷ bs) (pos (suc (length bs))) (pos start) c (pos current) (pos shift)
                  (suc k) []))
              (omega arith)
          ∙ ap outcome done,
      good p hp,
    )
  where
    guards :
        assign_from
          (b ∷ bs)
          (pos (suc (length bs)))
          (pos start)
          (pos shift)
          (pos current)
          (pos (suc k))
          (pos (suc count))
        ≡ outcome (
            assign_loop
              (b ∷ bs)
              (pos (suc (length bs)))
              (pos start)
              (suc count - 1)
              (pos current)
              (pos shift)
              (suc k)
              [])
    guards = ground arith

-- With distinct brokers, at least one partition and one replica, no more replicas than brokers, and
-- numbers below 2 ^ 29 (the broker list below 2 ^ 30), the assignment does not panic. Each of the
-- new partitions has a replica list: as many brokers as asked for, all of the list, no two the same.
pub assign-IsReplicaList :
    (random_start random_shift partitions replications : ℕ) (brokers : List ℤ) (fixed start_id : ℤ)
    (p : ℕ)
    → Distinct brokers
    → 1 ≤ replications
    → replications ≤ length brokers
    → length brokers < 2 ^ 30
    → random_start < 2 ^ 29
    → random_shift < 2 ^ 29
    → pos_part fixed < 2 ^ 29
    → pos_part start_id + partitions < 2 ^ 29
    → p < partitions
    → (d : Assignment) × (assign_replicas_to_brokers
          (pos random_start)
          (pos random_shift)
          brokers
          (pos partitions)
          (pos replications)
          fixed
          start_id
        ≡ assigned d)
      × GoodAt brokers replications (key_of (pos_part start_id + p)) d
unfolding assign_replicas_to_brokers
assign-IsReplicaList rstart rshift partitions replications brokers fixed start_id p distinct
      some_replica enough small hstart hshift hfixed hid hp =
    let (start, starts, near_start) = start_or-pos fixed rstart (2 ^ 29) hstart hfixed in
    let (shift, shifts, near_shift) = start_or-pos fixed rshift (2 ^ 29) hshift hfixed in
    let (d, done, good) =
      assign_from-GoodAt brokers start shift (pos_part start_id) partitions replications p distinct
        some_replica enough small (omega (arith, near_start)) (omega (arith, near_shift)) hp in
    (
      d,
      rw
          (
            int32_of_range (pos (length brokers)) (omega arith, omega arith),
            starts,
            shifts,
            start_or_zero start_id,
          )
          done,
      good,
    )
