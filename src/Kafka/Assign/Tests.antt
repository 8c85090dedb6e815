-- ===== src/Kafka/Assign/Tests.antt =====
-- The example in the comment of engine/kafka/manager.go, and the theorem on it.
use wqs.Common.{ℕ, ◌≡◌, refl, some, none, List, [], ◌∷◌, Option, arith, codes}
use wqs.Common.Int.{ℤ, pos, negsuc, int32, int64, eq_ℤ}
use wqs.Common.Eq.{bytes_key, bytes_eq}
use wqs.Common.Dict.{lookup, insert}
use wqs.Go.Strconv.{format_int, format_uint, digits}
use wqs.Kafka.Assign.{
  Outcome, Assignment, assigned, not_supported, rem, index, replication_index, further_replicas,
  replicas, assign_loop, assign_from, assign_replicas_to_brokers,
}
use wqs.Kafka.Assign.Replicas.{Distinct}
use wqs.Kafka.Assign.Rounds.{GoodAt, key_of}
use wqs.Kafka.Assign.Partitions.{assign-IsReplicaList}

abbrev five_brokers : List ℤ
five_brokers = pos 0 ∷ pos 1 ∷ pos 2 ∷ pos 3 ∷ pos 4 ∷ []

abbrev example : Outcome
example = assign_replicas_to_brokers (pos 3) (pos 4) five_brokers (pos 10) (pos 3) (pos 0) (pos 0)

abbrev replicas_in : Outcome → List ℕ → Option (List ℤ)
replicas_in (assigned d) key = lookup d key
replicas_in o key = none

example-replicas_in :
    (replicas_in example (codes "0") ≡ some (pos 0 ∷ pos 1 ∷ pos 2 ∷ []))
    × (replicas_in example (codes "5") ≡ some (pos 0 ∷ pos 2 ∷ pos 3 ∷ []))
    × (replicas_in example (codes "9") ≡ some (pos 4 ∷ pos 1 ∷ pos 2 ∷ []))
unfolding assign_replicas_to_brokers assign_from assign_loop replicas further_replicas
    replication_index rem index int32 int64 eq_ℤ lookup insert bytes_eq format_int format_uint
    digits
example-replicas_in = (refl, refl, refl)

too_many_replicas :
    assign_replicas_to_brokers (pos 0) (pos 0) five_brokers (pos 1) (pos 6) (negsuc 0) (negsuc 0)
    ≡ not_supported
unfolding assign_replicas_to_brokers assign_from int32
too_many_replicas = refl

-- Without a broker, the guards come before `rand.Int31n(0)`.
no_broker :
    assign_replicas_to_brokers (pos 0) (pos 0) [] (pos 1) (pos 1) (negsuc 0) (negsuc 0)
    ≡ not_supported
unfolding assign_replicas_to_brokers assign_from int32
no_broker = refl

five_brokers-Distinct : Distinct five_brokers
unfolding Distinct
five_brokers-Distinct = (
  ((λ e. ground arith), ((λ e. ground arith), ((λ e. ground arith), ((λ e. ground arith), tt)))),
  (
    ((λ e. ground arith), ((λ e. ground arith), ((λ e. ground arith), tt))),
    (((λ e. ground arith), ((λ e. ground arith), tt)), (((λ e. ground arith), tt), (tt, tt))),
  ),
)

assign-IsReplicaList_example :
    (d : Assignment) × (assign_replicas_to_brokers
        (pos 3)
        (pos 4)
        five_brokers
        (pos 10)
        (pos 3)
        (pos 0)
        (pos 0)
      ≡ assigned d)
    × GoodAt five_brokers 3 (key_of 7) d
assign-IsReplicaList_example =
    assign-IsReplicaList 3 4 10 3 five_brokers (pos 0) (pos 0) 7 five_brokers-Distinct (omega arith)
      (omega arith) (omega arith) (omega arith) (omega arith) (omega arith) (omega arith)
      (omega arith)
