-- ===== src/Kafka/Assign.antt =====
-- engine/kafka/manager.go: the assignment of the replicas of new partitions to brokers. The
-- numbers are Go's int32; a remainder by zero or an index out of range is a panic. The two results
-- of `rand.Int31n` are arguments.
pub mod Index
pub mod Replicas
pub mod Rounds
pub mod Partitions
mod Tests
use wqs.Common.{
  ℕ, zero, suc, ◌+◌, ◌-◌, ◌%◌, Bool, true, false, Option, none, some, List, [], ◌∷◌, Bytes, ◌==◌,
  ◌||◌, ◌≡◌, ap, ◌∙◌, if◌then◌else◌, length, get_elem?,
}
use wqs.Common.Int.{ℤ, pos, negsuc, sub_ℕ, ◌+ℤ◌, ◌-ℤ◌, ltb_ℤ, eq_ℤ, int32, int64, pos_part}
use wqs.Common.Eq.{bytes_key, int_key}
use wqs.Common.Dict.{Dict, insert}
use wqs.Go.Strconv.{format_int}

infixl 10 ◌>>=◌
abbrev pub ◌>>=◌ : {A B : Type 0} → Option A → (A → Option B) → Option B
none >>= f = none
some a >>= f = f a

pub bind_some :
    {A B : Type 0} {o : Option A} {a : A} (f : A → Option B) {r : Option B}
    → o ≡ some a
    → f a ≡ r
    → (o >>= f) ≡ r
bind_some f e g = ap (λ x. x >>= f) e ∙ g

-- Go's `a % n`, which has the sign of `a`.
unfoldable pub rem : ℤ → ℤ → Option ℤ
rem (pos a) (pos (suc n)) = some (pos (a % suc n))
rem (negsuc a) (pos (suc n)) = some (sub_ℕ 0 (suc a % suc n))
rem (pos a) (negsuc n) = some (pos (a % suc n))
rem (negsuc a) (negsuc n) = some (sub_ℕ 0 (suc a % suc n))
rem a (pos zero) = none

-- `list[i]`
unfoldable pub index : List ℤ → ℤ → Option ℤ
index xs (pos i) = get_elem? xs i
index xs (negsuc i) = none

unfoldable pub replication_index : ℤ → ℤ → ℤ → ℤ → Option ℤ
replication_index first_replica_index second_replica_shift replica_index n_brokers = do
  r ← rem (int32 (second_replica_shift +ℤ replica_index)) (int32 (n_brokers -ℤ pos 1))
  rem (int32 (first_replica_index +ℤ int32 (pos 1 +ℤ r))) n_brokers

-- The replicas after the first, `count` of them from the index `j` on.
unfoldable pub further_replicas : List ℤ → ℤ → ℤ → ℤ → ℕ → ℕ → Option (List ℤ)
further_replicas brokers_list first shift n_brokers j zero = some []
further_replicas brokers_list first shift n_brokers j (suc count) = do
  i ← replication_index first shift (pos j) n_brokers
  broker ← index brokers_list i
  rest ← further_replicas brokers_list first shift n_brokers (suc j) count
  some (broker ∷ rest)

abbrev pub Assignment : Type 0
Assignment = Dict Bytes (List ℤ)

-- Whether a round of the first replicas is complete.
abbrev pub round_complete : ℤ → ℤ → Option Bool
round_complete current n_brokers = elim (ltb_ℤ (pos 0) current) [
  | true ↦ rem current n_brokers >>= λ r. some (eq_ℤ r (pos 0))
  | false ↦ some false
]

abbrev pub next_shift : ℤ → Bool → ℤ
next_shift shift complete = if complete then int32 (shift +ℤ pos 1) else shift

-- The replicas of one partition.
unfoldable pub replicas : List ℤ → ℤ → ℤ → ℤ → ℤ → ℕ → Option (List ℤ)
replicas brokers_list n_brokers start_index shift current count = do
  first ← rem (int32 (current +ℤ start_index)) n_brokers
  broker ← index brokers_list first
  rest ← further_replicas brokers_list first shift n_brokers 0 count
  some (broker ∷ rest)

unfoldable pub assign_loop : List ℤ → ℤ → ℤ → ℕ → ℤ → ℤ → ℕ → Assignment → Option Assignment
assign_loop brokers_list n_brokers start_index count current shift zero assignment = some assignment
assign_loop brokers_list n_brokers start_index count current shift (suc k) assignment = do
  complete ← round_complete current n_brokers
  replica_list ←
      replicas brokers_list n_brokers start_index (next_shift shift complete) current count
  assign_loop brokers_list n_brokers start_index count (int32 (current +ℤ pos 1))
      (next_shift shift complete) k (insert assignment (format_int 10 (int64 current)) replica_list)

pub data Outcome : Type 0 where
  assigned : Assignment → Outcome
  not_valid not_supported panicked : Outcome

abbrev pub outcome : Option Assignment → Outcome
outcome none = panicked
outcome (some assignment) = assigned assignment

-- An index below zero asks for the other one.
abbrev pub start_or : ℤ → ℤ → ℤ
start_or fixed other = if ltb_ℤ fixed (pos 0) then other else fixed

-- The guards and the loop, once the start is settled.
unfoldable pub assign_from : List ℤ → ℤ → ℤ → ℤ → ℤ → ℤ → ℤ → Outcome
assign_from brokers_list n_brokers start_index shift current partitions replications =
    if ltb_ℤ partitions (pos 1) || ltb_ℤ replications (pos 1)
    then not_valid
    else if ltb_ℤ n_brokers replications
    then not_supported
    else outcome (
        assign_loop brokers_list n_brokers start_index (pos_part replications - 1) current shift
          (pos_part partitions) [])

-- `random_start` and `random_shift` are what the two calls of `rand.Int31n(nBrokers)` give.
unfoldable pub assign_replicas_to_brokers : ℤ → ℤ → List ℤ → ℤ → ℤ → ℤ → ℤ → Outcome
assign_replicas_to_brokers random_start random_shift brokers_list partitions replications
      fixed_start_index start_partition_id =
    assign_from brokers_list (int32 (pos (length brokers_list)))
      (start_or fixed_start_index random_start) (start_or fixed_start_index random_shift)
      (start_or start_partition_id (pos 0)) partitions replications
