-- ===== src/Kafka/Assign/Rounds.antt =====
-- engine/kafka/manager.go: the loop that assigns the replicas, round by round.
use mathlib.Core.Path.{subst}
use wqs.Common.{
  ℕ, zero, suc, ◌+◌, ◌%◌, ◌^◌, ◌<◌, ◌≤◌, ◌≡◌, refl, ap, ◌∙◌, Bool, true, false, Bool-cases, inl,
  inr, some, Option, List, Bytes, arith, length, if◌then◌else◌,
}
use wqs.Common.Int.{ℤ, pos, int32, int64, ◌+ℤ◌, eq_ℤ, int32-add, int64_of_range}
use wqs.Common.Eq.{bytes_key, bytes_eq}
use wqs.Common.Dict.{lookup, insert, lookup-insert, lookup-insert_self}
use wqs.Go.Strconv.{format_int}
use wqs.Kafka.Assign.{
  Assignment, rem, round_complete, next_shift, replicas, assign_loop, bind_some, ◌>>=◌,
}
use wqs.Kafka.Assign.Replicas.{Distinct, IsReplicaList, replicas-IsReplicaList}

-- The assignment holds a good replica list for a partition.
abbrev pub GoodAt : List ℤ → ℕ → Bytes → Assignment → Type 0
GoodAt brokers count key d =
    (rs : List ℤ) × (lookup d key ≡ some rs) × IsReplicaList brokers count rs

pub GoodAt-insert :
    (brokers : List ℤ) (count : ℕ) (key other : Bytes) (rs : List ℤ) (d : Assignment)
    → IsReplicaList brokers count rs
    → GoodAt brokers count key d
    → GoodAt brokers count key (insert d other rs)
GoodAt-insert brokers count key other rs d good (old, found, good') =
    elim (Bool-cases (bytes_eq other key)) [
      | inl same ↦ (
        rs,
        lookup-insert d other key rs ∙ ap (λ b. if b then some rs else lookup d key) same,
        good,
      )
      | inr differ ↦ (
        old,
        lookup-insert d other key rs ∙ ap (λ b. if b then some rs else lookup d key) differ ∙ found,
        good',
      )
    ]

pub GoodAt-inserted :
    (brokers : List ℤ) (count : ℕ) (key : Bytes) (rs : List ℤ) (d : Assignment)
    → IsReplicaList brokers count rs
    → GoodAt brokers count key (insert d key rs)
GoodAt-inserted brokers count key rs d good = (rs, lookup-insert_self d key rs, good)

round_complete-some :
    (current m : ℕ) → (b : Bool) × (round_complete (pos current) (pos (suc m)) ≡ some b)
unfolding rem
round_complete-some zero m = (false, refl)
round_complete-some (suc current) m = (eq_ℤ (pos (suc current % suc m)) (pos 0), ground arith)

next_shift-pos :
    (shift : ℕ) (b : Bool)
    → suc shift < 2 ^ 31
    → (s : ℕ) × (next_shift (pos shift) b ≡ pos s) × (s ≤ suc shift)
next_shift-pos shift true h = (shift + 1, int32-add shift 1 (omega arith), omega arith)
next_shift-pos shift false h = (shift, refl, omega arith)

abbrev pub key_of : ℕ → Bytes
key_of p = format_int 10 (pos p)

pub covered :
    (P : ℕ → Type 0) (n k : ℕ)
    → P n
    → ((p : ℕ) → p < k → P (n + 1 + p))
    → (p : ℕ) → p < suc k
    → P (n + p)
covered P n k here later zero h = subst P (omega arith) here
covered P n k here later (suc p) h = subst P (omega arith) (later p (omega arith))

-- One round of the loop, after the shift is settled.
abbrev round : List ℤ → ℤ → ℤ → ℕ → ℤ → ℤ → ℕ → Assignment → Option Assignment
round brokers n start count current shift k d =
    replicas brokers n start shift current count >>= λ rs.
    assign_loop brokers n start count (int32 (current +ℤ pos 1)) shift k
      (insert d (format_int 10 (int64 current)) rs)

pub assign_loop-GoodAt :
    (brokers : List ℤ) (m start count current shift k : ℕ) (d : Assignment)
    → Distinct brokers
    → length brokers ≡ suc m
    → suc m < 2 ^ 30
    → count ≤ m
    → current + k + start < 2 ^ 31
    → shift + k + count < 2 ^ 31
    → (d' : Assignment) × (assign_loop brokers
          (pos (suc m))
          (pos start)
          count
          (pos current)
          (pos shift)
          k
          d
        ≡ some d')
      × ((key : Bytes) → GoodAt brokers (suc count) key d → GoodAt brokers (suc count) key d')
      × ((p : ℕ) → p < k → GoodAt brokers (suc count) (key_of (current + p)) d')
unfolding assign_loop
assign_loop-GoodAt brokers m start count current shift zero d distinct e small hc hstart hshift =
    (d, refl, (λ key g. g), (λ p h. absurd (omega arith)))
assign_loop-GoodAt brokers m start count current shift (suc k) d distinct e small hc hstart hshift =
    let (complete, rounds) = round_complete-some current m in
    let (s, shifted, near) = next_shift-pos shift complete (omega arith) in
    let (rs, made, good) =
      replicas-IsReplicaList brokers m start current s count distinct e small hc (omega arith)
        (omega arith) in
    let stored = insert d (key_of current) rs in
    let (d', done, kept, rest) =
      assign_loop-GoodAt brokers m start count (current + 1) s k stored distinct e small hc
        (omega arith) (omega (arith, near)) in
    let stored_and_done =
      ap
        (λ c.
          assign_loop brokers (pos (suc m)) (pos start) count c (pos s) k
            (insert d (format_int 10 (int64 (pos current))) rs))
        (int32-add current 1 (omega arith))
      ∙ ap
          (λ c.
            assign_loop brokers (pos (suc m)) (pos start) count (pos (current + 1)) (pos s) k
              (insert d (format_int 10 c) rs))
          (int64_of_range (pos current) (omega arith, omega arith))
      ∙ done in
    (
      d',
      bind_some _ rounds (
          ap (λ t. round brokers (pos (suc m)) (pos start) count (pos current) t k d) shifted
          ∙ bind_some _ made stored_and_done),
      (λ key g. kept key (GoodAt-insert brokers (suc count) key (key_of current) rs d good g)),
      covered (λ n. GoodAt brokers (suc count) (key_of n) d') current k
          (kept (key_of current) (GoodAt-inserted brokers (suc count) (key_of current) rs d good))
          rest,
    )
