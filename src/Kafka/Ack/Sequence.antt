-- ===== src/Kafka/Ack/Sequence.antt =====
-- Facts on the sequences of node addresses that the rings of an `ackHead` hold.
use wqs.Common.{
  Bool-cases, inl, inr, ℕ, suc, ◌+◌, ◌<◌, ◌≡◌, refl, List, [], ◌∷◌, ◌++◌, All, All-append, arith,
  ◌==◌, if◌then◌else◌, length,
}
use wqs.Common.Int.{ℤ, ◌<ℤ◌}
use wqs.Kafka.Ack.{Nodes, without}

unfoldable pub count : ℕ → List ℕ → ℕ
count n [] = 0
count n (m ∷ ms) = let rest = count n ms in if m == n then suc rest else rest

pub count-append : (n : ℕ) (xs ys : List ℕ) → count n (xs ++ ys) ≡ count n xs + count n ys
unfolding count
count-append n [] ys = omega arith
count-append n (x ∷ xs) ys = ground (arith, count-append n xs ys)

pub count-without :
    (n m : ℕ) (xs : List ℕ) → count n (without m xs) ≡ (if m == n then 0 else count n xs)
unfolding count without
count-without n m [] = ground arith
count-without n m (x ∷ xs) = ground (arith, count-without n m xs)

pub length-without : (m : ℕ) (xs : List ℕ) → length (without m xs) + count m xs ≡ length xs
unfolding count without
length-without m [] = omega arith
length-without m (x ∷ xs) = ground (arith, length-without m xs)

pub All-without {ℓ} : (P : ℕ → Type ℓ) (m : ℕ) (xs : List ℕ) → All P xs → All P (without m xs)
unfolding without
All-without P m [] h = tt
All-without P m (x ∷ xs) h = elim (Bool-cases (x == m)) [
  | inl e ↦ rw e (All-without P m xs h.1)
  | inr e ↦ rw e (h.0, All-without P m xs h.1)
]

pub without-absent : (m : ℕ) (xs : List ℕ) → count m xs ≡ 0 → without m xs ≡ xs
unfolding count without
without-absent m [] h = refl
without-absent m (x ∷ xs) h = ground (arith, without-absent m xs)

abbrev pub offset_of : Nodes → ℕ → ℤ
offset_of nodes n = (nodes n).msg.offset

-- The offsets rise along the sequence.
abbrev pub Ascending : Nodes → List ℕ → Type 0
Ascending nodes [] = Unit
Ascending nodes (n ∷ ns) = All (λ m. offset_of nodes n <ℤ offset_of nodes m) ns × Ascending nodes ns

pub Ascending-without :
    (nodes : Nodes) (m : ℕ) (xs : List ℕ) → Ascending nodes xs → Ascending nodes (without m xs)
unfolding without
Ascending-without nodes m [] h = tt
Ascending-without nodes m (x ∷ xs) h = elim (Bool-cases (x == m)) [
  | inl e ↦ rw e (Ascending-without nodes m xs h.1)
  | inr e ↦ rw e (All-without _ m xs h.0, Ascending-without nodes m xs h.1)
]

pub Ascending-append :
    (nodes : Nodes) (xs : List ℕ) (n : ℕ)
    → Ascending nodes xs
    → All (λ m. offset_of nodes m <ℤ offset_of nodes n) xs
    → Ascending nodes (xs ++ n ∷ [])
Ascending-append nodes [] n h f = (tt, tt)
Ascending-append nodes (x ∷ xs) n h f =
    (All-append _ xs (n ∷ []) h.0 (f.0, tt), Ascending-append nodes xs n h.1 f.1)

-- Only the offsets of the nodes in the sequence matter.
abbrev pub SameOffsets : Nodes → Nodes → List ℕ → Type 0
SameOffsets nodes nodes' = All (λ m. offset_of nodes' m ≡ offset_of nodes m)

-- Every offset of the sequence lies above `o`.
abbrev pub Above : Nodes → ℤ → List ℕ → Type 0
Above nodes o = All (λ m. o <ℤ offset_of nodes m)

pub Above-cong :
    (nodes nodes' : Nodes) (o : ℤ) (xs : List ℕ)
    → SameOffsets nodes nodes' xs
    → Above nodes o xs
    → Above nodes' o xs
Above-cong nodes nodes' o [] s h = tt
Above-cong nodes nodes' o (x ∷ xs) s h = (rw s.0 h.0, Above-cong nodes nodes' o xs s.1 h.1)

pub Ascending-cong :
    (nodes nodes' : Nodes) (xs : List ℕ)
    → SameOffsets nodes nodes' xs
    → Ascending nodes xs
    → Ascending nodes' xs
Ascending-cong nodes nodes' [] s h = tt
Ascending-cong nodes nodes' (x ∷ xs) s h = (
  rw s.0 (Above-cong nodes nodes' (offset_of nodes x) xs s.1 h.0),
  Ascending-cong nodes nodes' xs s.1 h.1,
)

pub All-mono {ℓ κ} :
    (P : ℕ → Type ℓ) (Q : ℕ → Type κ) (xs : List ℕ)
    → ((m : ℕ) → 0 < count m xs → P m → Q m)
    → All P xs
    → All Q xs
unfolding count
All-mono P Q [] f h = tt
All-mono P Q (x ∷ xs) f h =
    (f x (ground arith) h.0, All-mono P Q xs (λ m c. f m (ground arith)) h.1)

pub All-tabulate {ℓ} : (P : ℕ → Type ℓ) (xs : List ℕ) → ((m : ℕ) → 0 < count m xs → P m) → All P xs
unfolding count
All-tabulate P [] f = tt
All-tabulate P (x ∷ xs) f = (f x (ground arith), All-tabulate P xs (λ m c. f m (ground arith)))
