-- ===== src/Kafka/Consumer/Commit.antt =====
-- What is reported to Kafka as consumed: never a message that waits for its acknowledgement.
use wqs.Common.{
  ℕ, zero, suc, ◌≡◌, refl, sym, ap, ◌∙◌, Bool-cases, inl, inr, List, [], ◌∷◌, ◌++◌, Bytes, All,
  All-append, arith, ◌==◌,
}
use wqs.Common.Int.{ℤ, pos, negsuc, int64, int64_of_range, ltb_ℤ, ◌+ℤ◌, ◌-ℤ◌, ◌<ℤ◌, InInt64}
use wqs.Kafka.Ack.{without, front, Nodes}
use wqs.Kafka.Ack.Sequence.{
  count, without-absent, offset_of, Ascending, Above, SameOffsets, All-without, Ascending-without,
  Ascending-append, Ascending-cong, Above-cong,
}
use wqs.Kafka.Consumer.{Mark, mark_offset, mark_partition_offset, gap_mark, ack_marks}

abbrev pub mark_partition : Mark → ℤ
mark_partition (mark_offset msg) = msg.partition
mark_partition (mark_partition_offset topic p o) = p

-- The offset up to which a call reports the partition as consumed.
abbrev pub marked_offset : Mark → ℤ
marked_offset (mark_offset msg) = msg.offset
marked_offset (mark_partition_offset topic p o) = o

abbrev pub Ranged : Nodes → List ℕ → Type 0
Ranged nodes = All (λ n. InInt64 (offset_of nodes n))

pred_range : (z o : ℤ) → InInt64 z → InInt64 o → o <ℤ z → InInt64 (z -ℤ pos 1)
pred_range (pos zero) o hz ho lt = ground arith
pred_range (pos (suc n)) o hz ho lt = ground arith
pred_range (negsuc n) o hz ho lt = ground arith

pred_lt : (z : ℤ) → (z -ℤ pos 1) <ℤ z
pred_lt (pos zero) = ground arith
pred_lt (pos (suc n)) = ground arith
pred_lt (negsuc n) = ground arith

int64-pred : (z o : ℤ) → InInt64 z → InInt64 o → o <ℤ z → int64 (z -ℤ pos 1) <ℤ z
int64-pred z o hz ho lt = rw (int64_of_range (z -ℤ pos 1) (pred_range z o hz ho lt)) (pred_lt z)

Above-below : (nodes : Nodes) (o z : ℤ) (xs : List ℕ) → o <ℤ z → Above nodes z xs → Above nodes o xs
Above-below nodes o z [] lt h = tt
Above-below nodes o z (x ∷ xs) lt h = (omega arith, Above-below nodes o z xs lt h.1)

gap_mark-Above :
    (nodes : Nodes) (i : Bytes) (n : ℕ) (xs : List ℕ)
    → Ascending nodes (n ∷ xs)
    → Ranged nodes (n ∷ xs)
    → All
        (λ e. Above nodes (marked_offset e.1) xs)
        (gap_mark nodes i (offset_of nodes n) (front xs))
gap_mark-Above nodes i n [] up range = tt
gap_mark-Above nodes i n (f ∷ fs) up range =
    elim (Bool-cases (ltb_ℤ (int64 (offset_of nodes n +ℤ pos 1)) (offset_of nodes f))) [
      | inl gap ↦
          let below = int64-pred (offset_of nodes f) (offset_of nodes n) range.1.0 range.0 up.0.0 in
          rw gap (
            (
              below,
              Above-below nodes (int64 (offset_of nodes f -ℤ pos 1)) (offset_of nodes f) fs below
                  up.1.0,
            ),
            tt,
          )
      | inr close ↦ rw close tt
    ]

gap_mark-home :
    (nodes : Nodes) (i : Bytes) (p o : ℤ) (xs : List ℕ)
    → All (λ m. (nodes m).msg.partition ≡ p) xs
    → All (λ e. (e.0 ≡ i) × (mark_partition e.1 ≡ p)) (gap_mark nodes i o (front xs))
gap_mark-home nodes i p o [] home = tt
gap_mark-home nodes i p o (f ∷ fs) home =
    elim (Bool-cases (ltb_ℤ (int64 (o +ℤ pos 1)) (offset_of nodes f))) [
      | inl gap ↦ rw gap ((refl, home.0), tt)
      | inr close ↦ rw close tt
    ]

-- The marks of an acknowledgement lie below every message that is pending after it.
pub ack_marks-Above :
    (nodes : Nodes) (i : Bytes) (n : ℕ) (xs ys : List ℕ)
    → Ascending nodes xs
    → Ranged nodes xs
    → count n xs ≡ 1
    → All
        (λ e. Above nodes (marked_offset e.1) (without n xs))
        (ack_marks nodes i (offset_of nodes n) n (record { ack_head = xs; get_head = ys }))
unfolding count without
ack_marks-Above nodes i n [] ys up range one = absurd (omega arith)
ack_marks-Above nodes i n (x ∷ xs) ys up range one = elim (Bool-cases (x == n)) [
  | inl front_is ↦
      let here : x ≡ n = ground arith in
      let gone : without n xs ≡ xs = without-absent n xs (ground arith) in
      let up' : Ascending nodes (n ∷ xs) = rw (← here) up in
      let range' : Ranged nodes (n ∷ xs) = rw (← here) range in
      rw (front_is, gone)
        (All-append _ (gap_mark nodes i (offset_of nodes n) (front xs))
          ((i, mark_offset (nodes n).msg) ∷ []) (gap_mark-Above nodes i n xs up' range')
          (up'.0, tt))
  | inr behind ↦ rw behind tt
]

-- They name the partition of the acknowledged message.
pub ack_marks-home :
    (nodes : Nodes) (i : Bytes) (p : ℤ) (n : ℕ) (xs ys : List ℕ)
    → All (λ m. (nodes m).msg.partition ≡ p) xs
    → count n xs ≡ 1
    → All
        (λ e. (e.0 ≡ i) × (mark_partition e.1 ≡ p))
        (ack_marks nodes i (offset_of nodes n) n (record { ack_head = xs; get_head = ys }))
unfolding count without
ack_marks-home nodes i p n [] ys home one = absurd (omega arith)
ack_marks-home nodes i p n (x ∷ xs) ys home one = elim (Bool-cases (x == n)) [
  | inl front_is ↦
      let here : x ≡ n = ground arith in
      let gone : without n xs ≡ xs = without-absent n xs (ground arith) in
      rw (front_is, gone)
        (All-append _ (gap_mark nodes i (offset_of nodes n) (front xs))
          ((i, mark_offset (nodes n).msg) ∷ [])
          (gap_mark-home nodes i p (offset_of nodes n) xs home.1)
          ((refl, ap (λ m. (nodes m).msg.partition) (sym here) ∙ home.0), tt))
  | inr behind ↦ rw behind tt
]

-- One partition: its pending offsets rise, and every call for it so far lies below them all.
pub record IsSafeAt (nodes : Nodes) (marks : List (Bytes × Mark)) (i : Bytes) (p : ℤ) (xs : List ℕ)
    : Type 0 where
  pub ascending : Ascending nodes xs
  pub ranged : Ranged nodes xs
  pub uncommitted :
      All (λ e. e.0 ≡ i → mark_partition e.1 ≡ p → Above nodes (marked_offset e.1) xs) marks

Ranged-cong :
    (nodes nodes' : Nodes) (xs : List ℕ)
    → SameOffsets nodes nodes' xs
    → Ranged nodes xs
    → Ranged nodes' xs
Ranged-cong nodes nodes' [] s h = tt
Ranged-cong nodes nodes' (x ∷ xs) s h = (rw s.0 h.0, Ranged-cong nodes nodes' xs s.1 h.1)

abbrev Unmarked : Nodes → Bytes → ℤ → List ℕ → Bytes × Mark → Type 0
Unmarked nodes i p xs e = e.0 ≡ i → mark_partition e.1 ≡ p → Above nodes (marked_offset e.1) xs

module _ (nodes : Nodes) (i : Bytes) (p : ℤ) (xs : List ℕ) where
  Unmarked-cong :
      (nodes' : Nodes) (marks : List (Bytes × Mark))
      → SameOffsets nodes nodes' xs
      → All (Unmarked nodes i p xs) marks
      → All (Unmarked nodes' i p xs) marks
  Unmarked-cong nodes' [] s h = tt
  Unmarked-cong nodes' (e ∷ es) s h = (
    λ a b. Above-cong nodes nodes' (marked_offset e.1) xs s (h.0 a b),
    Unmarked-cong nodes' es s h.1,
  )

  Unmarked-without :
      (n : ℕ) (marks : List (Bytes × Mark))
      → All (Unmarked nodes i p xs) marks
      → All (Unmarked nodes i p (without n xs)) marks
  Unmarked-without n [] h = tt
  Unmarked-without n (e ∷ es) h = (λ a b. All-without _ n xs (h.0 a b), Unmarked-without n es h.1)

  Unmarked-append :
      (n : ℕ) (marks : List (Bytes × Mark))
      → All (λ e. e.0 ≡ i → mark_partition e.1 ≡ p → marked_offset e.1 <ℤ offset_of nodes n) marks
      → All (Unmarked nodes i p xs) marks
      → All (Unmarked nodes i p (xs ++ n ∷ [])) marks
  Unmarked-append n [] f h = tt
  Unmarked-append n (e ∷ es) f h =
      (λ a b. All-append _ xs (n ∷ []) (h.0 a b) (f.0 a b, tt), Unmarked-append n es f.1 h.1)

  module _ (marks : List (Bytes × Mark)) (s : IsSafeAt nodes marks i p xs) where
    pub IsSafeAt-cong :
        (nodes' : Nodes) → SameOffsets nodes nodes' xs → IsSafeAt nodes' marks i p xs
    IsSafeAt-cong nodes' e = record {
      ascending = Ascending-cong nodes nodes' xs e s.ascending;
      ranged = Ranged-cong nodes nodes' xs e s.ranged;
      uncommitted = Unmarked-cong nodes' marks e s.uncommitted;
    }

    pub IsSafeAt-without : (n : ℕ) → IsSafeAt nodes marks i p (without n xs)
    IsSafeAt-without n = record {
      ascending = Ascending-without nodes n xs s.ascending;
      ranged = All-without _ n xs s.ranged;
      uncommitted = Unmarked-without n marks s.uncommitted;
    }

    pub IsSafeAt-append :
        (n : ℕ)
        → InInt64 (offset_of nodes n)
        → All (λ m. offset_of nodes m <ℤ offset_of nodes n) xs
        → All (λ e. e.0 ≡ i → mark_partition e.1 ≡ p → marked_offset e.1 <ℤ offset_of nodes n) marks
        → IsSafeAt nodes marks i p (xs ++ n ∷ [])
    IsSafeAt-append n range above fresh = record {
      ascending = Ascending-append nodes xs n s.ascending above;
      ranged = All-append _ xs (n ∷ []) s.ranged (range, tt);
      uncommitted = Unmarked-append n marks fresh s.uncommitted;
    }

    pub IsSafeAt-marks :
        (new : List (Bytes × Mark))
        → All (λ e. e.0 ≡ i → mark_partition e.1 ≡ p → Above nodes (marked_offset e.1) xs) new
        → IsSafeAt nodes (new ++ marks) i p xs
    IsSafeAt-marks new h = record {
      ascending = s.ascending;
      ranged = s.ranged;
      uncommitted = All-append _ new marks h s.uncommitted;
    }
