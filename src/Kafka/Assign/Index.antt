-- ===== src/Kafka/Assign/Index.antt =====
-- engine/kafka/manager.go: the replicas of a partition stand at different places of the broker list.
use native.Mathlib.Nat.{div-add-mod, mod-lt, mod-eq_of_lt, mul-le-mul_left, mul-suc}
use wqs.Common.{
  ℕ, zero, suc, ◌+◌, ◌/◌, ◌%◌, ◌^◌, ◌<◌, ◌≤◌, ◌≡◌, inl, inr, refl, sym, ap, ◌∙◌, some, arith,
  Bool-cases, leb,
}
use wqs.Common.Int.{pos, int32, ◌+ℤ◌, int32-add, int32-pred}
use wqs.Kafka.Assign.{rem, replication_index, ◌>>=◌}

add_mod_ordered : (n a b c : ℕ) → b ≤ c → c < n → (a + b) % n ≡ (a + c) % n → b ≡ c
add_mod_ordered n a b c le below e =
    let low = div-add-mod (a + b) n in
    let high = div-add-mod (a + c) n in
    elim (Bool-cases (leb ((a + c) / n) ((a + b) / n))) [
      | inl t ↦
          let same = mul-le-mul_left {m = (a + c) / n} {n = (a + b) / n} n (ground arith) in
          omega (arith, low, high, e, le, same)
      | inr f ↦
          let more = mul-le-mul_left {m = suc ((a + b) / n)} {n = (a + c) / n} n (ground arith) in
          let step = mul-suc n ((a + b) / n) in
          absurd (omega (arith, low, high, e, le, more, step, below))
    ]

-- Two offsets below the modulus that lead to the same place are equal.
add_mod_cancel : (n a b c : ℕ) → b < n → c < n → (a + b) % n ≡ (a + c) % n → b ≡ c
add_mod_cancel n a b c hb hc e = elim (Bool-cases (leb b c)) [
  | inl t ↦ add_mod_ordered n a b c (ground arith) hc e
  | inr f ↦ sym (add_mod_ordered n a c b (ground arith) hb (sym e))
]

-- The place of the replica number `i` in a list of `suc m` brokers.
abbrev pub place : ℕ → ℕ → ℕ → ℕ → ℕ
place m first shift zero = first
place m first shift (suc j) = (first + (1 + (shift + j) % m)) % suc m

abbrev offset : ℕ → ℕ → ℕ → ℕ
offset m shift zero = zero
offset m shift (suc j) = 1 + (shift + j) % m

place-offset :
    (m first shift i : ℕ)
    → first < suc m
    → place m first shift i ≡ (first + offset m shift i) % suc m
place-offset m first shift zero h =
    sym (mod-eq_of_lt (omega arith)) ∙ ap (λ k. k % suc m) (omega arith)
place-offset m first shift (suc j) h = refl

offset-lt : (m shift i : ℕ) → i < suc m → offset m shift i < suc m
offset-lt m shift zero h = omega arith
offset-lt zero shift (suc j) h = absurd (omega arith)
offset-lt (suc m) shift (suc j) h = omega (arith, mod-lt (shift + j) {m = suc m} (omega arith))

offset_injective :
    (m shift i k : ℕ) → i < suc m → k < suc m → offset m shift i ≡ offset m shift k → i ≡ k
offset_injective m shift zero zero hi hk e = refl
offset_injective m shift zero (suc k) hi hk e = absurd (omega arith)
offset_injective m shift (suc i) zero hi hk e = absurd (omega arith)
offset_injective m shift (suc i) (suc k) hi hk e =
    ap (λ x. suc x) (add_mod_cancel m shift i k (omega arith) (omega arith) (omega arith))

pub place-lt : (m first shift i : ℕ) → first < suc m → place m first shift i < suc m
place-lt m first shift zero h = h
place-lt m first shift (suc j) h = mod-lt (first + (1 + (shift + j) % m)) {m = suc m} (omega arith)

pub place_injective :
    (m first shift i k : ℕ)
    → first < suc m
    → i < suc m
    → k < suc m
    → place m first shift i ≡ place m first shift k
    → i ≡ k
place_injective m first shift i k h hi hk e = offset_injective m shift i k hi hk (
    add_mod_cancel (suc m) first (offset m shift i) (offset m shift k) (offset-lt m shift i hi)
      (offset-lt m shift k hk)
      (sym (place-offset m first shift i h) ∙ e ∙ place-offset m first shift k h))

pub rem-add :
    (a b n : ℕ)
    → a + b < 2 ^ 31
    → rem (int32 (pos a +ℤ pos b)) (pos (suc n)) ≡ some (pos ((a + b) % suc n))
unfolding rem
rem-add a b n h = rw (rem, int32-add a b h)

-- Within int32, the code computes that place.
pub replication_index-place :
    (m first shift j : ℕ)
    → first < suc (suc m)
    → suc (suc m) < 2 ^ 30
    → shift + j < 2 ^ 31
    → replication_index (pos first) (pos shift) (pos j) (pos (suc (suc m)))
      ≡ some (pos (place (suc m) first shift (suc j)))
unfolding replication_index
replication_index-place m first shift j hf hm hs =
    let r = (shift + j) % suc m in
    let small = mod-lt (shift + j) {m = suc m} (omega arith) in
    ap
      (λ d. rem (int32 (pos shift +ℤ pos j)) d >>= λ k.
        rem (int32 (pos first +ℤ int32 (pos 1 +ℤ k))) (pos (suc (suc m))))
      (int32-pred (suc m) (omega arith))
    ∙ ap (λ o. o >>= λ k. rem (int32 (pos first +ℤ int32 (pos 1 +ℤ k))) (pos (suc (suc m))))
        (rem-add shift j m hs)
    ∙ ap (λ k. rem (int32 (pos first +ℤ k)) (pos (suc (suc m))))
        (int32-add 1 r (omega (arith, small)))
    ∙ rem-add first (1 + r) (suc m) (omega (arith, small))
