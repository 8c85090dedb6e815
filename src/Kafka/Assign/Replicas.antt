-- ===== src/Kafka/Assign/Replicas.antt =====
-- engine/kafka/manager.go: the replica list of one partition.
use native.Mathlib.Nat.{mod-lt}
use mathlib.Core.Option.{some-injective}
use mathlib.Core.Path.{subst}
use wqs.Common.{
  ℕ, zero, suc, ◌+◌, ◌%◌, ◌^◌, ◌<◌, ◌≤◌, ◌≡◌, ◌≢◌, refl, sym, ap, ◌∙◌, some, List, [], ◌∷◌, arith,
  length, get_elem?, All,
}
use wqs.Common.Int.{ℤ, pos}
use wqs.Kafka.Assign.{index, further_replicas, replicas, bind_some}
use wqs.Kafka.Assign.Index.{place, place-lt, place_injective, replication_index-place, rem-add}

unfoldable pub Distinct : List ℤ → Type 0
Distinct [] = Unit
Distinct (x ∷ xs) = All (λ y. x ≢ y) xs × Distinct xs

abbrev pub Member : List ℤ → ℤ → Type 0
Member xs x = (i : ℕ) × (get_elem? xs i ≡ some x)

pub get_elem?-some : (xs : List ℤ) (i : ℕ) → i < length xs → (x : ℤ) × (get_elem? xs i ≡ some x)
get_elem?-some [] i h = absurd (omega arith)
get_elem?-some (x ∷ xs) zero h = (x, refl)
get_elem?-some (x ∷ xs) (suc i) h = get_elem?-some xs i (omega arith)

All-elements :
    (P : ℤ → Type 0) (xs : List ℤ) → ((i : ℕ) (x : ℤ) → get_elem? xs i ≡ some x → P x) → All P xs
All-elements P [] h = tt
All-elements P (x ∷ xs) h = (h 0 x refl, All-elements P xs (λ i y e. h (suc i) y e))

All-element :
    (P : ℤ → Type 0) (xs : List ℤ) (i : ℕ) (x : ℤ) → All P xs → get_elem? xs i ≡ some x → P x
All-element P [] i x a e = absurd cc
All-element P (y ∷ xs) zero x a e = subst P (some-injective y x e) a.0
All-element P (y ∷ xs) (suc i) x a e = All-element P xs i x a.1 e

Distinct-injective :
    (xs : List ℤ) (i k : ℕ) (x : ℤ)
    → Distinct xs
    → get_elem? xs i ≡ some x
    → get_elem? xs k ≡ some x
    → i ≡ k
unfolding Distinct
Distinct-injective [] i k x d ei ek = absurd cc
Distinct-injective (y ∷ xs) zero zero x d ei ek = refl
Distinct-injective (y ∷ xs) zero (suc k) x d ei ek =
    absurd (All-element (λ z. y ≢ z) xs k x d.0 ek cc)
Distinct-injective (y ∷ xs) (suc i) zero x d ei ek =
    absurd (All-element (λ z. y ≢ z) xs i x d.0 ei cc)
Distinct-injective (y ∷ xs) (suc i) (suc k) x d ei ek =
    ap (λ n. suc n) (Distinct-injective xs i k x d.1 ei ek)

Distinct-of_injective :
    (xs : List ℤ)
    → ((i k : ℕ) (x : ℤ) → get_elem? xs i ≡ some x → get_elem? xs k ≡ some x → i ≡ k)
    → Distinct xs
unfolding Distinct
Distinct-of_injective [] h = tt
Distinct-of_injective (x ∷ xs) h = (
  All-elements (λ y. x ≢ y) xs
      (λ i y e same. absurd (omega (arith, h 0 (suc i) x refl (e ∙ ap some (sym same))))),
  Distinct-of_injective xs (λ i k y ei ek. omega (arith, h (suc i) (suc k) y ei ek)),
)

-- The brokers stand at the places `i`, `i + 1`, ... of a partition.
unfoldable AtPlaces : List ℤ → ℕ → ℕ → ℕ → ℕ → List ℤ → Type 0
AtPlaces brokers m first shift i [] = Unit
AtPlaces brokers m first shift i (r ∷ rs) =
    (get_elem? brokers (place m first shift i) ≡ some r) × AtPlaces brokers m first shift (suc i) rs

further_replicas-AtPlaces :
    (brokers : List ℤ) (m first shift j count : ℕ)
    → length brokers ≡ suc m
    → suc m < 2 ^ 30
    → first < suc m
    → count ≤ m
    → shift + j + count < 2 ^ 31
    → (rs : List ℤ) × (further_replicas brokers (pos first) (pos shift) (pos (suc m)) j count
        ≡ some rs)
      × (length rs ≡ count)
      × AtPlaces brokers m first shift (suc j) rs
unfolding further_replicas index AtPlaces
further_replicas-AtPlaces brokers m first shift j zero e small hf hc hs = ([], refl, refl, tt)
further_replicas-AtPlaces brokers zero first shift j (suc count) e small hf hc hs =
    absurd (omega arith)
further_replicas-AtPlaces brokers (suc m) first shift j (suc count) e small hf hc hs =
    let at_place = replication_index-place m first shift j hf small (omega arith) in
    let (broker, found) =
      get_elem?-some brokers (place (suc m) first shift (suc j))
        (omega (arith, e, place-lt (suc m) first shift (suc j) hf)) in
    let (rs, done, len, places) =
      further_replicas-AtPlaces brokers (suc m) first shift (suc j) count e small hf (omega arith)
        (omega arith) in
    (
      broker ∷ rs,
      bind_some _ at_place (bind_some _ found (bind_some _ done refl)),
      omega (arith, len),
      (found, places),
    )

AtPlaces-element :
    (brokers : List ℤ) (m first shift i : ℕ) (rs : List ℤ) (k : ℕ) (x : ℤ)
    → AtPlaces brokers m first shift i rs
    → get_elem? rs k ≡ some x
    → get_elem? brokers (place m first shift (k + i)) ≡ some x
unfolding AtPlaces
AtPlaces-element brokers m first shift i [] k x p e = absurd cc
AtPlaces-element brokers m first shift i (r ∷ rs) zero x (here, later) e =
    ap (λ n. get_elem? brokers (place m first shift n)) (omega arith) ∙ here ∙ e
AtPlaces-element brokers m first shift i (r ∷ rs) (suc k) x (here, later) e =
    ap (λ n. get_elem? brokers (place m first shift n)) (omega arith)
    ∙ AtPlaces-element brokers m first shift (suc i) rs k x later e

AtPlaces-cons :
    (brokers : List ℤ) (m first shift : ℕ) (r : ℤ) (rs : List ℤ)
    → get_elem? brokers first ≡ some r
    → AtPlaces brokers m first shift 1 rs
    → AtPlaces brokers m first shift 0 (r ∷ rs)
unfolding AtPlaces
AtPlaces-cons brokers m first shift r rs here later = (here, later)

get_elem?-lt : (xs : List ℤ) (i : ℕ) (x : ℤ) → get_elem? xs i ≡ some x → i < length xs
get_elem?-lt [] i x e = absurd cc
get_elem?-lt (y ∷ xs) zero x e = omega arith
get_elem?-lt (y ∷ xs) (suc i) x e = omega (arith, get_elem?-lt xs i x e)

AtPlaces-injective :
    (brokers : List ℤ) (m first shift : ℕ) (rs : List ℤ)
    → Distinct brokers
    → first < suc m
    → length rs ≤ suc m
    → AtPlaces brokers m first shift 0 rs
    → (i k : ℕ) (x : ℤ) → get_elem? rs i ≡ some x
    → get_elem? rs k ≡ some x
    → i ≡ k
AtPlaces-injective brokers m first shift rs distinct hf few all i k x ei ek =
    let at_i = AtPlaces-element brokers m first shift 0 rs i x all ei in
    let at_k = AtPlaces-element brokers m first shift 0 rs k x all ek in
    let same =
      Distinct-injective brokers (place m first shift (i + 0)) (place m first shift (k + 0)) x
        distinct at_i at_k in
    let low = get_elem?-lt rs i x ei in
    let high = get_elem?-lt rs k x ek in
    omega (
      arith,
      place_injective m first shift (i + 0) (k + 0) hf (omega (arith, low, few))
          (omega (arith, high, few)) same,
    )

-- What a good replica list is: distinct brokers of the list, as many as asked for.
pub record IsReplicaList (brokers : List ℤ) (count : ℕ) (rs : List ℤ) : Type 0 where
  counted : length rs ≡ count
  known : All (Member brokers) rs
  distinct : Distinct rs

-- A partition whose first replica is in range and whose numbers fit gets a good list.
pub replicas-IsReplicaList :
    (brokers : List ℤ) (m start current shift count : ℕ)
    → Distinct brokers
    → length brokers ≡ suc m
    → suc m < 2 ^ 30
    → count ≤ m
    → current + start < 2 ^ 31
    → shift + count < 2 ^ 31
    → (rs : List ℤ) × (replicas brokers (pos (suc m)) (pos start) (pos shift) (pos current) count
        ≡ some rs)
      × IsReplicaList brokers (suc count) rs
unfolding replicas index
replicas-IsReplicaList brokers m start current shift count distinct e small hc hstart hshift =
    let first = (current + start) % suc m in
    let in_range : first < suc m = mod-lt (current + start) {m = suc m} (omega arith) in
    let (broker, found) = get_elem?-some brokers first (omega (arith, e, in_range)) in
    let (rs, done, len, places) =
      further_replicas-AtPlaces brokers m first shift 0 count e small in_range hc (omega arith) in
    let all : AtPlaces brokers m first shift 0 (broker ∷ rs) =
      AtPlaces-cons brokers m first shift broker rs found places in
    (
      broker ∷ rs,
      bind_some _ (rem-add current start m hstart) (bind_some _ found (bind_some _ done refl)),
      record {
        counted = omega (arith, len);
        known = All-elements (Member brokers) (broker ∷ rs) (λ i x ei. (
          place m first shift (i + 0),
          AtPlaces-element brokers m first shift 0 (broker ∷ rs) i x all ei,
        ));
        distinct = Distinct-of_injective (broker ∷ rs) (
            AtPlaces-injective brokers m first shift (broker ∷ rs) distinct in_range
              (omega (arith, len)) all);
      },
    )
