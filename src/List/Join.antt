-- ===== src/List/Join.antt =====
-- The queries `Empty`, `IsLast` and `IsSingular` of utils/list/list.go on rings, and `Join`.
use wqs.Common.{◌≡◌, ◌≢◌, sym, ◌∙◌, ap, Bool, true, false, List, [], ◌∷◌, some, arith}
use wqs.List.{
  run-bind, Ptr, nil, Heap, with_next, with_prev, is_empty, is_singular, init, join, join_chain,
}
use wqs.List.Ring.{NotIn, last, IsRing, All-last, NotIn-last}

abbrev null : List Ptr → Bool
null [] = true
null (x ∷ xs) = false

abbrev singleton : List Ptr → Bool
singleton (x ∷ []) = true
singleton _ = false

-- `Empty` tells whether the ring of a head has no entry.
pub is_empty-null :
    (h : Heap) (head : Ptr) (xs : List Ptr) → IsRing h head xs → is_empty head h ≡ some (null xs, h)
unfolding is_empty
is_empty-null h head [] r = let closes : h.next head ≡ head = r.closes in ground arith
is_empty-null h head (x ∷ xs) r =
    let first : h.next head ≡ x = r.chain.0 in
    let head_first : head ≢ x = r.distinct.0.0 in ground arith

-- `IsSingular` tells whether the ring of a head has exactly one entry.
pub is_singular-singleton :
    (h : Heap) (head : Ptr) (xs : List Ptr)
    → IsRing h head xs
    → is_singular head h ≡ some (singleton xs, h)
unfolding is_singular
is_singular-singleton h head [] r =
    let opens : h.prev head ≡ head = r.opens in
    run-bind (is_empty head) _ (is_empty-null h head [] r) ∙ ground arith
is_singular-singleton h head (x ∷ []) r =
    let opens : h.prev head ≡ x = r.opens in
    let first : h.next head ≡ x = r.chain.0 in
    run-bind (is_empty head) _ (is_empty-null h head (x ∷ []) r) ∙ ground arith
is_singular-singleton h head (x ∷ y ∷ ys) r =
    let opens : h.prev head ≡ last y ys = r.opens in
    let first : h.next head ≡ x = r.chain.0 in
    let apart : x ≢ last y ys = NotIn-last x y ys r.distinct.1.0 in
    run-bind (is_empty head) _ (is_empty-null h head (x ∷ y ∷ ys) r) ∙ ground arith

abbrev joined : Ptr → Ptr → Ptr → Ptr → Heap → Heap
joined n head x end h =
    with_next head head
      (with_prev head head (with_prev x end (with_next end x (with_next n x (with_prev x n h)))))

join_chain_lem :
    (h : Heap) (n head x : Ptr) (xs : List Ptr)
    → n ≢ nil
    → NotIn n (head ∷ x ∷ xs)
    → IsRing h head (x ∷ xs)
    → (h' : Heap) × (join_chain n head h ≡ some (tt, h'))
      × (h'.next n ≡ x)
      × (h'.prev x ≡ last x xs)
unfolding join_chain init
join_chain_lem h n head x xs n_not_nil f r =
    let n_head : n ≢ head = f.0 in
    let n_last : n ≢ last x xs = NotIn-last n x xs f.1 in
    let head_x : head ≢ x = r.distinct.0.0 in
    let head_last : head ≢ last x xs = NotIn-last head x xs r.distinct.0 in
    let last_not_nil : last x xs ≢ nil = All-last _ x xs r.not_nil.1 in
    let first : h.next head ≡ x = r.chain.0 in
    let end : h.prev head ≡ last x xs = r.opens in
    (joined n head x (last x xs) h, ground arith, ground arith, ground arith)

-- A node whose successor points back elsewhere is the head of no ring.
not-IsRing :
    (h : Heap) (n x end : Ptr)
    → h.next n ≡ x
    → h.prev x ≡ end
    → n ≢ end
    → n ≢ x
    → (zs : List Ptr) → ¬ IsRing h n zs
not-IsRing h n x end e p apart other [] r = other (sym r.closes ∙ e)
not-IsRing h n x end e p apart other (z ∷ zs) r =
    apart (sym r.chain.1 ∙ ap h.prev (sym r.chain.0 ∙ e) ∙ p)

-- After joining a ring that is not empty, no list of entries makes a ring through the receiver.
pub join-not-IsRing :
    (h : Heap) (n head x : Ptr) (xs : List Ptr)
    → n ≢ nil
    → NotIn n (head ∷ x ∷ xs)
    → IsRing h head (x ∷ xs)
    → (h' : Heap) × (join n head h ≡ some (tt, h'))
      × (h'.next n ≡ x)
      × (h'.prev x ≡ last x xs)
      × ((zs : List Ptr) → ¬ IsRing h' n zs)
unfolding join
join-not-IsRing h n head x xs n_not_nil f r =
    let (h', ran, next_n, prev_x) = join_chain_lem h n head x xs n_not_nil f r in
    let n_last : n ≢ last x xs = NotIn-last n x xs f.1 in
    (
      h',
      run-bind (is_empty head) _ (is_empty-null h head (x ∷ xs) r) ∙ ran,
      next_n,
      prev_x,
      not-IsRing h' n x (last x xs) next_n prev_x n_last f.1.0,
    )
