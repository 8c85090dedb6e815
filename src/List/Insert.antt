-- ===== src/List/Insert.antt =====
-- `Insert` and `InsertToTail` of utils/list/list.go.
use wqs.Common.{◌≡◌, ◌≢◌, sym, List, [], ◌∷◌, ◌++◌, All-append, some, arith}
use wqs.List.{Ptr, nil, Heap, with_next, with_prev, insert, insert_to_tail}
use wqs.List.Ring.{
  NotIn, last, IsRing, Keeps, last-append, Chain-append, Chain-with_next, Chain-with_next-last,
  Chain-with_prev, NotIn-last, All-last, Distinct-append,
}

-- The heap after `n.Insert(head)`, where `first` follows the head.
abbrev inserted : Ptr → Ptr → Ptr → Heap → Heap
inserted n head first h =
    with_next head n (with_prev n head (with_next n first (with_prev first n h)))

abbrev first_of_ring : Ptr → List Ptr → Ptr
first_of_ring head [] = head
first_of_ring head (x ∷ xs) = x

next-first :
    (h : Heap) (head : Ptr) (xs : List Ptr) → IsRing h head xs → h.next head ≡ first_of_ring head xs
next-first h head [] r = r.closes
next-first h head (x ∷ xs) r = r.chain.0

module _ (h : Heap) (n head : Ptr) (n_not_nil : n ≢ nil) where
  inserted-IsRing :
      (xs : List Ptr)
      → IsRing h head xs
      → NotIn n (head ∷ xs)
      → IsRing (inserted n head (first_of_ring head xs) h) head (n ∷ xs)
  inserted-IsRing [] r f = record {
    chain = ground arith;
    closes = ground arith;
    opens = ground arith;
    distinct = ((λ e. f.0 (sym e), tt), (tt, tt));
    not_nil = (r.not_nil.0, (n_not_nil, tt));
  }
  inserted-IsRing (x ∷ xs) r f =
      let n_first : n ≢ x = f.1.0 in
      let head_first : head ≢ x = r.distinct.0.0 in
      let n_head : n ≢ head = f.0 in
      let n_last : n ≢ last x xs = NotIn-last n x xs f.1 in
      let head_last : head ≢ last x xs = NotIn-last head x xs r.distinct.0 in
      let closes_before : h.next (last x xs) ≡ head = r.closes in
      let opens_before : h.prev head ≡ last x xs = r.opens in
      record {
        chain = (
          ground arith,
          ground arith,
          (
            ground arith,
            ground arith,
            Chain-with_next _ head n x xs r.distinct.0 (
                Chain-with_prev _ n head x xs f.1.1 (
                  Chain-with_next _ n x x xs f.1
                    (Chain-with_prev _ x n x xs r.distinct.1.0 r.chain.2))),
          ),
        );
        closes = ground arith;
        opens = ground arith;
        distinct = ((λ e. f.0 (sym e), r.distinct.0), (f.1, r.distinct.1));
        not_nil = (r.not_nil.0, (n_not_nil, r.not_nil.1));
      }

  -- On a ring, `n.Insert(head)` does not fault, puts a node that is not in the ring first, and
  -- writes no word of a node outside.
  pub insert-IsRing :
      (xs : List Ptr)
      → IsRing h head xs
      → NotIn n (head ∷ xs)
      → (h' : Heap) × (insert n head h ≡ some (tt, h'))
        × IsRing h' head (n ∷ xs)
        × Keeps h h' (n ∷ head ∷ xs)
  unfolding insert
  insert-IsRing [] r f =
      let n_head : n ≢ head = f.0 in
      let closes_before : h.next head ≡ head = r.closes in
      (inserted n head head h, ground arith, inserted-IsRing [] r f, λ p out. ground arith)
  insert-IsRing (x ∷ xs) r f =
      let n_head : n ≢ head = f.0 in
      let first : h.next head ≡ x = r.chain.0 in
      (inserted n head x h, ground arith, inserted-IsRing (x ∷ xs) r f, λ p out. ground arith)

  -- The heap after `n.InsertToTail(head)`, where `end` precedes the head.
  abbrev appended : Ptr → Heap
  appended end = with_prev head n (with_next n head (with_prev n end (with_next end n h)))

  appended-IsRing :
      (xs : List Ptr)
      → IsRing h head xs
      → NotIn n (head ∷ xs)
      → IsRing (appended (last head xs)) head (xs ++ n ∷ [])
  appended-IsRing xs r f =
      let end : Ptr = last head xs in
      let n_head : n ≢ head = f.0 in
      let n_end : n ≢ last head xs = NotIn-last n head xs f in
      let new_end : last head (xs ++ n ∷ []) ≡ n = last-append head xs n [] in
      record {
        chain =
            Chain-append _ head xs (n ∷ [])
              (Chain-with_prev _ head n head xs r.distinct.0 (
                Chain-with_next _ n head head xs f (
                  Chain-with_prev _ n (last head xs) head xs f.1
                    (Chain-with_next-last h n head xs r.distinct r.chain))))
              (ground arith, ground arith, tt);
        closes = rw new_end (ground arith);
        opens = rw new_end (ground arith);
        distinct = Distinct-append (head ∷ xs) n r.distinct f;
        not_nil = All-append _ (head ∷ xs) (n ∷ []) r.not_nil (n_not_nil, tt);
      }

  -- On a ring, `n.InsertToTail(head)` does not fault, puts a node that is not in the ring last, and
  -- writes no word of a node outside.
  pub insert_to_tail-IsRing :
      (xs : List Ptr)
      → IsRing h head xs
      → NotIn n (head ∷ xs)
      → (h' : Heap) × (insert_to_tail n head h ≡ some (tt, h'))
        × IsRing h' head (xs ++ n ∷ [])
        × Keeps h h' (n ∷ head ∷ xs)
  unfolding insert_to_tail
  insert_to_tail-IsRing xs r f =
      let n_head : n ≢ head = f.0 in
      let end_not_nil : last head xs ≢ nil = All-last _ head xs r.not_nil in
      (
        appended (last head xs),
        ground arith,
        appended-IsRing xs r f,
        λ p out. let apart : p ≢ last head xs = NotIn-last p head xs out.1 in ground arith,
      )
