-- ===== src/List/Remove.antt =====
-- `Remove`, `Move` and `MoveToTail` of utils/list/list.go.
use wqs.Common.{
  ◌≡◌, ◌≢◌, sym, ◌∙◌, ap, List, [], ◌∷◌, ◌++◌, All, All-append, All-left, All-right, some, arith,
}
use mathlib.Core.List.{append-nil}
use wqs.List.{run-bind, Ptr, nil, Heap, with_next, with_prev, remove, init, move, move_to_tail}
use wqs.List.Ring.{
  NotIn, last, IsRing, Keeps, last-append, Chain-append, Chain-left, Chain-right, Chain-with_next,
  Chain-with_next-last, Chain-with_prev, NotIn-last, All-last, Distinct-before, Distinct-left,
  Distinct-right, Distinct-remove, Distinct-NotIn, Distinct-last, IsRing-Keeps,
}
use wqs.List.Insert.{insert-IsRing, insert_to_tail-IsRing}

abbrev removed : Ptr → Ptr → Heap → Heap
removed before after h = with_prev after before (with_next before after h)

abbrev after_of : Ptr → List Ptr → Ptr
after_of head [] = head
after_of head (y ∷ ys) = y

module _ (h : Heap) (head : Ptr) (xs : List Ptr) (n : Ptr) where
  prev-entry : (ys : List Ptr) → IsRing h head (xs ++ n ∷ ys) → h.prev n ≡ last head xs
  prev-entry ys r = (Chain-right h head xs (n ∷ ys) r.chain).1

  next-entry : (ys : List Ptr) → IsRing h head (xs ++ n ∷ ys) → h.next n ≡ after_of head ys
  next-entry [] r = ap h.next (sym (last-append head xs n [])) ∙ r.closes
  next-entry (y ∷ ys) r = (Chain-right h head xs (n ∷ y ∷ ys) r.chain).2.0

  removed-IsRing :
      (ys : List Ptr)
      → IsRing h head (xs ++ n ∷ ys)
      → IsRing (removed (last head xs) (after_of head ys) h) head (xs ++ ys)
  removed-IsRing [] r =
      let d = Distinct-left (head ∷ xs) (n ∷ []) r.distinct in
      rw append-nil (record {
        chain =
            Chain-with_prev _ head (last head xs) head xs d.0
              (Chain-with_next-last h head head xs d (Chain-left h head xs (n ∷ []) r.chain));
        closes = ground arith;
        opens = ground arith;
        distinct = d;
        not_nil = All-left _ (head ∷ xs) (n ∷ []) r.not_nil;
      })
  removed-IsRing (y ∷ ys) r =
      let d = Distinct-remove (head ∷ xs) n (y ∷ ys) r.distinct in
      let left = Distinct-left (head ∷ xs) (y ∷ ys) d in
      let right = Distinct-right (head ∷ xs) (y ∷ ys) d in
      let y_apart = Distinct-before (head ∷ xs) y ys d in
      let end_apart = Distinct-last head xs (y ∷ ys) d in
      let y_head : y ≢ head = y_apart.0 in
      let end_last : last head xs ≢ last y ys = NotIn-last (last head xs) y ys end_apart in
      let new_end : last head (xs ++ y ∷ ys) ≡ last y ys = last-append head xs y ys in
      let old_end : last head (xs ++ n ∷ y ∷ ys) ≡ last y ys = last-append head xs n (y ∷ ys) in
      let closes_before : h.next (last y ys) ≡ head = ap h.next (sym old_end) ∙ r.closes in
      let opens_before : h.prev head ≡ last y ys = r.opens ∙ old_end in
      record {
        chain =
            Chain-append _ head xs (y ∷ ys)
              (Chain-with_prev _ y (last head xs) head xs y_apart.1
                (Chain-with_next-last h y head xs left (Chain-left h head xs (n ∷ y ∷ ys) r.chain)))
              (
                ground arith,
                ground arith,
                Chain-with_prev _ y (last head xs) y ys right.0 (
                    Chain-with_next _ (last head xs) y y ys end_apart
                      (Chain-right h head xs (n ∷ y ∷ ys) r.chain).2.2),
              );
        closes = rw new_end (ground arith);
        opens = rw new_end (ground arith);
        distinct = d;
        not_nil =
            All-append _ (head ∷ xs) (y ∷ ys) (All-left _ (head ∷ xs) (n ∷ y ∷ ys) r.not_nil)
              (All-right _ (head ∷ xs) (n ∷ y ∷ ys) r.not_nil).1;
      }

  after-not_nil : (ys : List Ptr) → IsRing h head (xs ++ n ∷ ys) → after_of head ys ≢ nil
  after-not_nil [] r = r.not_nil.0
  after-not_nil (y ∷ ys) r = (All-right _ (head ∷ xs) (n ∷ y ∷ ys) r.not_nil).1.0

  not_nil-entry : (ys : List Ptr) → IsRing h head (xs ++ n ∷ ys) → n ≢ nil
  not_nil-entry ys r = (All-right _ (head ∷ xs) (n ∷ ys) r.not_nil).0

  NotIn-after : (p : Ptr) (ys : List Ptr) → NotIn p (head ∷ ys) → p ≢ after_of head ys
  NotIn-after p [] f = f.0
  NotIn-after p (y ∷ ys) f = f.1.0

  -- An entry of a ring is removed by itself, wherever it stands: no fault, the order of the others
  -- stays, and no word of the entry or of a node outside the ring is written.
  pub remove-IsRing :
      (ys : List Ptr)
      → IsRing h head (xs ++ n ∷ ys)
      → (h' : Heap) × (remove n h ≡ some (tt, h'))
        × IsRing h' head (xs ++ ys)
        × Keeps h h' (head ∷ xs ++ ys)
  unfolding remove
  remove-IsRing ys r =
      let before : h.prev n ≡ last head xs = prev-entry ys r in
      let after : h.next n ≡ after_of head ys = next-entry ys r in
      let n_not_nil : n ≢ nil = not_nil-entry ys r in
      let end_not_nil : last head xs ≢ nil =
        All-last _ head xs (All-left _ (head ∷ xs) (n ∷ ys) r.not_nil) in
      let after_not_nil : after_of head ys ≢ nil = after-not_nil ys r in
      let apart = Distinct-before (head ∷ xs) n ys r.distinct in
      let n_end : n ≢ last head xs = NotIn-last n head xs apart in
      (
        removed (last head xs) (after_of head ys) h,
        ground arith,
        removed-IsRing ys r,
        λ p out.
            let p_end : p ≢ last head xs = NotIn-last p head xs (All-left _ (head ∷ xs) ys out) in
            let p_after : p ≢ after_of head ys =
              NotIn-after p ys (out.0, All-right _ (head ∷ xs) ys out) in
            ground arith,
      )

apart_from : (n : Ptr) (zs : List Ptr) → NotIn n zs → All (λ p. NotIn p (n ∷ [])) zs
apart_from n [] f = tt
apart_from n (z ∷ zs) f = (((λ e. f.0 (sym e)), tt), apart_from n zs f.1)

abbrev alone : Ptr → Heap → Heap
alone n h = with_next n n (with_prev n n h)

-- `Init` of a node outside a ring leaves the ring.
init-IsRing :
    (h : Heap) (head : Ptr) (xs : List Ptr) (n : Ptr)
    → n ≢ nil
    → IsRing h head xs
    → NotIn n (head ∷ xs)
    → (init n h ≡ some (n, alone n h)) × IsRing (alone n h) head xs
unfolding init
init-IsRing h head xs n n_not_nil r f = (
  ground arith,
  IsRing-Keeps h (alone n h) head xs (n ∷ []) (λ p out. let p_n : p ≢ n = out.0 in ground arith)
      (apart_from n (head ∷ xs) f) r,
)

module _ (h : Heap) (head : Ptr) (xs : List Ptr) (n : Ptr) (ys : List Ptr)
    (r : IsRing h head (xs ++ n ∷ ys)) where
  -- `n.MoveToTail(head)` makes an entry of the ring the last one and keeps the order of the others.
  pub move_to_tail-IsRing :
      (h' : Heap) × (move_to_tail n head h ≡ some (tt, h')) × IsRing h' head ((xs ++ ys) ++ n ∷ [])
  unfolding move_to_tail
  move_to_tail-IsRing =
      let (h1, ran1, ring1, _) = remove-IsRing h head xs n ys r in
      let n_not_nil = not_nil-entry h head xs n ys r in
      let apart = Distinct-NotIn (head ∷ xs) n ys r.distinct in
      let (ran2, ring2) = init-IsRing h1 head (xs ++ ys) n n_not_nil ring1 apart in
      let (h3, ran3, ring3, _) =
        insert_to_tail-IsRing (alone n h1) n head n_not_nil (xs ++ ys) ring2 apart in
      (h3, run-bind (remove n) _ ran1 ∙ (run-bind (init n) _ ran2 ∙ ran3), ring3)

  -- `n.Move(head)` makes an entry of the ring the first one and keeps the order of the others.
  pub move-IsRing : (h' : Heap) × (move n head h ≡ some (tt, h')) × IsRing h' head (n ∷ xs ++ ys)
  unfolding move
  move-IsRing =
      let (h1, ran1, ring1, _) = remove-IsRing h head xs n ys r in
      let n_not_nil = not_nil-entry h head xs n ys r in
      let apart = Distinct-NotIn (head ∷ xs) n ys r.distinct in
      let (ran2, ring2) = init-IsRing h1 head (xs ++ ys) n n_not_nil ring1 apart in
      let (h3, ran3, ring3, _) =
        insert-IsRing (alone n h1) n head n_not_nil (xs ++ ys) ring2 apart in
      (h3, run-bind (remove n) _ ran1 ∙ (run-bind (init n) _ ran2 ∙ ran3), ring3)
