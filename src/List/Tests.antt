-- ===== src/List/Tests.antt =====
-- The ring of head 1 with the entries 2 and 3, and the theorems on it.
use wqs.Common.{◌≡◌, refl, List, [], ◌∷◌, some, ◌==◌, if◌then◌else◌, arith}
use wqs.List.{Ptr, Heap, insert, remove}
use wqs.List.Ring.{IsRing, Keeps}
use wqs.List.Insert
use wqs.List.Remove

abbrev next_of : Ptr → Ptr
next_of p = if p == 1 then 2 else if p == 2 then 3 else if p == 3 then 1 else p

abbrev prev_of : Ptr → Ptr
prev_of p = if p == 1 then 3 else if p == 2 then 1 else if p == 3 then 2 else p

-- Every other node stands alone.
abbrev heap : Heap
heap = record { prev = prev_of; next = next_of }

abbrev entries : List Ptr
entries = 2 ∷ 3 ∷ []

heap-IsRing : IsRing heap 1 entries
heap-IsRing = record {
  chain = (refl, refl, (refl, refl, tt));
  closes = refl;
  opens = refl;
  distinct = ((omega arith, (omega arith, tt)), ((omega arith, tt), (tt, tt)));
  not_nil = (omega arith, (omega arith, (omega arith, tt)));
}

insert-IsRing_example :
    (h' : Heap) × (insert 7 1 heap ≡ some (tt, h'))
    × IsRing h' 1 (7 ∷ entries)
    × Keeps heap h' (7 ∷ 1 ∷ entries)
insert-IsRing_example =
    Insert.insert-IsRing heap 7 1 (omega arith) entries heap-IsRing
      (omega arith, (omega arith, (omega arith, tt)))

remove-IsRing_example :
    (h' : Heap) × (remove 2 heap ≡ some (tt, h'))
    × IsRing h' 1 (3 ∷ [])
    × Keeps heap h' (1 ∷ 3 ∷ [])
remove-IsRing_example = Remove.remove-IsRing heap 1 [] 2 (3 ∷ []) heap-IsRing
