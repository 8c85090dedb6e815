-- ===== src/List/Ring.antt =====
-- A heap holds a ring: following `next` from the head visits the entries in order and comes back,
-- and `prev` is the inverse.
use wqs.Common.{
  ◌≡◌, ◌≢◌, refl, sym, ◌∙◌, All-append, All-left, All-right, List, [], ◌∷◌, ◌++◌, All, arith,
}
use wqs.List.{Ptr, nil, Heap, with_next, with_prev}

abbrev pub NotIn : Ptr → List Ptr → Type 0
NotIn p = All (λ y. p ≢ y)

abbrev pub Distinct : List Ptr → Type 0
Distinct [] = Unit
Distinct (x ∷ xs) = NotIn x xs × Distinct xs

abbrev pub last : Ptr → List Ptr → Ptr
last a [] = a
last a (x ∷ xs) = last x xs

-- The links from `a` through `xs`.
abbrev pub Chain : Heap → Ptr → List Ptr → Type 0
Chain h a [] = Unit
Chain h a (x ∷ xs) = (h.next a ≡ x) × (h.prev x ≡ a) × Chain h x xs

pub record IsRing (h : Heap) (head : Ptr) (xs : List Ptr) : Type 0 where
  pub chain : Chain h head xs
  pub closes : h.next (last head xs) ≡ head
  pub opens : h.prev head ≡ last head xs
  pub distinct : Distinct (head ∷ xs)
  pub not_nil : All (λ p. p ≢ nil) (head ∷ xs)

pub All-last : (P : Ptr → Type 0) (a : Ptr) (xs : List Ptr) → All P (a ∷ xs) → P (last a xs)
All-last P a [] h = h.0
All-last P a (x ∷ xs) h = All-last P x xs h.1

pub last-append :
    (a : Ptr) (xs : List Ptr) (n : Ptr) (ys : List Ptr) → last a (xs ++ n ∷ ys) ≡ last n ys
last-append a [] n ys = refl
last-append a (x ∷ xs) n ys = last-append x xs n ys

pub Chain-append :
    (h : Heap) (a : Ptr) (xs ys : List Ptr)
    → Chain h a xs
    → Chain h (last a xs) ys
    → Chain h a (xs ++ ys)
Chain-append h a [] ys c d = d
Chain-append h a (x ∷ xs) ys c d = (c.0, c.1, Chain-append h x xs ys c.2 d)

pub Chain-left : (h : Heap) (a : Ptr) (xs ys : List Ptr) → Chain h a (xs ++ ys) → Chain h a xs
Chain-left h a [] ys c = tt
Chain-left h a (x ∷ xs) ys c = (c.0, c.1, Chain-left h x xs ys c.2)

pub Chain-right :
    (h : Heap) (a : Ptr) (xs ys : List Ptr) → Chain h a (xs ++ ys) → Chain h (last a xs) ys
Chain-right h a [] ys c = c
Chain-right h a (x ∷ xs) ys c = Chain-right h x xs ys c.2

-- A `next` word that no link of the chain reads may be written.
pub Chain-with_next :
    (h : Heap) (p q a : Ptr) (xs : List Ptr)
    → NotIn p (a ∷ xs)
    → Chain h a xs
    → Chain (with_next p q h) a xs
Chain-with_next h p q a [] f c = tt
Chain-with_next h p q a (x ∷ xs) f c = (ground arith, c.1, Chain-with_next h p q x xs f.1 c.2)

-- The last node's `next` word is no link of the chain.
pub Chain-with_next-last :
    (h : Heap) (q a : Ptr) (xs : List Ptr)
    → Distinct (a ∷ xs)
    → Chain h a xs
    → Chain (with_next (last a xs) q h) a xs
Chain-with_next-last h q a [] d c = tt
Chain-with_next-last h q a (x ∷ xs) d c =
    let apart : a ≢ last x xs = All-last (λ y. a ≢ y) x xs d.0 in
    (ground arith, c.1, Chain-with_next-last h q x xs d.1 c.2)

pub Chain-with_prev :
    (h : Heap) (p q a : Ptr) (xs : List Ptr)
    → NotIn p xs
    → Chain h a xs
    → Chain (with_prev p q h) a xs
Chain-with_prev h p q a [] f c = tt
Chain-with_prev h p q a (x ∷ xs) f c = (c.0, ground arith, Chain-with_prev h p q x xs f.1 c.2)

pub Distinct-left : (xs ys : List Ptr) → Distinct (xs ++ ys) → Distinct xs
Distinct-left [] ys d = tt
Distinct-left (x ∷ xs) ys d = (All-left _ xs ys d.0, Distinct-left xs ys d.1)

pub Distinct-right : (xs ys : List Ptr) → Distinct (xs ++ ys) → Distinct ys
Distinct-right [] ys d = d
Distinct-right (x ∷ xs) ys d = Distinct-right xs ys d.1

-- What stands before a node of a distinct list differs from it.
pub Distinct-before :
    (xs : List Ptr) (n : Ptr) (ys : List Ptr) → Distinct (xs ++ n ∷ ys) → NotIn n xs
Distinct-before [] n ys d = tt
Distinct-before (x ∷ xs) n ys d =
    let apart : x ≢ n = (All-right _ xs (n ∷ ys) d.0).0 in
    (λ e. apart (sym e), Distinct-before xs n ys d.1)

-- The words of all other nodes are as they were.
abbrev pub Keeps : Heap → Heap → List Ptr → Type 0
Keeps h h' zs = (p : Ptr) → NotIn p zs → (h'.next p ≡ h.next p) × (h'.prev p ≡ h.prev p)

pub NotIn-last : (p a : Ptr) (xs : List Ptr) → NotIn p (a ∷ xs) → p ≢ last a xs
NotIn-last p = All-last (λ y. p ≢ y)

NotIn-append : (p : Ptr) (xs : List Ptr) (n : Ptr) → NotIn p xs → p ≢ n → NotIn p (xs ++ n ∷ [])
NotIn-append p xs n f h = All-append (λ y. p ≢ y) xs (n ∷ []) f (h, tt)

pub Distinct-append : (xs : List Ptr) (n : Ptr) → Distinct xs → NotIn n xs → Distinct (xs ++ n ∷ [])
Distinct-append [] n d f = (tt, tt)
Distinct-append (x ∷ xs) n d f =
    (NotIn-append x xs n d.0 (λ e. f.0 (sym e)), Distinct-append xs n d.1 f.1)

pub Distinct-remove :
    (xs : List Ptr) (n : Ptr) (ys : List Ptr) → Distinct (xs ++ n ∷ ys) → Distinct (xs ++ ys)
Distinct-remove [] n ys d = d.1
Distinct-remove (x ∷ xs) n ys d =
    let right = All-right (λ y. x ≢ y) xs (n ∷ ys) d.0 in
    (All-append _ xs ys (All-left _ xs (n ∷ ys) d.0) right.1, Distinct-remove xs n ys d.1)

pub Distinct-NotIn :
    (xs : List Ptr) (n : Ptr) (ys : List Ptr) → Distinct (xs ++ n ∷ ys) → NotIn n (xs ++ ys)
Distinct-NotIn xs n ys d =
    All-append _ xs ys (Distinct-before xs n ys d) (Distinct-right xs (n ∷ ys) d).0

-- The last node of the left part is none of the right part.
pub Distinct-last : (a : Ptr) (xs ys : List Ptr) → Distinct (a ∷ xs ++ ys) → NotIn (last a xs) ys
Distinct-last a [] ys d = d.0
Distinct-last a (x ∷ xs) ys d = Distinct-last x xs ys d.1

Chain-Keeps :
    (h h' : Heap) (a : Ptr) (xs zs : List Ptr)
    → Keeps h h' zs
    → All (λ p. NotIn p zs) (a ∷ xs)
    → Chain h a xs
    → Chain h' a xs
Chain-Keeps h h' a [] zs k f c = tt
Chain-Keeps h h' a (x ∷ xs) zs k f c =
    ((k a f.0).0 ∙ c.0, (k x f.1.0).1 ∙ c.1, Chain-Keeps h h' x xs zs k f.1 c.2)

-- A ring stays a ring when only words of other nodes are written.
pub IsRing-Keeps :
    (h h' : Heap) (head : Ptr) (xs zs : List Ptr)
    → Keeps h h' zs
    → All (λ p. NotIn p zs) (head ∷ xs)
    → IsRing h head xs
    → IsRing h' head xs
IsRing-Keeps h h' head xs zs k f r = record {
  chain = Chain-Keeps h h' head xs zs k f r.chain;
  closes = (k (last head xs) (All-last _ head xs f)).0 ∙ r.closes;
  opens = (k head f.0).1 ∙ r.opens;
  distinct = r.distinct;
  not_nil = r.not_nil;
}
