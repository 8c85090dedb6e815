-- ===== src/List.antt =====
-- utils/list/list.go: the intrusive doubly linked ring. Nodes live at addresses of a heap, and a
-- method is a command that reads and writes the `prev` and `next` words of the nodes.
pub mod Ring
pub mod Insert
pub mod Remove
pub mod Join
mod Tests
use wqs.Common.{
  ◌≡◌, arith, ℕ, Bool, true, false, Option, none, some, not, ◌&&◌, ◌==◌, if◌then◌else◌,
}

-- The address of a node; 0 is nil.
abbrev pub Ptr : Type 0
Ptr = ℕ

abbrev pub nil : Ptr
nil = 0

-- The two fields of `Node`, for every address.
pub record Heap : Type 0 where
  pub prev : Ptr → Ptr
  pub next : Ptr → Ptr

-- `none` is a panic: a field of nil is read or written.
abbrev pub Cmd : Type 0 → Type 0
Cmd A = Heap → Option (A × Heap)

abbrev pub pure : {A : Type 0} → A → Cmd A
pure a h = some (a, h)

infixl 5 ◌>>=◌ ◌>>◌
abbrev pub ◌>>=◌ : {A B : Type 0} → Cmd A → (A → Cmd B) → Cmd B
◌>>=◌ m f h = elim (m h) [ none ↦ none | some (a, h') ↦ f a h' ]

abbrev pub ◌>>◌ : {B : Type 0} → Cmd (Unit {0}) → Cmd B → Cmd B
m >> k = m >>= λ _. k

-- A command whose first part succeeds goes on with the rest.
pub run-bind :
    {A B : Type 0} (m : Cmd A) (f : A → Cmd B) {h h' : Heap} {a : A}
    → m h ≡ some (a, h')
    → (m >>= f) h ≡ f a h'
run-bind m f e = ground arith

abbrev pub update : (Ptr → Ptr) → Ptr → Ptr → Ptr → Ptr
update f p v q = if p == q then v else f q

abbrev pub with_next : Ptr → Ptr → Heap → Heap
with_next p q h = record { prev = h.prev; next = update h.next p q }

abbrev pub with_prev : Ptr → Ptr → Heap → Heap
with_prev p q h = record { prev = update h.prev p q; next = h.next }

abbrev pub load_next : Ptr → Cmd Ptr
load_next p h = elim (p == nil) [ true ↦ none | false ↦ some (h.next p, h) ]

abbrev pub load_prev : Ptr → Cmd Ptr
load_prev p h = elim (p == nil) [ true ↦ none | false ↦ some (h.prev p, h) ]

abbrev pub store_next : Ptr → Ptr → Cmd (Unit {0})
store_next p q h = elim (p == nil) [ true ↦ none | false ↦ some (tt, with_next p q h) ]

abbrev pub store_prev : Ptr → Ptr → Cmd (Unit {0})
store_prev p q h = elim (p == nil) [ true ↦ none | false ↦ some (tt, with_prev p q h) ]

pub insert : Ptr → Ptr → Cmd (Unit {0})
insert n head = do
  first ← load_next head
  store_prev first n
  after ← load_next head
  store_next n after
  store_prev n head
  store_next head n

pub insert_to_tail : Ptr → Ptr → Cmd (Unit {0})
insert_to_tail n head = do
  last ← load_prev head
  store_next last n
  before ← load_prev head
  store_prev n before
  store_next n head
  store_prev head n

-- The receiver `n` is the old entry, `node` the new one.
pub replace : Ptr → Ptr → Cmd (Unit {0})
replace n node = do
  after ← load_next n
  store_next node after
  right ← load_next node
  store_prev right node
  before ← load_prev n
  store_prev node before
  left ← load_prev node
  store_next left node

pub remove : Ptr → Cmd (Unit {0})
remove n = do
  before ← load_prev n
  after ← load_next n
  store_next before after
  right ← load_next n
  left ← load_prev n
  store_prev right left

pub init : Ptr → Cmd Ptr
init n = do store_prev n n; store_next n n; pure n

pub move : Ptr → Ptr → Cmd (Unit {0})
move n head = do remove n; node ← init n; insert node head

pub move_to_tail : Ptr → Ptr → Cmd (Unit {0})
move_to_tail n head = do remove n; node ← init n; insert_to_tail node head

pub is_last : Ptr → Ptr → Cmd Bool
is_last n head = do after ← load_next n; pure (after == head)

pub is_empty : Ptr → Cmd Bool
is_empty n = do after ← load_next n; pure (after == n)

pub is_singular : Ptr → Cmd Bool
is_singular n = do
  empty ← is_empty n
  before ← load_prev n
  after ← load_next n
  pure (not empty && (before == after))

pub join_chain : Ptr → Ptr → Cmd (Unit {0})
join_chain n head = do
  first ← load_next head
  store_prev first n
  after ← load_next head
  store_next n after
  last ← load_prev head
  joined ← load_next n
  store_next last joined
  right ← load_next n
  before ← load_prev head
  store_prev right before
  _ ← init head
  pure tt

pub join : Ptr → Ptr → Cmd (Unit {0})
join n head = do empty ← is_empty head; if empty then pure tt else join_chain n head
