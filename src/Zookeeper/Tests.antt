-- ===== src/Zookeeper/Tests.antt =====
-- A client whose tree is a dictionary of paths, and the theorems on it.
use wqs.Common.{
  ◌≡◌, ◌≢◌, refl, ap, arith, Bool-cases, inl, inr, Bool, true, false, Option, none, some, List, [],
  ◌∷◌, Bytes, codes, if◌then◌else◌,
}
use wqs.Common.Int.{pos}
use wqs.Common.Eq.{bytes_eq}
use wqs.Common.Dict.{Dict, lookup, insert, erase, lookup-insert, lookup-erase}
use wqs.Engine.{no_node, not_empty, diverged, Result, ok, err, for_each}
use wqs.Zookeeper.{ZkPath, Client, Node, create_recursive, create_or_update, delete_recursive}
use wqs.Zookeeper.Tree.{
  IsTree, path_key, path_eq, path_eq_iff, created_on, changed_on, parent_of, if_ok, content_of,
  is_some,
}
use wqs.Zookeeper.Delete.{Low, delete_recursive_returns}
use wqs.Zookeeper.Create.{create_or_update-node}

abbrev pub Nodes : Type 0
Nodes = Dict ZkPath Bytes

abbrev written : Nodes → ZkPath → Bytes → Result (Unit {0}) → Nodes × Result (Unit {0})
written w path content (ok _) = (insert w path content, ok tt)
written w path content (err e) = (w, err e)

abbrev below : Nodes → ZkPath → List Bytes
below [] path = []
below (([], c) ∷ w) path = below w path
below ((name ∷ p, c) ∷ w) path =
    let rest = below w path in if path_eq p path then name ∷ rest else rest

abbrev erased : Nodes → ZkPath → Option Bytes → List Bytes → Nodes × Result (Unit {0})
erased w path none names = (w, err no_node)
erased w path (some c) [] = (erase w path, ok tt)
erased w path (some c) (name ∷ names) = (w, err not_empty)

abbrev fetched : Nodes → Option Bytes → Nodes × Result Node
fetched w none = (w, err no_node)
fetched w (some c) = (w, ok (record { content = c; ctime = pos 0 }))

abbrev found_in : Option Bytes → Bool
found_in none = false
found_in (some c) = true

abbrev pub node_of : Nodes → ZkPath → Option Bytes
node_of w path = lookup w path

abbrev pub dict_client : Client Nodes
dict_client = record {
  create = λ path content flags w.
      written w path content (created_on (lookup w path) (parent_of (lookup w) path));
  delete = λ path w. erased w path (lookup w path) (below w path);
  get = λ path w. fetched w (lookup w path);
  set = λ path content w. written w path content (changed_on (lookup w path));
  children = λ path w. (w, ok (below w path));
  exists = λ path w. (w, ok (found_in (lookup w path)));
  lock = λ path w. (w, ok tt);
  unlock = λ path w. (w, ok tt);
}

written_result :
    (w : Nodes) (path : ZkPath) (content : Bytes) (r : Result (Unit {0}))
    → (written w path content r).1 ≡ r
written_result w path content (ok _) = refl
written_result w path content (err e) = refl

written_node :
    (w : Nodes) (path : ZkPath) (content : Bytes) (r : Result (Unit {0})) (q : ZkPath)
    → lookup (written w path content r).0 q
      ≡ if_ok
          (written w path content r).1
          (if path_eq path q then some content else lookup w q)
          (lookup w q)
written_node w path content (ok _) q = lookup-insert w path q content
written_node w path content (err e) q = refl

fetched_content : (w : Nodes) (o : Option Bytes) → content_of (fetched w o).1 ≡ o
fetched_content w none = refl
fetched_content w (some c) = refl

fetched_node : (w : Nodes) (o : Option Bytes) → (fetched w o).0 ≡ w
fetched_node w none = refl
fetched_node w (some c) = refl

erased_node :
    (w : Nodes) (path : ZkPath) (o : Option Bytes) (names : List Bytes) (q : ZkPath)
    → lookup (erased w path o names).0 q
      ≡ if_ok (erased w path o names).1 (if path_eq path q then none else lookup w q) (lookup w q)
erased_node w path none names q = refl
erased_node w path (some c) [] q = lookup-erase w path q
erased_node w path (some c) (name ∷ names) q = refl

first_below :
    (w : Nodes) (path : ZkPath) (name : Bytes) (names : List Bytes)
    → below w path ≡ name ∷ names
    → (c : Bytes) × (lookup w (name ∷ path) ≡ some c)
unfolding lookup
first_below [] path name names h = absurd (cc)
first_below (([], c) ∷ w) path name names h =
    let (d, found) = first_below w path name names h in
    (d, ground (arith, path_eq_iff [] (name ∷ path)))
first_below ((n ∷ p, c) ∷ w) path name names h = elim (Bool-cases (path_eq p path)) [
  | inl here ↦ (c, ground (arith, path_eq_iff p path, path_eq_iff (n ∷ p) (name ∷ path)))
  | inr apart ↦
      let (d, found) = first_below w path name names (ground (arith)) in
      (d, ground (arith, path_eq_iff p path, path_eq_iff (n ∷ p) (name ∷ path)))
]

erased_not_empty :
    (w : Nodes) (path : ZkPath) (o : Option Bytes) (names : List Bytes)
    → below w path ≡ names
    → (erased w path o names).1 ≡ err not_empty
    → (name : Bytes) × (c : Bytes) × (lookup w (name ∷ path) ≡ some c)
erased_not_empty w path none names e h = absurd (cc)
erased_not_empty w path (some c) [] e h = absurd (cc)
erased_not_empty w path (some c) (name ∷ names) e h =
    let (d, found) = first_below w path name names e in (name, d, found)

erased_returns :
    (w : Nodes) (path : ZkPath) (o : Option Bytes) (names : List Bytes)
    → (erased w path o names).1 ≢ err diverged
erased_returns w path none names = λ e. cc
erased_returns w path (some c) [] = λ e. cc
erased_returns w path (some c) (name ∷ names) = λ e. cc

found_in_lem : (o : Option Bytes) → found_in o ≡ is_some o
found_in_lem none = refl
found_in_lem (some c) = refl

pub dict_client-IsTree : IsTree dict_client node_of
dict_client-IsTree = record {
  delete_not_empty = λ path w h. erased_not_empty w path (lookup w path) (below w path) refl h;
  delete_returns = λ path w. erased_returns w path (lookup w path) (below w path);
  children_returns = λ path w e. cc;
  delete_node = λ path w q. erased_node w path (lookup w path) (below w path) q;
  exists_result = λ path w. ap (λ (b : Bool). ok b) (found_in_lem (lookup w path));
  exists_node = λ path w q. refl;
  get_result = λ path w. fetched_content w (lookup w path);
  get_node = λ path w q. ap (λ (v : Nodes). lookup v q) (fetched_node w (lookup w path));
  children_node = λ path w q. refl;
  lock_node = λ path w q. refl;
  unlock_node = λ path w q. refl;
  create_result = λ path content w.
      written_result w path content (created_on (lookup w path) (parent_of (lookup w) path));
  create_node = λ path content w q.
      written_node w path content (created_on (lookup w path) (parent_of (lookup w) path)) q;
  set_result = λ path content w. written_result w path content (changed_on (lookup w path));
  set_node = λ path content w q. written_node w path content (changed_on (lookup w path)) q;
}

abbrev top_only : Nodes
top_only = ([], codes "top") ∷ []

abbrev group_path : ZkPath
group_path = codes "g.q" ∷ codes "groupconfig" ∷ codes "wqs" ∷ []

-- The tree that a recursive creation leaves, and its removal.
create_delete :
    let w = (create_recursive dict_client group_path (codes "x") 0 top_only).0 in
    (lookup w group_path ≡ some (codes "x"))
    × (delete_recursive dict_client 4 (codes "wqs" ∷ []) w ≡ (top_only, ok tt))
unfolding create_recursive delete_recursive for_each lookup insert erase path_eq bytes_eq
create_delete = (refl, refl)

top_here : node_of top_only [] ≡ some (codes "top")
unfolding lookup path_eq
top_here = refl

nothing_there : node_of top_only group_path ≡ none
unfolding lookup path_eq
nothing_there = refl

create_or_update-node_example :
    ((create_or_update dict_client group_path (codes "y") 0 top_only).1 ≡ ok tt)
    × (node_of (create_or_update dict_client group_path (codes "y") 0 top_only).0 group_path
        ≡ some (codes "y"))
create_or_update-node_example =
    create_or_update-node dict_client node_of dict_client-IsTree group_path (codes "y")
      (codes "top") top_only top_here

-- The node "wqs" with one node below it.
abbrev two_nodes : Nodes
two_nodes =
    ([], codes "top") ∷ (codes "w" ∷ [], codes "x") ∷ (codes "q" ∷ codes "w" ∷ [], codes "y") ∷ []

two_nodes-Low : Low dict_client node_of dict_client-IsTree 2 (codes "w" ∷ []) two_nodes
unfolding lookup path_eq
two_nodes-Low [] h = absurd (omega arith)
two_nodes-Low (a ∷ []) h = absurd (omega arith)
two_nodes-Low (a ∷ b ∷ []) h = ground arith
two_nodes-Low (a ∷ b ∷ c ∷ names) h = ground arith

delete_recursive_returns_example :
    (delete_recursive dict_client 2 (codes "w" ∷ []) two_nodes).1 ≢ err diverged
delete_recursive_returns_example =
    delete_recursive_returns dict_client node_of dict_client-IsTree 1 (codes "w" ∷ []) two_nodes
      two_nodes-Low
