-- ===== src/Zookeeper/Tree.antt =====
-- What engine/zookeeper/zookeeper.go relies on: a connected session without other writers sees a
-- tree of nodes, and a call does to it what ZooKeeper documents. The tree leaves out the nodes by
-- which locks are taken, and the ephemeral ones: all its nodes are persistent, and the laws are of
-- `create` with the flags 0. Below an ephemeral node ZooKeeper creates nothing.
use wqs.Common.{
  ◌≡◌, ◌≢◌, ◌↔◌, refl, Bool, true, false, Option, none, some, [], ◌∷◌, ◌&&◌, Bytes, if◌then◌else◌,
  arith,
}
use wqs.Common.Eq.{Eq, bytes_eq, bytes_eq_iff}
use wqs.Engine.{not_empty, diverged, no_node, node_exists, Result, ok, err}
use wqs.Zookeeper.{ZkPath, Client, Node}

unfoldable pub path_eq : ZkPath → ZkPath → Bool
path_eq [] [] = true
path_eq [] (_ ∷ _) = false
path_eq (_ ∷ _) [] = false
path_eq (a ∷ s) (b ∷ t) = bytes_eq a b && path_eq s t

path_eq-to-eq : (s t : ZkPath) → path_eq s t ≡ true → s ≡ t
unfolding path_eq
path_eq-to-eq [] [] h = refl
path_eq-to-eq [] (_ ∷ _) h = cc
path_eq-to-eq (_ ∷ _) [] h = cc
path_eq-to-eq (a ∷ s) (b ∷ t) h = ground (arith, path_eq-to-eq s t, bytes_eq_iff a b)

path_eq_self : (s : ZkPath) → path_eq s s ≡ true
unfolding path_eq
path_eq_self [] = refl
path_eq_self (a ∷ s) = ground (arith, path_eq_self s, bytes_eq_iff a a)

pub path_eq_iff : (s t : ZkPath) → (path_eq s t ≡ true) ↔ (s ≡ t)
path_eq_iff s t = (path_eq-to-eq s t, λ e. rw e (path_eq_self t))

instance abbrev pub path_key : Eq ZkPath
path_key = record { beq = path_eq; beq_iff = path_eq_iff }

-- What `create` answers, by whether the node and its parent exist.
abbrev pub created_on : Option Bytes → Option Bytes → Result (Unit {0})
created_on (some here) parent = err node_exists
created_on none none = err no_node
created_on none (some above) = ok tt

abbrev pub parent_of : (ZkPath → Option Bytes) → ZkPath → Option Bytes
parent_of node [] = none
parent_of node (name ∷ path) = node path

abbrev pub if_ok : {A : Type 0} → Result (Unit {0}) → A → A → A
if_ok (ok _) a b = a
if_ok (err e) a b = b

-- `set` and `delete` of a node that is not there.
abbrev pub changed_on : Option Bytes → Result (Unit {0})
changed_on none = err no_node
changed_on (some here) = ok tt

abbrev pub content_of : Result Node → Option Bytes
content_of (ok n) = some n.content
content_of (err e) = none

abbrev pub is_some : Option Bytes → Bool
is_some none = false
is_some (some c) = true

pub record IsTree {W : Type 0} (zk : Client W) (node : W → ZkPath → Option Bytes) : Type 0 where
  pub create_result :
      (path : ZkPath) (content : Bytes) (w : W)
      → (zk.create path content 0 w).1 ≡ created_on (node w path) (parent_of (node w) path)
  pub create_node :
      (path : ZkPath) (content : Bytes) (w : W) (q : ZkPath)
      → node (zk.create path content 0 w).0 q
        ≡ if_ok
            (zk.create path content 0 w).1
            (if path_eq path q then some content else node w q)
            (node w q)
  pub set_result :
      (path : ZkPath) (content : Bytes) (w : W)
      → (zk.set path content w).1 ≡ changed_on (node w path)
  pub set_node :
      (path : ZkPath) (content : Bytes) (w : W) (q : ZkPath)
      → node (zk.set path content w).0 q
        ≡ if_ok
            (zk.set path content w).1
            (if path_eq path q then some content else node w q)
            (node w q)
  pub delete_node :
      (path : ZkPath) (w : W) (q : ZkPath)
      → node (zk.delete path w).0 q
        ≡ if_ok (zk.delete path w).1 (if path_eq path q then none else node w q) (node w q)
  -- A node that is not empty has one below it.
  pub delete_not_empty :
      (path : ZkPath) (w : W)
      → (zk.delete path w).1 ≡ err not_empty
      → (name : Bytes) × (content : Bytes) × (node w (name ∷ path) ≡ some content)
  pub delete_returns : (path : ZkPath) (w : W) → (zk.delete path w).1 ≢ err diverged
  pub children_returns : (path : ZkPath) (w : W) → (zk.children path w).1 ≢ err diverged
  pub exists_result : (path : ZkPath) (w : W) → (zk.exists path w).1 ≡ ok (is_some (node w path))
  pub exists_node : (path : ZkPath) (w : W) (q : ZkPath) → node (zk.exists path w).0 q ≡ node w q
  pub get_result : (path : ZkPath) (w : W) → content_of (zk.get path w).1 ≡ node w path
  pub get_node : (path : ZkPath) (w : W) (q : ZkPath) → node (zk.get path w).0 q ≡ node w q
  pub children_node :
      (path : ZkPath) (w : W) (q : ZkPath) → node (zk.children path w).0 q ≡ node w q
  pub lock_node : (path : ZkPath) (w : W) (q : ZkPath) → node (zk.lock path w).0 q ≡ node w q
  pub unlock_node : (path : ZkPath) (w : W) (q : ZkPath) → node (zk.unlock path w).0 q ≡ node w q
