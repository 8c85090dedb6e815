-- ===== src/Zookeeper.antt =====
-- engine/zookeeper/zookeeper.go: `Conn`. The client of github.com/samuel/go-zookeeper is a record of
-- operations on the states of a world. A path is the list of its names, the last one first, so that
-- `path.Dir` is the tail and the root is the empty list.
pub mod Tree
pub mod Create
pub mod Delete
pub mod Tests
use wqs.Common.{
  ℕ, zero, suc, ◌≡◌, ◌≢◌, Bool, true, false, Option, none, some, List, [], ◌∷◌, ◌++◌, Bytes,
  if◌then◌else◌,
}
use wqs.Common.Int.{ℤ}
use wqs.Engine.{
  Error, no_node, node_exists, not_empty, diverged, Result, ok, err, Io, Done, ◌>>=◌, ◌>>◌, pure,
  throw, continue, for_each,
}

abbrev pub ZkPath : Type 0
ZkPath = List Bytes

-- Data and `stat.Ctime`.
pub record Node : Type 0 where
  pub content : Bytes
  pub ctime : ℤ

-- `flags` is 0 or `zk.FlagEphemeral`; versions and access lists are the constants of the source.
pub record Client (W : Type 0) : Type 0 where
  pub create : ZkPath → Bytes → ℕ → Done W
  pub delete : ZkPath → Done W
  pub get : ZkPath → Io W Node
  pub set : ZkPath → Bytes → Done W
  pub children : ZkPath → Io W (List Bytes)
  pub exists : ZkPath → Io W Bool
  pub lock : ZkPath → Done W
  pub unlock : ZkPath → Done W

module _ {W : Type 0} (zk : Client W) where
  -- After `ErrNoNode`: the parent, and the node once more.
  abbrev pub after_parent : ZkPath → Bytes → ℕ → W × Result (Unit {0}) → W × Result (Unit {0})
  after_parent path content flags (w, ok _) = zk.create path content flags w
  after_parent path content flags (w, err node_exists) = zk.create path content flags w
  after_parent path content flags (w, err e) = (w, err e)

  abbrev pub after_create :
      (Done W) → ZkPath → Bytes → ℕ → W × Result (Unit {0}) → W × Result (Unit {0})
  after_create parent path content flags (w, err no_node) =
      after_parent path content flags (parent w)
  after_create parent path content flags r = r

  -- At the root, which is its own parent, `ErrNoNode` makes the source call itself for ever.
  unfoldable pub create_recursive : ZkPath → Bytes → ℕ → Done W
  create_recursive [] content flags w =
      after_create (λ v. (v, err diverged)) [] content flags (zk.create [] content flags w)
  create_recursive (name ∷ path) content flags w =
      after_create (create_recursive path [] flags) (name ∷ path) content flags
        (zk.create (name ∷ path) content flags w)

  abbrev pub ignore_exist : W × Result (Unit {0}) → W × Result (Unit {0})
  ignore_exist (w, err node_exists) = (w, ok tt)
  ignore_exist r = r

  unfoldable pub create_recursive_ignore_exist : ZkPath → Bytes → ℕ → Done W
  create_recursive_ignore_exist path content flags w =
      ignore_exist (create_recursive path content flags w)

  abbrev pub or_set : ZkPath → Bytes → W × Result (Unit {0}) → W × Result (Unit {0})
  or_set path content (w, err node_exists) = zk.set path content w
  or_set path content r = r

  unfoldable pub create_or_update : ZkPath → Bytes → ℕ → Done W
  create_or_update path content flags w =
      or_set path content (create_recursive path content flags w)

  abbrev pub after_delete : Done W → W × Result (Unit {0}) → W × Result (Unit {0})
  after_delete below (w, err not_empty) = below w
  after_delete below r = r

  -- `fuel` bounds the height of the tree below the path.
  unfoldable pub delete_recursive : ℕ → ZkPath → Done W
  delete_recursive zero path w = (w, err diverged)
  delete_recursive (suc fuel) path w =
      after_delete
        (do
          names ← zk.children path
          for_each (λ name. delete_recursive fuel (name ∷ path)) names
          zk.delete path)
        (zk.delete path w)

  -- `HasChildren`
  unfoldable pub has_children : ZkPath → Io W Bool
  has_children path = do names ← zk.children path; pure (elim names [ [] ↦ false | _ ∷ _ ↦ true ])

unfoldable pub is_exist_error : Error → Bool
is_exist_error node_exists = true
is_exist_error e = false

unfoldable pub is_no_node : Error → Bool
is_no_node no_node = true
is_no_node e = false
