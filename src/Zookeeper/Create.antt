-- ===== src/Zookeeper/Create.antt =====
-- engine/zookeeper/zookeeper.go: CreateRecursive and what is built on it.
use mathlib.Core.Path.{subst}
use wqs.Common.{
  ◌<◌, ◌≡◌, refl, ap, ◌∙◌, Option, Option-cases, Bool-cases, none, some, [], ◌∷◌, inl, inr, Bytes,
  if◌then◌else◌, length, arith,
}
use wqs.Engine.{Error, no_node, node_exists, Result, ok, err}
use wqs.Zookeeper.{
  ZkPath, Client, create_recursive, create_or_update, after_create, after_parent, or_set,
}
use wqs.Zookeeper.Tree.{IsTree, path_eq, path_eq_iff, created_on, parent_of, if_ok, changed_on}

-- What a creation of a missing node leaves.
pub record IsCreated {W : Type 0} (node : W → ZkPath → Option Bytes) (path : ZkPath)
    (content : Bytes) (w : W) (r : W × Result (Unit {0})) : Type 0 where
  pub done : r.1 ≡ ok tt
  pub made : node r.0 path ≡ some content
  pub kept : (q : ZkPath) (d : Bytes) → node w q ≡ some d → node r.0 q ≡ some d
  pub longer : (q : ZkPath) → length path < length q → node r.0 q ≡ node w q

module _ {W : Type 0} (zk : Client W) (node : W → ZkPath → Option Bytes)
    (tree : IsTree zk node) where
  -- Below a parent that exists, the first call does it.
  create-IsCreated :
      (name : Bytes) (path : ZkPath) (content above : Bytes) (w : W)
      → node w (name ∷ path) ≡ none
      → node w path ≡ some above
      → IsCreated node (name ∷ path) content w (zk.create (name ∷ path) content 0 w)
  create-IsCreated name path content above w missing parent =
      let done : (zk.create (name ∷ path) content 0 w).1 ≡ ok tt =
        tree.create_result (name ∷ path) content w
        ∙ ap (λ o. created_on o (node w path)) missing
        ∙ ap (created_on none) parent in
      let after = λ (q : ZkPath).
        tree.create_node (name ∷ path) content w q
        ∙ ap (λ r. if_ok r (if path_eq (name ∷ path) q then some content else node w q) (node w q))
            done in
      record {
        done = done;
        made = after (name ∷ path) ∙ ground (arith, path_eq_iff (name ∷ path) (name ∷ path));
        kept = λ q d h. after q ∙ ground (arith, path_eq_iff (name ∷ path) q, missing);
        longer = λ q h. after q ∙ longer_apart q h;
      }
    where
      longer_apart :
          (q : ZkPath)
          → length (name ∷ path) < length q
          → (if path_eq (name ∷ path) q then some content else node w q) ≡ node w q
      longer_apart q h = elim (Bool-cases (path_eq (name ∷ path) q)) [
        | inl same ↦
            absurd
              (omega (arith, ap (λ (p : ZkPath). length p) ((path_eq_iff (name ∷ path) q).0 same)))
        | inr apart ↦ rw apart refl
      ]

  -- A call that failed wrote nothing.
  pub create_failed :
      (path : ZkPath) (content : Bytes) (w : W) (e : Error) (q : ZkPath)
      → (zk.create path content 0 w).1 ≡ err e
      → node (zk.create path content 0 w).0 q ≡ node w q
  create_failed path content w e q failed =
      tree.create_node path content w q
      ∙ ap (λ r. if_ok r (if path_eq path q then some content else node w q) (node w q)) failed

  pub create_recursive-IsCreated :
      (path : ZkPath) (content top : Bytes) (w : W)
      → node w [] ≡ some top
      → node w path ≡ none
      → IsCreated node path content w (create_recursive zk path content 0 w)
  unfolding create_recursive
  create_recursive-IsCreated [] content top w root missing = absurd (cc)
  create_recursive-IsCreated (name ∷ path) content top w root missing =
      elim (Option-cases (node w path)) [
        | inr (above, parent) ↦
            let made = create-IsCreated name path content above w missing parent in
            rw (made.done, after_create)
              (subst (IsCreated node (name ∷ path) content w)
                (ap (λ x. (((zk.create (name ∷ path) content 0 w).0, x))) made.done) made)
        | inl absent ↦ after_no_node (create_recursive-IsCreated path [] top) absent
      ]
    where
      first : W × Result (Unit {0})
      first = zk.create (name ∷ path) content 0 w

      after_no_node :
          ((v : W)
            → node v [] ≡ some top
            → node v path ≡ none
            → IsCreated node path [] v (create_recursive zk path [] 0 v))
          → node w path ≡ none
          → IsCreated node
              (name ∷ path)
              content
              w
              (after_create zk (create_recursive zk path [] 0) (name ∷ path) content 0 first)
      after_no_node above absent =
          let failed : first.1 ≡ err no_node =
            tree.create_result (name ∷ path) content w
            ∙ ap (λ o. created_on o (node w path)) missing
            ∙ ap (created_on none) absent in
          let same = λ (q : ZkPath). create_failed (name ∷ path) content w no_node q failed in
          let parent = above first.0 (same [] ∙ root) (same path ∙ absent) in
          let v = create_recursive zk path [] 0 first.0 in
          let last =
            create-IsCreated name path content [] v.0
              (parent.longer (name ∷ path) (omega arith) ∙ same (name ∷ path) ∙ missing)
              parent.made in
          let whole : IsCreated node (name ∷ path) content w
              (zk.create (name ∷ path) content 0 v.0) =
            record {
              done = last.done;
              made = last.made;
              kept = λ q d h. last.kept q d (parent.kept q d (same q ∙ h));
              longer = λ q h. last.longer q h ∙ parent.longer q (omega arith) ∙ same q;
            } in
          rw (failed, parent.done, after_create, after_parent) whole

  -- CreateRecursive of a missing node, below a root that exists, succeeds; the node then holds the
  -- data, and any node that existed keeps its own.
  pub create_recursive_missing :
      (path : ZkPath) (content top : Bytes) (w : W) (q : ZkPath) (d : Bytes)
      → node w [] ≡ some top
      → node w path ≡ none
      → node w q ≡ some d
      → ((create_recursive zk path content 0 w).1 ≡ ok tt)
        × (node (create_recursive zk path content 0 w).0 path ≡ some content)
        × (node (create_recursive zk path content 0 w).0 q ≡ some d)
  create_recursive_missing path content top w q d root missing here =
      let c = create_recursive-IsCreated path content top w root missing in
      (c.done, c.made, c.kept q d here)

  create_exists :
      (path : ZkPath) (content d : Bytes) (w : W)
      → node w path ≡ some d
      → (zk.create path content 0 w).1 ≡ err node_exists
  create_exists path content d w here =
      tree.create_result path content w ∙ ap (λ o. created_on o (parent_of (node w) path)) here

  pub create_recursive_exists :
      (path : ZkPath) (content d : Bytes) (w : W)
      → node w path ≡ some d
      → create_recursive zk path content 0 w ≡ ((zk.create path content 0 w).0, err node_exists)
  unfolding create_recursive
  create_recursive_exists [] content d w here = rw (create_exists [] content d w here, after_create)
  create_recursive_exists (name ∷ path) content d w here =
      rw (create_exists (name ∷ path) content d w here, after_create)

  -- CreateOrUpdate of a persistent node, in a tree of persistent nodes whose root exists, succeeds,
  -- and the node then holds the data, whether it existed or not.
  pub create_or_update-node :
      (path : ZkPath) (content top : Bytes) (w : W)
      → node w [] ≡ some top
      → ((create_or_update zk path content 0 w).1 ≡ ok tt)
        × (node (create_or_update zk path content 0 w).0 path ≡ some content)
  unfolding create_or_update
  create_or_update-node path content top w root = elim (Option-cases (node w path)) [
    | inl missing ↦
        let c = create_recursive-IsCreated path content top w root missing in
        rw (c.done, or_set) (refl, c.made)
    | inr (d, here) ↦
        let whole = create_recursive_exists path content d w here in
        let v = (create_recursive zk path content 0 w).0 in
        let failed : (create_recursive zk path content 0 w).1 ≡ err node_exists =
          ap (λ r. r.1) whole in
        let still : node v path ≡ some d =
          ap (λ r. node r.0 path) whole
          ∙ create_failed path content w node_exists path (create_exists path content d w here)
          ∙ here in
        let set : (zk.set path content v).1 ≡ ok tt =
          tree.set_result path content v ∙ ap changed_on still in
        let written =
          tree.set_node path content v path
          ∙ ap
              (λ r. if_ok r (if path_eq path path then some content else node v path) (node v path))
              set in
        rw (failed, or_set) (set, written ∙ ground (arith, path_eq_iff path path))
  ]
