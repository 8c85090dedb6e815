-- ===== src/Zookeeper/Delete.antt =====
-- engine/zookeeper/zookeeper.go: DeleteRecursive.
use mathlib.Core.List.{append_assoc}
use wqs.Common.{
  ℕ, zero, suc, ◌≤◌, ◌≡◌, ◌≢◌, refl, sym, ap, ◌∙◌, Bool, true, false, ◌⊎◌, Option, none, List, [],
  ◌∷◌, ◌++◌, inl, inr, Bytes, if◌then◌else◌, length, length-append, arith,
}
use wqs.Engine.{not_empty, diverged, Result, ok, err, Done, continue, for_each}
use wqs.Zookeeper.{ZkPath, Client, delete_recursive, after_delete}
use wqs.Zookeeper.Tree.{IsTree, path_eq, if_ok}

module _ {W : Type 0} (zk : Client W) (node : W → ZkPath → Option Bytes)
    (tree : IsTree zk node) where
  -- No node appears.
  abbrev Shrinks : W → W → Type 0
  Shrinks w v = (q : ZkPath) → node w q ≡ none → node v q ≡ none

  if_none :
      (r : Result (Unit {0})) (b : Bool) (o : Option Bytes)
      → o ≡ none
      → if_ok r (if b then none else o) o ≡ none
  if_none (ok _) true o h = refl
  if_none (ok _) false o h = h
  if_none (err e) b o h = h

  delete-Shrinks : (path : ZkPath) (w : W) → Shrinks w (zk.delete path w).0
  delete-Shrinks path w q missing =
      tree.delete_node path w q ∙ if_none (zk.delete path w).1 (path_eq path q) (node w q) missing

  -- What a call must do that is made in a loop: no node appears, and below a bound it returns.
  module _ (f : Bytes → Done W) (shrinks : (name : Bytes) (w : W) → Shrinks w (f name w).0) where
    after-Shrinks :
        (names : List Bytes) (r : W × Result (Unit {0}))
        → ((v : W) → Shrinks v (for_each f names v).0)
        → Shrinks r.0 (continue (λ _. for_each f names) r).0
    after-Shrinks names (v, ok _) rest = rest v
    after-Shrinks names (v, err e) rest = λ q h. h

    for_each-Shrinks : (names : List Bytes) (w : W) → Shrinks w (for_each f names w).0
    unfolding for_each
    for_each-Shrinks [] w q h = h
    for_each-Shrinks (name ∷ names) w q h =
        after-Shrinks names (f name w) (for_each-Shrinks names) q (shrinks name w q h)

    module _ (Small : W → Type 0) (kept : (w v : W) → Small w → Shrinks w v → Small v)
        (returns : (name : Bytes) (w : W) → Small w → (f name w).1 ≢ err diverged) where
      after_returns :
          (names : List Bytes) (r : W × Result (Unit {0}))
          → ((v : W) → Small v → (for_each f names v).1 ≢ err diverged)
          → Small r.0
          → r.1 ≢ err diverged
          → (continue (λ _. for_each f names) r).1 ≢ err diverged
      after_returns names (v, ok _) rest small here = rest v small
      after_returns names (v, err e) rest small here = here

      for_each_returns :
          (names : List Bytes) (w : W) → Small w → (for_each f names w).1 ≢ err diverged
      unfolding for_each
      for_each_returns [] w small = λ e. cc
      for_each_returns (name ∷ names) w small =
          after_returns names (f name w) (for_each_returns names)
            (kept w (f name w).0 small (shrinks name w)) (returns name w small)

  abbrev deletes : ℕ → ZkPath → Bytes → Done W
  deletes fuel path name = delete_recursive zk fuel (name ∷ path)

  abbrev then_delete : ZkPath → W × Result (Unit {0}) → W × Result (Unit {0})
  then_delete path r = continue (λ _. zk.delete path) r

  abbrev with_children : ℕ → ZkPath → W × Result (List Bytes) → W × Result (Unit {0})
  with_children fuel path r =
      continue (λ names w. then_delete path (for_each (deletes fuel path) names w)) r

  after_delete_cases :
      (below : Done W) (r : W × Result (Unit {0}))
      → (r.1 ≡ err not_empty) ⊎ (after_delete zk below r ≡ r)
  after_delete_cases below (w, ok _) = inr refl
  after_delete_cases below (w, err not_empty) = inl refl
  after_delete_cases below (w, err e) = inr refl

  with_children-Shrinks :
      (fuel : ℕ) (path : ZkPath) (w : W) (r : W × Result (List Bytes))
      → ((name : Bytes) (v : W) → Shrinks v (deletes fuel path name v).0)
      → Shrinks w r.0
      → Shrinks w (with_children fuel path r).0
  with_children-Shrinks fuel path w (v, err e) rest h q missing = h q missing
  with_children-Shrinks fuel path w (v, ok names) rest h q missing =
      last (for_each (deletes fuel path) names v)
        (for_each-Shrinks (deletes fuel path) rest names v q (h q missing))
    where
      last : (r : W × Result (Unit {0})) → node r.0 q ≡ none → node (then_delete path r).0 q ≡ none
      last (u, ok _) gone = delete-Shrinks path u q gone
      last (u, err e) gone = gone

  delete_recursive-Shrinks :
      (fuel : ℕ) (path : ZkPath) (w : W) → Shrinks w (delete_recursive zk fuel path w).0
  unfolding delete_recursive
  delete_recursive-Shrinks zero path w q missing = missing
  delete_recursive-Shrinks (suc fuel) path w q missing =
      let r = zk.delete path w in
      let more = λ (v : W). with_children fuel path (zk.children path v) in
      elim (after_delete_cases more r) [
        | inr same ↦ ap (λ x. node x.0 q) same ∙ delete-Shrinks path w q missing
        | inl full ↦
            ap (λ e. node (after_delete zk more (r.0, e)).0 q) full
            ∙ with_children-Shrinks fuel path w (zk.children path r.0)
                (λ name v. delete_recursive-Shrinks fuel (name ∷ path) v)
                (λ p none_there. tree.children_node path r.0 p ∙ delete-Shrinks path w p none_there)
                q missing
      ]

  -- Fewer than `fuel` names stand below the path in any path of the tree.
  abbrev pub Low : ℕ → ZkPath → W → Type 0
  Low fuel path w = (names : List Bytes) → fuel ≤ length names → node w (names ++ path) ≡ none

  Low-Shrinks :
      (fuel : ℕ) (path : ZkPath) (w v : W) → Low fuel path w → Shrinks w v → Low fuel path v
  Low-Shrinks fuel path w v low shrinks names h = shrinks (names ++ path) (low names h)

  Low-child :
      (fuel : ℕ) (path : ZkPath) (name : Bytes) (w : W)
      → Low (suc fuel) path w
      → Low fuel (name ∷ path) w
  Low-child fuel path name w low names h =
      ap (λ p. node w p) (sym (append_assoc names (name ∷ []) path))
      ∙ low (names ++ (name ∷ [])) (omega (arith, length-append names (name ∷ [])))

  with_children_returns :
      (fuel : ℕ) (path : ZkPath) (r : W × Result (List Bytes))
      → ((name : Bytes) (v : W)
          → Low fuel (name ∷ path) v
          → (deletes fuel path name v).1 ≢ err diverged)
      → Low (suc fuel) path r.0
      → r.1 ≢ err diverged
      → (with_children fuel path r).1 ≢ err diverged
  with_children_returns fuel path (v, err e) rest low here = λ h. here (ground arith)
  with_children_returns fuel path (v, ok names) rest low here =
      last (for_each (deletes fuel path) names v) (
        for_each_returns (deletes fuel path)
          (λ name u. delete_recursive-Shrinks fuel (name ∷ path) u) (Low (suc fuel) path)
          (Low-Shrinks (suc fuel) path)
          (λ name u low_u. rest name u (Low-child fuel path name u low_u)) names v low)
    where
      last :
          (r : W × Result (Unit {0})) → r.1 ≢ err diverged → (then_delete path r).1 ≢ err diverged
      last (u, ok _) ended = tree.delete_returns path u
      last (u, err e) ended = ended

  -- DeleteRecursive returns: the fuel is enough when no path of the tree has as many names below
  -- the one that is deleted.
  pub delete_recursive_returns :
      (fuel : ℕ) (path : ZkPath) (w : W)
      → Low (suc fuel) path w
      → (delete_recursive zk (suc fuel) path w).1 ≢ err diverged
  unfolding delete_recursive
  delete_recursive_returns zero path w low =
      let r = zk.delete path w in
      let more = λ (v : W). with_children zero path (zk.children path v) in
      elim (after_delete_cases more r) [
        | inr same ↦ λ e. tree.delete_returns path w (sym (ap (λ x. x.1) same) ∙ e)
        | inl full ↦
            let (name, content, here) = tree.delete_not_empty path w full in
            absurd (ground (arith, low (name ∷ []) (omega arith)))
      ]
  delete_recursive_returns (suc fuel) path w low =
      let r = zk.delete path w in
      let more = λ (v : W). with_children (suc fuel) path (zk.children path v) in
      elim (after_delete_cases more r) [
        | inr same ↦ λ e. tree.delete_returns path w (sym (ap (λ x. x.1) same) ∙ e)
        | inl full ↦ λ e.
            with_children_returns (suc fuel) path (zk.children path r.0)
              (λ name v lower. delete_recursive_returns fuel (name ∷ path) v lower)
              (Low-Shrinks (suc (suc fuel)) path w (zk.children path r.0).0 low (λ p none_there.
                tree.children_node path r.0 p ∙ delete-Shrinks path w p none_there))
              (tree.children_returns path r.0)
              (sym (ap (λ x. (after_delete zk more (r.0, x)).1) full) ∙ e)
      ]
