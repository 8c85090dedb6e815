-- ===== src/Queue/Metadata/Guards.antt =====
-- engine/queue/metadata.go: what the operations under the lock answer, and what they do to the tree
-- of nodes.
use wqs.Common.{
  ℕ, ◌≡◌, refl, sym, ap, ◌∙◌, true, false, not, Option, none, some, List, [], Bytes, if◌then◌else◌,
}
use wqs.Common.Int.{ℤ}
use wqs.Common.Eq.{bytes_key}
use wqs.Common.Dict.{Dict}
use wqs.Engine.{
  Error, already_exists, not_found, not_valid, Result, ok, err, Done, continue, throw_if, ◌>>◌,
  stop, go_on,
}
use wqs.Zookeeper.{ZkPath, create_recursive}
use wqs.Zookeeper.Tree.{IsTree, path_eq, if_ok, changed_on}
use wqs.Zookeeper.Create.{create_recursive_missing}
use wqs.Queue.Config.{GroupConfig, QueueConfig}
use wqs.Queue.Metadata.{
  Metadata, Clients, State, locked, after_lock, unlocked, refresh_metadata, refresh_managers,
  read_configs, with_configs, build_config_path,
}
use wqs.Queue.Metadata.Views.{exist_group, exist_queue, can_delete_queue}
use wqs.Queue.Metadata.Groups.{
  add_group, add_group_body, guard_group, create_group, remove_group, set_group, delete_group,
  update_group_config, update_group_body,
}
use wqs.Queue.Metadata.Queues.{
  Random, add_queue, build_queue, build_known, remove_queue, create_queue, del_queue, delete_queue,
  deletable, all_known, idcs_of,
}
use wqs.Queue.Metadata.Reads.{IsApart, refresh_metadata-node}

with_configs_failed :
    {W : Type 0} (c : Clients W) (m : Metadata) (r : W × Result (Dict Bytes QueueConfig))
    (e : Error)
    → (with_configs c m r).1 ≡ err e
    → (with_configs c m r).0.0.queue_configs ≡ m.queue_configs
with_configs_failed c m (w, ok configs) e h = absurd (cc)
with_configs_failed c m (w, err x) e h = refl

-- A RefreshMetadata that fails keeps the configurations that were known.
pub refresh_metadata_failed :
    {W : Type 0} (c : Clients W) (m : Metadata) (w : W) (e : Error)
    → (refresh_metadata c (m, w)).1 ≡ err e
    → (refresh_metadata c (m, w)).0.0.queue_configs ≡ m.queue_configs
unfolding refresh_metadata
refresh_metadata_failed c m w e h =
    let r = refresh_managers c m.managers w in
    let m' = record m { managers = r.0 } in with_configs_failed c m' (read_configs c m' r.1) e h

module _ {W : Type 0} (c : Clients W) (node : W → ZkPath → Option Bytes) (tree : IsTree c.zk node)
    (apart : IsApart c node) (m m' : Metadata) (w w' : W)
    (got : (c.zk.lock m.operation_path w).1 ≡ ok tt)
    (read : refresh_metadata c (m, (c.zk.lock m.operation_path w).0) ≡ ((m', w'), ok tt)) where
  -- With the lock, an operation gives what its body gives, and lets go of the lock.
  locked-body :
      (body : Done (State W)) (v : W) (n : Metadata) (r : Result (Unit {0}))
      → body (m, (c.zk.lock m.operation_path w).0) ≡ ((n, v), r)
      → locked c body (m, w) ≡ ((n, (c.zk.unlock m.operation_path v).0), r)
  unfolding locked
  locked-body body v n r e = rw (got, after_lock) (ap (λ x. unlocked c m.operation_path x) e)

  refreshed-node : (q : ZkPath) → node w' q ≡ node w q
  refreshed-node q =
      sym (ap (λ (x : State W × Result (Unit {0})). node x.0.1 q) read)
      ∙ refresh_metadata-node node c tree apart m (c.zk.lock m.operation_path w).0 q
      ∙ tree.lock_node m.operation_path w q

  after_refresh :
      (k : Done (State W)) (r : State W × Result (Unit {0}))
      → k (m', w') ≡ r
      → (refresh_metadata c >> k) (m, (c.zk.lock m.operation_path w).0) ≡ r
  after_refresh k r e = ap (continue (λ _. k)) read ∙ e

  -- A body that stops at the state that the refresh left.
  stopped :
      (k : Done (State W)) (e : Error) (q : ZkPath)
      → k (m', w') ≡ ((m', w'), err e)
      → ((locked c (refresh_metadata c >> k) (m, w)).1 ≡ err e)
        × (node (locked c (refresh_metadata c >> k) (m, w)).0.1 q ≡ node w q)
  stopped k e q ran =
      let whole =
        locked-body (refresh_metadata c >> k) w' m' (err e)
          (after_refresh k ((m', w'), err e) ran) in
      (
        ap (λ (x : State W × Result (Unit {0})). x.1) whole,
        ap (λ (x : State W × Result (Unit {0})). node x.0.1 q) whole
            ∙ tree.unlock_node m.operation_path w' q
            ∙ refreshed-node q,
      )

  -- AddGroup of a group that is known answers AlreadyExists and changes no node.
  pub add_group_again :
      (g : GroupConfig) (q : ZkPath)
      → exist_group m' g.queue g.group ≡ true
      → ((add_group c g (m, w)).1 ≡ err already_exists)
        × (node (add_group c g (m, w)).0.1 q ≡ node w q)
  unfolding add_group
  add_group_again g q known =
      stopped (guard_group c false already_exists g.queue g.group >> create_group c g)
        already_exists q
        (stop (guard_group c false already_exists g.queue g.group) (λ _. create_group c g) (m', w')
          (m', w') already_exists (ap (λ b. throw_if b already_exists (m', w')) known))

  -- DeleteGroup and UpdateGroupConfig of a group that is not known answer NotFound and change no
  -- node.
  pub unknown_group :
      (fuel : ℕ) (g : GroupConfig) (q : ZkPath)
      → exist_group m' g.queue g.group ≡ false
      → ((delete_group c fuel g.group g.queue (m, w)).1 ≡ err not_found)
        × (node (delete_group c fuel g.group g.queue (m, w)).0.1 q ≡ node w q)
        × ((update_group_config c g (m, w)).1 ≡ err not_found)
        × (node (update_group_config c g (m, w)).0.1 q ≡ node w q)
  unfolding delete_group update_group_config
  unknown_group fuel g q unknown =
      let refused : guard_group c true not_found g.queue g.group (m', w')
          ≡ ((m', w'), err not_found) =
        ap (λ b. throw_if (not b) not_found (m', w')) unknown in
      let deleted =
        stopped
          (guard_group c true not_found g.queue g.group >> remove_group c fuel g.group g.queue)
          not_found q
          (stop (guard_group c true not_found g.queue g.group)
            (λ _. remove_group c fuel g.group g.queue) (m', w') (m', w') not_found refused) in
      let updated =
        stopped (guard_group c true not_found g.queue g.group >> set_group c g) not_found q (
          stop (guard_group c true not_found g.queue g.group) (λ _. set_group c g) (m', w') (m', w')
            not_found refused) in
      (deleted.0, deleted.1, updated.0, updated.1)

  -- AddQueue of a queue that is not known, for IDCs that are not all known, answers NotFound and
  -- changes no node; no topic was created then.
  pub add_queue_unknown_idc :
      (random : Random) (now : ℤ) (queue : Bytes) (idcs : List Bytes) (q : ZkPath)
      → exist_queue m' queue ≡ false
      → all_known m'.managers (idcs_of m' idcs) ≡ false
      → ((add_queue c random now queue idcs (m, w)).1 ≡ err not_found)
        × (node (add_queue c random now queue idcs (m, w)).0.1 q ≡ node w q)
  unfolding add_queue
  add_queue_unknown_idc random now queue idcs q new unknown =
      stopped (create_queue c random now queue idcs) not_found q (
        go_on (throw_if (exist_queue m' queue) already_exists)
          (λ _. build_known c random now queue (idcs_of m' idcs)) (m', w') (m', w') tt
          ((m', w'), err not_found) (ap (λ b. throw_if b already_exists (m', w')) new)
          (stop (throw_if (not (all_known m'.managers (idcs_of m' idcs))) not_found)
            (λ _. build_queue c random now queue (idcs_of m' idcs)) (m', w') (m', w') not_found
            (ap (λ b. throw_if (not b) not_found (m', w')) unknown)))

  -- DelQueue of a queue that has a group answers NotValid and changes no node.
  pub del_queue_used :
      (fuel : ℕ) (queue : Bytes) (q : ZkPath)
      → can_delete_queue m' queue ≡ ok false
      → ((del_queue c fuel queue (m, w)).1 ≡ err not_valid)
        × (node (del_queue c fuel queue (m, w)).0.1 q ≡ node w q)
  unfolding del_queue
  del_queue_used fuel queue q used = stopped (delete_queue c fuel queue) not_valid q (
      stop (deletable c (can_delete_queue m' queue)) (λ _. remove_queue c fuel queue) (m', w')
        (m', w') not_valid (ap (λ r. deletable c r (m', w')) used))

  -- AddGroup of a group that is not known, whose node is missing below a root that exists,
  -- succeeds, whether the queue is known or not: the node holds the configuration, and any node
  -- that existed keeps its data.
  pub add_group-node :
      (g : GroupConfig) (top d : Bytes) (q : ZkPath)
      → exist_group m' g.queue g.group ≡ false
      → node w [] ≡ some top
      → node w (build_config_path m' g.group g.queue) ≡ none
      → node w q ≡ some d
      → ((add_group c g (m, w)).1 ≡ ok tt)
        × (node (add_group c g (m, w)).0.1 (build_config_path m' g.group g.queue)
            ≡ some (c.encoding.group_string g))
        × (node (add_group c g (m, w)).0.1 q ≡ some d)
  unfolding add_group
  add_group-node g top d q unknown root missing here =
      let path = build_config_path m' g.group g.queue in
      let content = c.encoding.group_string g in
      let made =
        create_recursive_missing c.zk node tree path content top w' q d (refreshed-node [] ∙ root)
          (refreshed-node path ∙ missing) (refreshed-node q ∙ here) in
      let v = (create_recursive c.zk path content 0 w').0 in
      let ran : add_group_body c g (m, (c.zk.lock m.operation_path w).0) ≡ ((m', v), ok tt) =
        after_refresh (guard_group c false already_exists g.queue g.group >> create_group c g)
          ((m', v), ok tt)
          (go_on (guard_group c false already_exists g.queue g.group) (λ _. create_group c g)
            (m', w') (m', w') tt ((m', v), ok tt)
            (ap (λ b. throw_if b already_exists (m', w')) unknown)
            (ap (λ (r : Result (Unit {0})). ((m', v), r)) made.0)) in
      let whole = locked-body (add_group_body c g) v m' (ok tt) ran in
      let after = λ (p : ZkPath).
        ap (λ (x : State W × Result (Unit {0})). node x.0.1 p) whole
        ∙ tree.unlock_node m.operation_path v p in
      (ap (λ (x : State W × Result (Unit {0})). x.1) whole, after path ∙ made.1, after q ∙ made.2)

  -- UpdateGroupConfig of a known group whose node exists succeeds: the node holds the new
  -- configuration, and every other node is as before.
  pub update_group_config-node :
      (g : GroupConfig) (d : Bytes) (q : ZkPath)
      → exist_group m' g.queue g.group ≡ true
      → node w (build_config_path m' g.group g.queue) ≡ some d
      → ((update_group_config c g (m, w)).1 ≡ ok tt)
        × (node (update_group_config c g (m, w)).0.1 q ≡ (
            if path_eq (build_config_path m' g.group g.queue) q
            then some (c.encoding.group_string g)
            else node w q))
  unfolding update_group_config
  update_group_config-node g d q known here =
      let path = build_config_path m' g.group g.queue in
      let content = c.encoding.group_string g in
      let v = (c.zk.set path content w').0 in
      let done : (c.zk.set path content w').1 ≡ ok tt =
        tree.set_result path content w' ∙ ap changed_on (refreshed-node path ∙ here) in
      let ran : update_group_body c g (m, (c.zk.lock m.operation_path w).0) ≡ ((m', v), ok tt) =
        after_refresh (guard_group c true not_found g.queue g.group >> set_group c g)
          ((m', v), ok tt)
          (go_on (guard_group c true not_found g.queue g.group) (λ _. set_group c g) (m', w')
            (m', w') tt ((m', v), ok tt) (ap (λ b. throw_if (not b) not_found (m', w')) known)
            (ap (λ (r : Result (Unit {0})). ((m', v), r)) done)) in
      let whole = locked-body (update_group_body c g) v m' (ok tt) ran in
      (
        ap (λ (x : State W × Result (Unit {0})). x.1) whole,
        ap (λ (x : State W × Result (Unit {0})). node x.0.1 q) whole
            ∙ tree.unlock_node m.operation_path v q
            ∙ tree.set_node path content w' q
            ∙ ap (λ r. if_ok r (if path_eq path q then some content else node w' q) (node w' q))
                done
            ∙ ap (λ x. if path_eq path q then some content else x) (refreshed-node q),
      )
