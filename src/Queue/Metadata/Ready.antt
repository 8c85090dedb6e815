-- ===== src/Queue/Metadata/Ready.antt =====
-- engine/queue/metadata.go: what a metadata has that NewMetadata returned.
mod Tests
use wqs.Common.{
  ℕ, ◌≡◌, refl, sym, ap, ◌∙◌, inl, inr, Bool, Bool-cases, true, false, Option, none, some, List, [],
  ◌∷◌, Bytes, codes, All, arith, if◌then◌else◌,
}
use mathlib.Core.Path.{subst}
use wqs.Common.Int.{ℤ, pos, ltb_ℤ, int32, ◌≤ℤ◌}
use wqs.Common.Eq.{bytes_key, Eq}
use wqs.Common.Dict.{Dict, lookup, insert, lookup-insert, lookup-insert_self}
use wqs.Go.Strings.{split}
use wqs.Engine.{
  Error, Result, ok, err, Io, ◌>>=◌, ◌>>◌, pure, throw_if, or_throw, continue, already_exists,
  panicked, not_valid, >>=-eq-ok,
}
use wqs.Zookeeper.{ZkPath}
use wqs.Kafka.Manager
use wqs.Kafka.Manager.{Connections, new_manager, Brokers, get_broker_addrs}
use wqs.Config.{
  Config, Section, get_section, get_string, get_dup_by_pattern, get_string_must, get_int64_must,
}
use wqs.Queue.Metadata.{
  Metadata, Clients, State, refresh_metadata, refresh_managers, read_configs, with_configs,
}
use wqs.Queue.Config.{QueueConfig}
use wqs.Zookeeper
use wqs.Queue.Metadata.Setup.{
  create_paths, load_metadata, with_manager, with_sizes, sizes_of, with_section, sized, default_idc,
  Managers, root_path, metadata_path, is_some, idc_token, is_remote, remote_parts, connect_manager,
  add_remote, add_remotes, new_metadata, when_refreshed,
}
use wqs.Engine.Returns.{
  Ensures, ensures_then, ensures_after, ensures_pure, ensures_result, ensures_some, ensures_not,
}
use wqs.Queue.Metadata.Managers.{
  Rooted, IsReached, Keeps, insert-Keeps, IsReached-kept, All-kept, refresh-root,
  refresh_managers-Keeps, is_some-none,
}

pub record IsReady (section : Section) (m : Metadata) : Type 0 where
  pub root : Bytes
  pub root_set : get_string section (codes "zookeeper.root") ≡ ok root
  pub local_manager : Rooted m.managers m.local (root_path root)
  pub remotes : All (λ e. IsReached m.managers e.0 e.1) (get_dup_by_pattern is_remote section)
  pub partitions : pos 1 ≤ℤ m.partitions
  pub replications : pos 1 ≤ℤ m.replications

module _ {W : Type 0} (c : Clients W) (connections : Connections W) where
  refreshed-same :
      (x : (Manager.Manager × W) × Result (Unit {0})) (w' : W) (m : Manager.Manager)
      → Manager.refreshed x ≡ (w', ok m)
      → m ≡ x.0.0
  refreshed-same ((k, v), ok _) w' m e = ground (arith, e)
  refreshed-same ((k, v), err x) w' m e = absurd cc

  connect_manager-root :
      (idc addrs root : Bytes)
      → Ensures (connect_manager c connections idc addrs root) (λ m. m.kafka_root ≡ root_path root)
  unfolding new_manager
  connect_manager-root idc addrs root =
      let zk = c.kafka_zk idc in
      ensures_after (connections.to_zookeeper (split b',' addrs)) _ λ _.
        ensures_after (get_broker_addrs zk c.kafka_encoding (root_path root)) _ λ brokers.
          ensures_after (connections.to_kafka brokers.0) _ λ _. λ w w' m e.
            let read : Manager.Manager = record {
              kafka_root = root_path root;
              broker_addrs = brokers.0;
              brokers_list = brokers.1;
            } in
            let same =
              refreshed-same (Manager.refresh_metadata zk c.kafka_encoding (c.kafka idc) (read, w))
                w' m e in
            ap (λ x. x.kafka_root) same ∙ refresh-root c idc read w

  add_remote-IsReached :
      (name : Bytes) (b : ℕ) (value : Bytes) (ms : Managers)
      → Ensures
          (add_remote c connections name (b ∷ value) ms)
          (λ ms'. Keeps ms ms' × IsReached ms' name (b ∷ value))
  unfolding add_remote IsReached
  add_remote-IsReached name b value ms =
      let parts = remote_parts (b ∷ value) in
      ensures_then (or_throw panicked (idc_token (split b'.' name))) _ (ensures_some panicked _)
        λ idc at.
          ensures_then (connect_manager c connections idc parts.0 parts.1) _
            (connect_manager-root idc _ _)
            λ m root.
              ensures_then (throw_if (is_some (lookup ms idc)) already_exists) _
                (ensures_not _ already_exists)
                λ _ new. ensures_pure _ _ (
                  insert-Keeps ms idc m (is_some-none _ new),
                  (idc, at, (m, lookup-insert_self ms idc m, root)),
                )

  add_remotes-IsReached :
      (remotes : Section) (ms : Managers)
      → Ensures
          (add_remotes c connections remotes ms)
          (λ ms'. Keeps ms ms' × All (λ e. IsReached ms' e.0 e.1) remotes)
  unfolding add_remotes Keeps IsReached
  add_remotes-IsReached [] ms = ensures_pure _ ms (λ idc root r. r, tt)
  add_remotes-IsReached ((name, []) ∷ remotes) ms = λ w w' ms' e.
      let (kept, all) = add_remotes-IsReached remotes ms w w' ms' e in (kept, (tt, all))
  add_remotes-IsReached ((name, b ∷ value) ∷ remotes) ms =
      ensures_then (add_remote c connections name (b ∷ value) ms) _
        (add_remote-IsReached name b value ms)
        λ ms1 (kept, here) w w' ms' e.
          let (kept', all) = add_remotes-IsReached remotes ms1 w w' ms' e in
          (
            λ idc root r. kept' idc root (kept idc root r),
            (IsReached-kept ms1 ms' name (b ∷ value) kept' here, all),
          )

  sized-Ensures : (n : ℤ) → Ensures (sized c connections n) (λ k. pos 1 ≤ℤ k)
  unfolding sized
  sized-Ensures n =
      ensures_then (throw_if (ltb_ℤ n (pos 1)) not_valid) _
        (ensures_not (ltb_ℤ n (pos 1)) not_valid) λ _ h. ensures_pure _ n (ground (arith, h))

  when_refreshed-same :
      (m : Metadata) (r : W × Result (Dict Bytes QueueConfig)) (w' : W) (m' : Metadata)
      → when_refreshed c connections (with_configs c m r) ≡ (w', ok m')
      → (configs : Dict Bytes QueueConfig) × (m' ≡ record m { queue_configs = configs })
  when_refreshed-same m (w, ok configs) w' m' e = (configs, ground (arith, e))
  when_refreshed-same m (w, err x) w' m' e = absurd cc

  refresh-IsReady :
      (section : Section) (m : Metadata)
      → IsReady section m
      → Ensures (λ w. when_refreshed c connections (refresh_metadata c (m, w))) (IsReady section)
  unfolding refresh_metadata Keeps
  refresh-IsReady section m v w w' m' e =
      let next = refresh_managers c m.managers w in
      let kept = refresh_managers-Keeps c m.managers w in
      let m1 : Metadata = record m { managers = next.0 } in
      let (configs, same) = when_refreshed-same m1 (read_configs c m1 next.1) w' m' e in
      subst (IsReady section) (sym same) (record {
        root = v.root;
        root_set = v.root_set;
        local_manager = kept m.local (root_path v.root) v.local_manager;
        remotes = All-kept _ _ _ kept v.remotes;
        partitions = v.partitions;
        replications = v.replications;
      })

  sizes_of-Ensures :
      (section : Section)
      → Ensures (sizes_of c connections section) (λ s. (pos 1 ≤ℤ s.0) × (pos 1 ≤ℤ s.1))
  unfolding sizes_of
  sizes_of-Ensures section =
      let replications = int32 (get_int64_must section (codes "topic.replications") (pos 0)) in
      let partitions = int32 (get_int64_must section (codes "topic.partitions") (pos 0)) in
      ensures_then (sized c connections replications)
        (λ r. sized c connections partitions >>= λ p. pure (r, p)) (sized-Ensures replications)
        (λ r many.
          ensures_then (sized c connections partitions) (λ p. pure (r, p))
            (sized-Ensures partitions)
            (λ p enough. ensures_pure (λ s. (pos 1 ≤ℤ s.0) × (pos 1 ≤ℤ s.1)) (r, p) (many, enough)))

  module _ (config : Config) (section : Section) (root : Bytes)
      (root_set : get_string section (codes "zookeeper.root") ≡ ok root) (sizes : ℤ × ℤ)
      (many : pos 1 ≤ℤ sizes.0) (enough : pos 1 ≤ℤ sizes.1) where
    with_manager-IsReady :
        (manager : Manager.Manager)
        → manager.kafka_root ≡ root_path root
        → Ensures (with_manager c connections config section sizes manager) (IsReady section)
    unfolding with_manager load_metadata Keeps lookup insert
    with_manager-IsReady manager rooted =
        let idc = get_string_must section (codes "idc") default_idc in
        let remotes = get_dup_by_pattern is_remote section in
        ensures_then (add_remotes c connections remotes ((idc, manager) ∷ []))
          (load_metadata c connections config idc sizes)
          (add_remotes-IsReached remotes ((idc, manager) ∷ []))
          (λ managers (kept, reached). refresh-IsReady section _ (record {
            root = root;
            root_set = root_set;
            local_manager =
                kept idc (root_path root) (manager, lookup-insert_self [] idc manager, rooted);
            remotes = reached;
            partitions = enough;
            replications = many;
          }))

    with_sizes-IsReady :
        (addrs : Bytes)
        → Ensures (with_sizes c connections config section addrs root sizes) (IsReady section)
    unfolding with_sizes
    with_sizes-IsReady addrs =
        let idc = get_string_must section (codes "idc") default_idc in
        ensures_then (connect_manager c connections idc addrs root)
          (with_manager c connections config section sizes) (connect_manager-root idc addrs root)
          with_manager-IsReady

  with_section-IsReady :
      (config : Config) (section : Section)
      → Ensures (with_section c connections config section) (IsReady section)
  unfolding with_section
  with_section-IsReady config section =
      ensures_after (λ w. (w, get_string section (codes "zookeeper.connect"))) _
        λ addrs.
          ensures_then (λ w. (w, get_string section (codes "zookeeper.root"))) _ (ensures_result _)
            λ root root_set.
              ensures_then (sizes_of c connections section)
                (with_sizes c connections config section addrs root) (sizes_of-Ensures section)
                (λ sizes big.
                  with_sizes-IsReady config section root root_set sizes big.0 big.1 addrs)

  -- When NewMetadata succeeds, the local IDC has its manager, with the root that is set for it;
  -- so has each remote IDC that has addresses, with the root behind its addresses; and the numbers
  -- of partitions and of replications are at least 1.
  pub new_metadata-IsReady :
      (config : Config) (section : Section)
      → get_section config.sections (codes "kafka") ≡ ok section
      → (w w' : W) (m : Metadata) → new_metadata c connections config w ≡ (w', ok m)
      → IsReady section m
  unfolding new_metadata
  new_metadata-IsReady config section found =
      ensures_then (λ w. (w, get_section config.sections (codes "kafka"))) _ (ensures_result _)
        (λ section' found' w w' m e.
          let same : section' ≡ section = ground (arith, found, found') in
          subst (λ s. IsReady s m) same
            (ensures_after (connections.to_zookeeper (split b',' config.meta_data_zk_addr)) _
              (λ _.
                ensures_after (create_paths c connections (root_path config.meta_data_zk_root)) _
                  (λ _. with_section-IsReady config section'))
              w w' m e))
