-- ===== src/Kafka/Manager/Creation.antt =====
-- engine/kafka/manager.go: what CreateTopic leaves in ZooKeeper.
use mathlib.Core.Path.{subst}
use wqs.Common.Int.{pos, negsuc, pos_part}
use wqs.Kafka.Assign.Replicas.{Distinct}
use wqs.Kafka.Assign.Rounds.{GoodAt, key_of}
use wqs.Kafka.Assign.Partitions.{assign-IsReplicaList}
use wqs.Common.{
  ◌+◌, ◌<◌, ◌≤◌, ◌^◌, ℕ, ◌≡◌, ◌≢◌, refl, sym, ap, ◌∙◌, Option, none, some, Bytes, if◌then◌else◌,
  length, arith,
}
use wqs.Engine.{already_exists, node_exists, ok, err, throw_if, continue}
use wqs.Zookeeper.{ZkPath, Client}
use wqs.Zookeeper.Create.{create_failed}
use wqs.Zookeeper.Tree.{IsTree, path_eq, path_eq_iff, created_on, parent_of, if_ok, is_some}
use wqs.Kafka.Assign.{Assignment}
use wqs.Kafka.Manager.{Manager, Encoding, broker_topics, topic_configs, kafka_version}
use wqs.Kafka.Manager.Topics.{
  create_assignment, create_topic, topic_path, topic_config_path, topic_content,
}

module _ {W : Type 0} (zk : Client W) (enc : Encoding) (node : W → ZkPath → Option Bytes)
    (tree : IsTree zk node) where
  -- Creating a node: the result, and the nodes afterwards.
  create_made :
      (path : ZkPath) (content above : Bytes) (w : W) (q : ZkPath)
      → node w path ≡ none
      → parent_of (node w) path ≡ some above
      → ((zk.create path content 0 w).1 ≡ ok tt)
        × (node (zk.create path content 0 w).0 q
            ≡ (if path_eq path q then some content else node w q))
  create_made path content above w q missing parent =
      let done : (zk.create path content 0 w).1 ≡ ok tt =
        tree.create_result path content w
        ∙ ap (λ o. created_on o (parent_of (node w) path)) missing
        ∙ ap (created_on none) parent in
      (
        done,
        tree.create_node path content w q
            ∙ ap (λ r. if_ok r (if path_eq path q then some content else node w q) (node w q)) done,
      )

  module _ (m : Manager) (topic : Bytes) (a : Assignment) (w : W) where
    abbrev looked : W
    looked = (zk.exists (topic_path m topic) w).0

    abbrev configured : W
    configured = (zk.create (topic_config_path m topic) (enc.topic_info kafka_version) 0 looked).0

    -- The look-up answers by the node.
    exists_is :
        (o : Option Bytes)
        → node w (topic_path m topic) ≡ o
        → (zk.exists (topic_path m topic) w).1 ≡ ok (is_some o)
    exists_is o h = tree.exists_result (topic_path m topic) w ∙ ap (λ x. ok (is_some x)) h

    -- A topic that is there is refused, and no node changes.
    pub create_assignment_again :
        (d : Bytes) (q : ZkPath)
        → node w (topic_path m topic) ≡ some d
        → ((create_assignment zk enc m topic a w).1 ≡ err already_exists)
          × (node (create_assignment zk enc m topic a w).0 q ≡ node w q)
    unfolding create_assignment
    create_assignment_again d q here =
        rw (exists_is (some d) here, continue) (refl, tree.exists_node (topic_path m topic) w q)

    -- If a configuration is there and the topic is not, every attempt fails with ErrNodeExists and
    -- changes no node.
    pub create_assignment_stuck :
        (d : Bytes) (q : ZkPath)
        → node w (topic_path m topic) ≡ none
        → node w (topic_config_path m topic) ≡ some d
        → ((create_assignment zk enc m topic a w).1 ≡ err node_exists)
          × (node (create_assignment zk enc m topic a w).0 q ≡ node w q)
    unfolding create_assignment
    create_assignment_stuck d q missing left =
        let failed : (zk.create (topic_config_path m topic) (enc.topic_info kafka_version) 0
              looked).1
            ≡ err node_exists =
          tree.create_result (topic_config_path m topic) (enc.topic_info kafka_version) looked
          ∙ ap (λ o. created_on o (parent_of (node looked) (topic_config_path m topic)))
              (tree.exists_node (topic_path m topic) w (topic_config_path m topic) ∙ left) in
        rw (exists_is none missing, failed, continue, throw_if)
          (
            refl,
            create_failed zk node tree (topic_config_path m topic) (enc.topic_info kafka_version)
                  looked node_exists q failed
                ∙ tree.exists_node (topic_path m topic) w q,
          )

    path_self : (p : ZkPath) (x y : Option Bytes) → (if path_eq p p then x else y) ≡ x
    path_self p x y = ground (arith, path_eq_iff p p)

    path_other : (p q : ZkPath) (x y : Option Bytes) → p ≢ q → (if path_eq p q then x else y) ≡ y
    path_other p q x y apart = ground (arith, path_eq_iff p q)

    config_ne_topic : topic_config_path m topic ≢ topic_path m topic
    config_ne_topic e = ground arith

    config_ne_parent : topic_config_path m topic ≢ broker_topics m.kafka_root
    config_ne_parent e = omega (arith, ap (λ (p : ZkPath). length p) e)

    -- Below parents that exist, a topic without a node and without a configuration gets both: the
    -- configuration, and the assignment of its partitions.
    pub create_assignment_creates :
        (above above' : Bytes)
        → node w (topic_path m topic) ≡ none
        → node w (topic_config_path m topic) ≡ none
        → node w (broker_topics m.kafka_root) ≡ some above
        → node w (topic_configs m.kafka_root) ≡ some above'
        → ((create_assignment zk enc m topic a w).1 ≡ ok tt)
          × (node (create_assignment zk enc m topic a w).0 (topic_path m topic)
              ≡ some (topic_content zk enc a))
          × (node (create_assignment zk enc m topic a w).0 (topic_config_path m topic)
              ≡ some (enc.topic_info kafka_version))
    unfolding create_assignment
    create_assignment_creates above above' missing missing' parent parent' =
        let cfg = topic_config_path m topic in
        let top = topic_path m topic in
        let info = enc.topic_info kafka_version in
        let seen = tree.exists_node top w in
        let first = λ (q : ZkPath).
          create_made cfg info above' looked q (seen cfg ∙ missing')
            (seen (topic_configs m.kafka_root) ∙ parent') in
        let still : node configured top ≡ none =
          (first top).1
          ∙ path_other cfg top (some info) (node looked top) config_ne_topic
          ∙ seen top
          ∙ missing in
        let above_still : node configured (broker_topics m.kafka_root) ≡ some above =
          (first (broker_topics m.kafka_root)).1
          ∙ path_other cfg (broker_topics m.kafka_root) (some info)
              (node looked (broker_topics m.kafka_root)) config_ne_parent
          ∙ seen (broker_topics m.kafka_root)
          ∙ parent in
        let second = λ (q : ZkPath).
          create_made top (topic_content zk enc a) above configured q still above_still in
        rw (exists_is none missing, (first top).0, (second top).0, continue, throw_if)
          (
            refl,
            (second top).1 ∙ path_self top (some (topic_content zk enc a)) (node configured top),
            (second cfg).1
                ∙ path_other top cfg (some (topic_content zk enc a)) (node configured cfg)
                    (λ e. config_ne_topic (sym e))
                ∙ (first cfg).1
                ∙ path_self cfg (some info) (node looked cfg),
          )

  -- CreateTopic, with distinct brokers, at least one replica and no more than there are brokers,
  -- and numbers in range, of a topic without a node and without a configuration, below parents that
  -- exist, succeeds: the topic has its configuration, and its node holds an assignment that gives
  -- every new partition as many distinct brokers as asked for.
  pub create_topic-creates :
      (m : Manager) (topic : Bytes) (random_start random_shift partitions replications p : ℕ)
      (w : W) (above above' : Bytes)
      → Distinct m.brokers_list
      → 1 ≤ replications
      → replications ≤ length m.brokers_list
      → length m.brokers_list < 2 ^ 30
      → random_start < 2 ^ 29
      → random_shift < 2 ^ 29
      → partitions < 2 ^ 29
      → p < partitions
      → node w (topic_path m topic) ≡ none
      → node w (topic_config_path m topic) ≡ none
      → node w (broker_topics m.kafka_root) ≡ some above
      → node w (topic_configs m.kafka_root) ≡ some above'
      → (a : Assignment) × GoodAt m.brokers_list replications (key_of p) a
        × ((create_topic zk enc
              (pos random_start)
              (pos random_shift)
              m
              topic
              (pos replications)
              (pos partitions)
              w).1
            ≡ ok tt)
        × (node
              (create_topic zk enc
                (pos random_start)
                (pos random_shift)
                m
                topic
                (pos replications)
                (pos partitions)
                w).0
              (topic_path m topic)
            ≡ some (topic_content zk enc a))
        × (node
              (create_topic zk enc
                (pos random_start)
                (pos random_shift)
                m
                topic
                (pos replications)
                (pos partitions)
                w).0
              (topic_config_path m topic)
            ≡ some (enc.topic_info kafka_version))
  unfolding create_topic
  create_topic-creates m topic rstart rshift partitions replications p w above above' distinct
        some_replica enough small hstart hshift hpartitions hp missing missing' parent parent' =
      let (a, assigns, good) =
        assign-IsReplicaList rstart rshift partitions replications m.brokers_list (negsuc 0)
          (negsuc 0) p distinct some_replica enough small hstart hshift (omega arith) (omega arith)
          hp in
      let same : pos_part (negsuc 0) + p ≡ p = omega arith in
      let made =
        create_assignment_creates m topic a w above above' missing missing' parent parent' in
      (
        a,
        subst (λ n. GoodAt m.brokers_list replications (key_of n) a) same good,
        rw assigns made.0,
        rw assigns made.1,
        rw assigns made.2,
      )
