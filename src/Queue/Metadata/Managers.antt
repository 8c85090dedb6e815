-- ===== src/Queue/Metadata/Managers.antt =====
-- engine/queue/metadata.go: the managers of the IDCs, while they are added and refreshed.
use wqs.Common.{
  ◌≡◌, refl, sym, ap, ◌∙◌, inl, inr, Bool-cases, false, Option, none, some, [], ◌∷◌, Bytes, All,
  arith,
}
use wqs.Common.Eq.{bytes_key}
use wqs.Common.Dict.{lookup, insert, lookup-insert}
use wqs.Go.Strings.{split}
use wqs.Engine.{Result, ok, err}
use wqs.Zookeeper.{ZkPath}
use wqs.Kafka.Manager
use wqs.Kafka.Manager.{Connections, new_manager, Brokers, get_broker_addrs}
use wqs.Config.{Section}
use wqs.Queue.Metadata.{Clients, refresh_managers}
use wqs.Queue.Metadata.Setup.{Managers, root_path, is_some, idc_token, remote_parts}

-- The manager of an IDC reads its Kafka below that root.
abbrev pub Rooted : Managers → Bytes → ZkPath → Type 0
Rooted managers idc root =
    (m : Manager.Manager) × (lookup managers idc ≡ some m) × (m.kafka_root ≡ root)

-- An entry of the remote IDCs has its manager, unless it has no addresses.
unfoldable pub IsReached : Managers → Bytes → Bytes → Type 0
IsReached managers name [] = Unit {0}
IsReached managers name (b ∷ value) =
    (idc : Bytes) × (idc_token (split b'.' name) ≡ some idc)
    × Rooted managers idc (root_path (remote_parts (b ∷ value)).1)

unfoldable pub Keeps : Managers → Managers → Type 0
Keeps ms ms' = (idc : Bytes) (root : ZkPath) → Rooted ms idc root → Rooted ms' idc root

pub insert-Keeps :
    (ms : Managers) (idc : Bytes) (m : Manager.Manager)
    → lookup ms idc ≡ none
    → Keeps ms (insert ms idc m)
unfolding Keeps
insert-Keeps ms idc m new j root (k, found, r) =
    (k, ground (arith, lookup-insert ms idc j m, bytes_key.beq_iff idc j), r)

pub IsReached-kept :
    (ms ms' : Managers) (name value : Bytes)
    → Keeps ms ms'
    → IsReached ms name value
    → IsReached ms' name value
unfolding IsReached Keeps
IsReached-kept ms ms' name [] k h = tt
IsReached-kept ms ms' name (b ∷ value) k (idc, at, r) = (idc, at, k idc _ r)

pub All-kept :
    (ms ms' : Managers) (remotes : Section)
    → Keeps ms ms'
    → All (λ e. IsReached ms e.0 e.1) remotes
    → All (λ e. IsReached ms' e.0 e.1) remotes
All-kept ms ms' [] k all = tt
All-kept ms ms' ((name, value) ∷ remotes) k all =
    (IsReached-kept ms ms' name value k all.0, All-kept ms ms' remotes k all.1)

module _ {W : Type 0} (c : Clients W) where
  abbrev refreshed_manager : Bytes → Manager.Manager → W → Manager.Manager × W
  refreshed_manager idc m w =
      (Manager.refresh_metadata (c.kafka_zk idc) c.kafka_encoding (c.kafka idc) (m, w)).0

  pub refresh-root :
      (idc : Bytes) (m : Manager.Manager) (w : W)
      → (refreshed_manager idc m w).0.kafka_root ≡ m.kafka_root
  unfolding wqs.Kafka.Manager.refresh_metadata
  refresh-root idc m w =
      by_answer (get_broker_addrs (c.kafka_zk idc) c.kafka_encoding m.kafka_root w)
    where
      by_answer :
          (r : W × Result Brokers)
          → (Manager.with_brokers
              (c.kafka_zk idc)
              c.kafka_encoding
              (c.kafka idc)
              m
              r).0.0.kafka_root
            ≡ m.kafka_root
      by_answer (v, ok brokers) = refl
      by_answer (v, err e) = refl

  pub refresh_managers-Keeps : (ms : Managers) (w : W) → Keeps ms (refresh_managers c ms w).0
  unfolding refresh_managers Keeps lookup
  refresh_managers-Keeps [] w idc root (k, found, r) = absurd cc
  refresh_managers-Keeps ((i, m) ∷ ms) w idc root (k, found, r) =
      let next = refreshed_manager i m w in
      let tail = refresh_managers-Keeps ms next.1 idc root in
      elim (Bool-cases (bytes_key.beq i idc)) [
        | inl same ↦
            let k_is_m : k ≡ m = ground (arith, found, same) in
            (next.0, rw same refl, refresh-root i m w ∙ ap (λ x. x.kafka_root) (sym k_is_m) ∙ r)
        | inr apart ↦
            let (k', found', r') = tail (k, ground (arith, found, apart), r) in
            (k', rw (apart, found') refl, r')
      ]

pub is_some-none : {A : Type 0} (o : Option A) → is_some o ≡ false → o ≡ none
is_some-none none h = refl
is_some-none (some a) h = absurd cc
