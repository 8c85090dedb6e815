-- ===== src/Queue/Metadata/Services.antt =====
-- engine/queue/metadata.go: the nodes of the proxies and of their metrics, and Accumulation.
use wqs.Common.{true, false, Option, none, some, List, [], ◌∷◌, Bytes}
use wqs.Common.Int.{ℤ}
use wqs.Common.Eq.{bytes_key}
use wqs.Common.Dict.{Dict, insert}
use wqs.Go.Strconv.{format_int}
use wqs.Engine.{Error, already_exists, Result, ok, err, Io, Done, ◌>>=◌, pure, or_throw}
use wqs.Zookeeper
use wqs.Zookeeper.{Node, is_no_node, is_exist_error, ZkPath}
use wqs.Kafka.Manager.Offsets.{accumulation}
use wqs.Queue.Config.{ProxyInfo}
use wqs.Queue.Metadata.{Metadata, Clients}

abbrev pub service_node : Metadata → Bytes → ZkPath
service_node m id = id ∷ m.service_path

abbrev pub metrics_node : Metadata → ZkPath
metrics_node m = format_int 10 m.id ∷ m.metrics_path

module _ {W : Type 0} (c : Clients W) (m : Metadata) where
  abbrev pub registered : W × Result (Unit {0}) → W × Result (Unit {0})
  registered (w, ok _) = (w, ok tt)
  registered (w, err e) = elim (is_exist_error e) [
    | true ↦ (w, err already_exists)
    | false ↦ (w, err e)
  ]

  -- `zk.FlagEphemeral` is 1.
  unfoldable pub register_service : ℤ → Bytes → Done W
  register_service id content w =
      registered (c.zk.create (service_node m (format_int 10 id)) content 1 w)

  unfoldable pub proxy_info : Bytes → Io W ProxyInfo
  proxy_info id = do
    node ← c.zk.get (service_node m id)
    or_throw Error.plain (c.encoding.load_proxy node.content)

  unfoldable pub get_proxy_config_by_id : ℤ → Io W Bytes
  get_proxy_config_by_id id = do info ← proxy_info (format_int 10 id); pure info.config

  -- The map is returned beside an error too.
  unfoldable pub hosts : List Bytes → Dict Bytes Bytes → W → W × (Dict Bytes Bytes × Option Error)
  hosts [] proxys w = (w, (proxys, none))
  hosts (id ∷ ids) proxys w = next (λ ps v. hosts ids ps v) (proxy_info id w)
    where
      next :
          (Dict Bytes Bytes → W → W × (Dict Bytes Bytes × Option Error))
          → W × Result ProxyInfo
          → W × (Dict Bytes Bytes × Option Error)
      next more (v, ok info) = more (insert proxys id info.host) v
      next more (v, err e) = (v, (proxys, some e))

  abbrev pub all_hosts : W × Result (List Bytes) → W × (Dict Bytes Bytes × Option Error)
  all_hosts (w, ok ids) = hosts ids [] w
  all_hosts (w, err e) = (w, ([], some e))

  unfoldable pub proxys : W → W × (Dict Bytes Bytes × Option Error)
  proxys w = all_hosts (c.zk.children m.service_path w)

  unfoldable pub save_metrics : Bytes → Done W
  save_metrics content = Zookeeper.create_or_update c.zk (metrics_node m) content 0

  abbrev pub metrics_or_nil : W × Result Node → W × Result Bytes
  metrics_or_nil (w, ok node) = (w, ok node.content)
  metrics_or_nil (w, err e) = elim (is_no_node e) [ true ↦ (w, ok []) | false ↦ (w, err e) ]

  unfoldable pub load_metrics : Io W Bytes
  load_metrics w = metrics_or_nil (c.zk.get (metrics_node m) w)

  unfoldable pub accumulation_of : Bytes → Bytes → Io W (ℤ × ℤ)
  accumulation_of queue group = accumulation (c.kafka m.local) queue group
