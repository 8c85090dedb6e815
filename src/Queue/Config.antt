-- ===== src/Queue/Config.antt =====
-- engine/queue/struct.go: the records of queues and groups, and their order in answers. What
-- encoding/json makes of them, and reads back, is a record of operations.
use wqs.Common.{suc, ◌/◌, Bool, true, false, Option, List, [], ◌∷◌, Bytes, ltb, ◌==◌, if◌then◌else◌}
use wqs.Common.Int.{ℤ, pos, negsuc, sub_ℕ}
use wqs.Common.Dict.{Dict}

pub record GroupConfig : Type 0 where
  pub group : Bytes
  pub queue : Bytes
  pub write : Bool
  pub read : Bool
  pub url : Bytes
  pub ips : List Bytes

pub record QueueConfig : Type 0 where
  pub queue : Bytes
  pub ctime : ℤ
  pub length : ℤ
  pub groups : Dict Bytes GroupConfig
  pub idcs : List Bytes

-- A QueueConfig as it was read: a map and a slice may be nil.
pub record StoredConfig : Type 0 where
  pub queue : Bytes
  pub ctime : ℤ
  pub length : ℤ
  pub groups : Option (Dict Bytes GroupConfig)
  pub idcs : Option (List Bytes)

pub record QueueInfo : Type 0 where
  pub queue : Bytes
  pub ctime : ℤ
  pub length : ℤ
  pub groups : List GroupConfig

pub record GroupInfo : Type 0 where
  pub group : Bytes
  pub queues : List GroupConfig

pub record ProxyInfo : Type 0 where
  pub host : Bytes
  pub config : Bytes

-- `Unmarshal` fills what it can before an error: the flag of `parse_queue` is the error.
pub record Encoding : Type 0 where
  pub queue_string : QueueConfig → Bytes
  pub parse_queue : Bytes → StoredConfig × Bool
  pub group_string : GroupConfig → Bytes
  pub load_group : Bytes → Option GroupConfig
  pub load_proxy : Bytes → Option ProxyInfo

-- Go's `<` on strings.
unfoldable pub bytes_lt : Bytes → Bytes → Bool
bytes_lt [] [] = false
bytes_lt [] (_ ∷ _) = true
bytes_lt (_ ∷ _) [] = false
bytes_lt (a ∷ s) (b ∷ t) = if a == b then bytes_lt s t else ltb a b

-- `sort.Sort` of a slice whose `Less` compares a name.
module _ {A : Type 0} (name : A → Bytes) where
  unfoldable pub insert_by : A → List A → List A
  insert_by x [] = x ∷ []
  insert_by x (y ∷ ys) =
      let rest = insert_by x ys in if bytes_lt (name y) (name x) then y ∷ rest else x ∷ y ∷ ys

  unfoldable pub sort_by : List A → List A
  sort_by [] = []
  sort_by (x ∷ xs) = insert_by x (sort_by xs)

-- `stat.Ctime / 1e3`
abbrev pub seconds_of : ℤ → ℤ
seconds_of (pos n) = pos (n / 1000)
seconds_of (negsuc n) = sub_ℕ 0 (suc n / 1000)
