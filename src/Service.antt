-- ===== src/Service.antt =====
-- service/service.go and service/warp.go: the HTTP handlers and their authentication. A handler gets
-- the state of the queue and the parameters of a request, and gives the state and the answer. The
-- queue, encoding/json, encoding/base64 and the texts of errors are records of operations.
pub mod Handlers
pub mod Requests
pub mod Access
pub mod Loggers
pub mod Shown
pub mod Queries
mod Tests
use wqs.Common.{
  ℕ, Bool, true, false, ◌||◌, Option, none, some, ◌⊎◌, List, [], ◌∷◌, ◌++◌, Bytes, codes,
  if◌then◌else◌,
}
use wqs.Common.Int.{ℤ}
use wqs.Common.Eq.{bytes_eq}
use wqs.Common.Dict.{Dict}
use wqs.Engine.{Error, not_found, Result, ok, err, Io, Done}
use wqs.Queue.Config.{GroupConfig, QueueInfo, GroupInfo}

-- The operations of `queue.Queue` that the handlers call.
pub record Queue (S : Type 0) : Type 0 where
  pub create : Bytes → List Bytes → Done S
  pub update : Bytes → Done S
  pub delete : Bytes → Done S
  pub lookup : Bytes → Bytes → Io S (List QueueInfo)
  pub add_group : GroupConfig → Done S
  pub update_group : GroupConfig → Done S
  pub delete_group : Bytes → Bytes → Done S
  pub lookup_group : Bytes → Io S (List GroupInfo)
  pub get_single_group : Bytes → Bytes → Io S GroupConfig
  -- the queue, the group, the value and the flag; the id
  pub send_message : Bytes → Bytes → Bytes → ℕ → Io S Bytes
  -- the id and the value
  pub recv_message : Bytes → Bytes → Io S (Bytes × Bytes)
  pub ack_message : Bytes → Bytes → Bytes → Done S
  pub proxys : Io S (Dict Bytes Bytes)
  pub get_proxy_config_by_id : ℤ → Io S Bytes
  pub version : Bytes

pub record Encoding : Type 0 where
  pub error_text : Error → Bytes
  pub marshal_queues : List QueueInfo → Option Bytes
  pub marshal_groups : List GroupInfo → Option Bytes
  -- or the text of an error
  pub proxys_text : Dict Bytes Bytes → Bytes ⊎ Bytes
  -- `QueueAttr.Idcs` of a body, or the text of an error
  pub queue_attr : Bytes → List Bytes ⊎ Bytes
  -- `strconv.Atoi`, or the text of its error
  pub atoi : Bytes → ℤ ⊎ Bytes
  pub decode_base64 : Bytes → Option Bytes

-- `response`: a status and a message.
pub record ResponseMessage : Type 0 where
  pub code : ℕ
  pub message : Bytes

abbrev pub response : {S : Type 0} → S → ℕ → Bytes → S × ResponseMessage
response s code message = (s, record { code = code; message = message })

abbrev pub basic_auth_prefix : Bytes
basic_auth_prefix = codes "Basic "

-- What follows a prefix of a text.
unfoldable pub after_prefix : Bytes → Bytes → Option Bytes
after_prefix [] text = some text
after_prefix (c ∷ prefix) [] = none
after_prefix (c ∷ prefix) (d ∷ text) =
    let rest = after_prefix prefix text in if bytes_eq (c ∷ []) (d ∷ []) then rest else none

unfoldable pub has_token : List Bytes → Bytes → Bool
has_token [] token = false
has_token (user_and_pw ∷ rest) token = bytes_eq user_and_pw token || has_token rest token

abbrev pub payload_is_known : List Bytes → Option Bytes → Bool
payload_is_known user_and_pws none = false
payload_is_known user_and_pws (some token) = has_token user_and_pws token

abbrev pub credentials_known : Encoding → List Bytes → Option Bytes → Bool
credentials_known enc user_and_pws none = false
credentials_known enc user_and_pws (some payload) =
    payload_is_known user_and_pws (enc.decode_base64 payload)

-- `BasicAuthWarp` around a handler, by the header Authorization; `unauthorized` is its answer 401.
unfoldable pub basic_auth_warp :
    {S A : Type 0} → Encoding → List Bytes → A → (S → S × A) → Bytes → S → S × A
basic_auth_warp enc user_and_pws unauthorized handle auth s =
    if credentials_known enc user_and_pws (after_prefix basic_auth_prefix auth)
    then handle s
    else (s, unauthorized)
