-- ===== src/Service/Handlers.antt =====
-- service/service.go: the handlers for an action, and those with a status.
use wqs.Common.{
  Bool, true, false, Option, none, some, List, [], ◌∷◌, ◌++◌, Bytes, codes, if◌then◌else◌,
}
use wqs.Common.Eq.{bytes_eq}
use wqs.Go.Strings.{split}
use wqs.Config.{parse_bool}
use wqs.Engine.{Result, ok, err}
use wqs.Queue.Config.{GroupConfig}
use wqs.Service.{Queue, Encoding}

-- The text for an action and its result.
unfoldable pub action_result : Bytes → Bool → Bytes
action_result action result =
    codes "{\"action\":\""
    ++ action
    ++ codes "\",\"result\":"
    ++ (if result then codes "true" else codes "false")
    ++ codes "}"

abbrev pub not_support : Bytes → Bytes
not_support action = codes "error, param action=" ++ action ++ codes " not support!"

abbrev pub done_text : {S : Type 0} → Bytes → S × Result (Unit {0}) → S × Bytes
done_text action (s, ok _) = (s, action_result action true)
done_text action (s, err e) = (s, action_result action false)

abbrev pub or_brackets : Option Bytes → Bytes
or_brackets none = codes "[]"
or_brackets (some text) = text

abbrev pub list_text : {S A : Type 0} → (A → Option Bytes) → S × Result A → S × Bytes
list_text marshal (s, ok a) = (s, or_brackets (marshal a))
list_text marshal (s, err e) = (s, codes "[]")

abbrev pub is_true : Option Bool → Bool
is_true none = false
is_true (some b) = b

abbrev pub bool_or : Bool → Option Bool → Bool
bool_or b none = b
bool_or b (some c) = c

abbrev pub text_or : Bytes → Bytes → Bytes
text_or d [] = d
text_or d (c ∷ text) = c ∷ text

abbrev pub list_or : List Bytes → Bytes → List Bytes
list_or d [] = d
list_or d (c ∷ ips) = split b',' (c ∷ ips)

abbrev pub default_url : Bytes → Bytes → Bytes
default_url group queue = group ++ codes "." ++ queue ++ codes ".intra.weibo.com"

-- The fields of a request on a group, as they were sent.
pub record GroupRequest : Type 0 where
  pub group : Bytes
  pub queue : Bytes
  pub write : Bytes
  pub read : Bytes
  pub url : Bytes
  pub ips : Bytes

abbrev pub config_added : GroupRequest → GroupConfig
config_added r = record {
  group = r.group;
  queue = r.queue;
  write = is_true (parse_bool r.write);
  read = is_true (parse_bool r.read);
  url = text_or (default_url r.group r.queue) r.url;
  ips = split b',' r.ips;
}

-- A field that is empty or no Boolean keeps what it was.
abbrev pub config_updated : GroupRequest → GroupConfig → GroupConfig
config_updated r g = record {
  group = r.group;
  queue = r.queue;
  write = bool_or g.write (parse_bool r.write);
  read = bool_or g.read (parse_bool r.read);
  url = text_or g.url r.url;
  ips = list_or g.ips r.ips;
}

module _ {S : Type 0} (q : Queue S) (enc : Encoding) where
  unfoldable pub queue_handler : Bytes → Bytes → Bytes → S → S × Bytes
  queue_handler action queue biz s =
      if bytes_eq action (codes "create")
      then done_text action (q.create queue [] s)
      else if bytes_eq action (codes "remove")
      then done_text action (q.delete queue s)
      else if bytes_eq action (codes "update")
      then done_text action (q.update queue s)
      else if bytes_eq action (codes "lookup")
      then list_text enc.marshal_queues (q.lookup queue biz s)
      else (s, not_support action)

  abbrev pub group_updated : GroupRequest → S × Result GroupConfig → S × Bytes
  group_updated r (s, ok g) = done_text (codes "update") (q.update_group (config_updated r g) s)
  group_updated r (s, err e) = (s, action_result (codes "update") false)

  unfoldable pub group_update : GroupRequest → S → S × Bytes
  group_update r s = group_updated r (q.get_single_group r.group r.queue s)

  unfoldable pub group_handler : Bytes → GroupRequest → S → S × Bytes
  group_handler action r s =
      if bytes_eq action (codes "add")
      then done_text action (q.add_group (config_added r) s)
      else if bytes_eq action (codes "remove")
      then done_text action (q.delete_group r.group r.queue s)
      else if bytes_eq action (codes "update")
      then group_update r s
      else if bytes_eq action (codes "lookup")
      then list_text enc.marshal_groups (q.lookup_group r.group s)
      else (s, not_support action)

  abbrev pub sent_text : S × Result Bytes → S × Bytes
  sent_text (s, ok id) = (s, action_result (codes "send") true)
  sent_text (s, err e) = (s, enc.error_text e)

  unfoldable pub msg_send : Bytes → Bytes → Bytes → S → S × Bytes
  msg_send queue group msg s = sent_text (q.send_message queue group msg 0 s)

  -- The message stands in the text as it is.
  abbrev pub message_text : Bytes → Bytes
  message_text value = codes "{\"action\":\"receive\",\"msg\":\"" ++ value ++ codes "\"}"

  abbrev pub acked_text : Bytes → S × Result (Unit {0}) → S × Bytes
  acked_text value (s, ok _) = (s, message_text value)
  acked_text value (s, err e) = (s, enc.error_text e)

  abbrev pub received_text : Bytes → Bytes → S × Result (Bytes × Bytes) → S × Bytes
  received_text queue group (s, ok (id, value)) = acked_text value (q.ack_message queue group id s)
  received_text queue group (s, err e) = (s, enc.error_text e)

  unfoldable pub msg_receive : Bytes → Bytes → S → S × Bytes
  msg_receive queue group s = received_text queue group (q.recv_message queue group s)

  -- `msgAck` does nothing.
  unfoldable pub msg_handler : Bytes → Bytes → Bytes → Bytes → S → S × Bytes
  msg_handler action queue group msg s =
      if bytes_eq action (codes "receive")
      then msg_receive queue group s
      else if bytes_eq action (codes "send")
      then msg_send queue group msg s
      else if bytes_eq action (codes "ack")
      then (s, action_result (codes "ack") true)
      else (s, not_support action)
