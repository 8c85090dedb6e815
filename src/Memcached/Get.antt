-- ===== src/Memcached/Get.antt =====
-- service/mc/command_get.go.
use wqs.Common.{
  ℕ, ◌%◌, true, false, ◌⊎◌, inl, inr, List, [], ◌∷◌, ◌++◌, Bytes, codes, if◌then◌else◌, length,
}
use wqs.Common.Eq.{bytes_eq}
use wqs.Go.Strconv.{format_uint}
use wqs.Memcached.{
  EngineError, timeout, failed, Result, ok, err, Delivery, Operations, Response, crlf, resp_end,
  resp_error, engine_error, cmd_get, cmd_eget, split_key,
}

pub record Pair : Type 0 where
  pub key : Bytes
  pub queue : Bytes
  pub group : Bytes
  pub id : Bytes
  pub value : Bytes
  pub flag : ℕ

-- The value of `eget`: the length of the id in one byte, the id, the message.
abbrev pub eget_value : Bytes → Bytes → Bytes
eget_value id value = (length id % 256) ∷ (id ++ value)

abbrev pub pair_of : Bytes → Bytes → Delivery → Pair
pair_of cmd key d =
    let (queue, group) = split_key key in
    record {
      key = key;
      queue = queue;
      group = group;
      id = d.id;
      flag = d.flag;
      value = if bytes_eq cmd cmd_eget then eget_value d.id d.value else d.value;
    }

abbrev pub get_failure : EngineError → Bytes
get_failure timeout = resp_end
get_failure (failed text) = engine_error (failed text)

abbrev pub value_text : Pair → Bytes
value_text p =
    codes "VALUE "
    ++ p.key
    ++ codes " "
    ++ format_uint 10 p.flag
    ++ codes " "
    ++ format_uint 10 (length p.value)
    ++ crlf
    ++ p.value
    ++ crlf

module _ {S : Type 0} (q : Operations S) where
  abbrev pub and_pair : Pair → S × (Bytes ⊎ List Pair) → S × (Bytes ⊎ List Pair)
  and_pair p (s, inl text) = (s, inl text)
  and_pair p (s, inr ps) = (s, inr (p ∷ ps))

  abbrev pub received :
      Bytes → Bytes → (S → S × (Bytes ⊎ List Pair)) → S × Result Delivery → S × (Bytes ⊎ List Pair)
  received cmd key more (s, err e) = (s, inl (get_failure e))
  received cmd key more (s, ok d) = and_pair (pair_of cmd key d) (more s)

  -- One message for each key; the first failure ends the command with its text.
  unfoldable pub receive_all : Bytes → List Bytes → S → S × (Bytes ⊎ List Pair)
  receive_all cmd [] s = (s, inr [])
  receive_all cmd (key ∷ keys) s =
      let (queue, group) = split_key key in
      received cmd key (λ s'. receive_all cmd keys s') (q.recv_message s queue group)

  -- The values are written, and `get` acknowledges each one; errors of that are dropped.
  unfoldable pub write_all : Bytes → List Pair → S → S × Bytes
  write_all cmd [] s = (s, resp_end)
  write_all cmd (p ∷ ps) s =
      let s' = if bytes_eq cmd cmd_get then (q.ack_message s p.queue p.group p.id).0 else s in
      let (t, text) = write_all cmd ps s' in (t, value_text p ++ text)

  abbrev pub get_answer : Bytes → Bytes → S × (Bytes ⊎ List Pair) → Response S
  get_answer cmd input (s, inl text) = record {
    queue = s;
    input = input;
    output = text;
    close = false;
  }
  get_answer cmd input (s, inr ps) =
      let (t, text) = write_all cmd ps s in
      record { queue = t; input = input; output = text; close = false }

  unfoldable pub command_get : S → List Bytes → Bytes → Response S
  command_get s (cmd ∷ key ∷ keys) input = get_answer cmd input (receive_all cmd (key ∷ keys) s)
  command_get s tokens input = record {
    queue = s;
    input = input;
    output = resp_error;
    close = true;
  }
