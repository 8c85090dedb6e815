-- ===== src/Memcached/Eget.antt =====
-- service/mc/command_get.go: what a client reads back from the value of `eget`.
use wqs.Common.{
  ◌%◌, ◌<◌, ◌≡◌, refl, false, Option, none, some, [], ◌∷◌, ◌++◌, Bytes, codes, length, take, drop,
  take-append, drop-append, arith,
}
use wqs.Common.Eq.{bytes_eq}
use wqs.Go.Strconv.{format_uint}
use wqs.Memcached.{Operations, Delivery, ok, split_key, cmd_eget, cmd_get, crlf, resp_end}
use wqs.Memcached.Get.{command_get, receive_all, write_all, eget_value}

-- A client takes the first byte for the length of the id.
unfoldable pub decode_eget : Bytes → Option (Bytes × Bytes)
decode_eget [] = none
decode_eget (n ∷ rest) = some (take n rest, drop n rest)

decode_eget-value :
    (id value : Bytes) → length id < 256 → decode_eget (eget_value id value) ≡ some (id, value)
unfolding decode_eget
decode_eget-value id value h =
    let small : length id % 256 ≡ length id = omega arith in
    rw (small, take-append id value, drop-append id value)

-- `eget` of one key with a message: the value it writes gives back the id, if that is shorter than
-- 256 bytes, and the message; nothing is acknowledged.
pub command_eget-decode :
    {S : Type 0} (q : Operations S) (s t : S) (key input : Bytes) (d : Delivery)
    → q.recv_message s (split_key key).0 (split_key key).1 ≡ (t, ok d)
    → length d.id < 256
    → (body : Bytes) × (command_get q s (cmd_eget ∷ key ∷ []) input ≡ record {
      queue = t;
      input = input;
      close = false;
      output =
          codes "VALUE "
          ++ key
          ++ codes " "
          ++ format_uint 10 d.flag
          ++ codes " "
          ++ format_uint 10 (length body)
          ++ crlf
          ++ body
          ++ crlf
          ++ resp_end;
    })
      × (decode_eget body ≡ some (d.id, d.value))
unfolding command_get receive_all write_all bytes_eq
command_eget-decode q s t key input d received short =
    (eget_value d.id d.value, rw received refl, decode_eget-value d.id d.value short)

-- `get` of one key with a message acknowledges just that message, whatever becomes of it.
pub command_get-acks :
    {S : Type 0} (q : Operations S) (s t : S) (key input : Bytes) (d : Delivery)
    → q.recv_message s (split_key key).0 (split_key key).1 ≡ (t, ok d)
    → (command_get q s (cmd_get ∷ key ∷ []) input).queue
      ≡ (q.ack_message t (split_key key).0 (split_key key).1 d.id).0
unfolding command_get receive_all write_all bytes_eq
command_get-acks q s t key input d received = rw received refl
