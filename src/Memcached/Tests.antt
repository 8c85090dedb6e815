-- ===== src/Memcached/Tests.antt =====
-- The commands on a queue that is a list of messages, with the ids that were acknowledged.
use wqs.Common.{
  ℕ, suc, ◌+◌, ◌≡◌, refl, false, none, some, List, [], ◌∷◌, ◌++◌, Bytes, codes, length, arith,
}
use wqs.Common.Eq.{bytes_eq}
use wqs.Go.Strings.{split_n, split, cut, trim_space, trim_from}
use wqs.Go.Strconv.{parse_uint, scan, format_uint, digits}
use wqs.Memcached.{
  Operations, Result, Delivery, ok, err, timeout, crlf, resp_end, split_key, read_block, cmd_eget,
}
use wqs.Memcached.Store.{command_set}
use wqs.Memcached.Get.{command_get, receive_all, write_all}
use wqs.Memcached.Server.{execute, conn_loop}
use wqs.Memcached.Blocks.{command_set-append}
use wqs.Memcached.Close.{IsOrderly, execute-IsOrderly, conn_loop-fuel}
use wqs.Memcached.Eget.{decode_eget, command_eget-decode}

pub record Box : Type 0 where
  waiting : List Delivery
  acked : List Bytes

abbrev take_first : Box → List Delivery → Box × Result Delivery
take_first b [] = (b, err timeout)
take_first b (d ∷ ds) = (record b { waiting = ds }, ok d)

abbrev sent : Box → Bytes → ℕ → Box
sent b value flag = record b {
  waiting = b.waiting ++ record { id = codes "7"; value = value; flag = flag } ∷ [];
}

abbrev box_queue : Operations Box
box_queue = record {
  send_message = λ b queue group value flag. (sent b value flag, ok (codes "7"));
  recv_message = λ b queue group. take_first b b.waiting;
  ack_message = λ b queue group id. (record b { acked = id ∷ b.acked }, none);
  accumulation_status = λ b. (b, ok []);
}

abbrev empty_box : Box
empty_box = record { waiting = []; acked = [] }

abbrev session : Bytes
session =
    codes "set g.q 5 0 4"
    ++ crlf
    ++ codes "a"
    ++ crlf
    ++ codes "b"
    ++ crlf
    ++ codes "get g.q"
    ++ crlf
    ++ codes "get g.q"
    ++ crlf

-- A block that holds an end of line, and two gets after it.
session_answers :
    conn_loop box_queue [] 100 empty_box session
    ≡ some (
      record { waiting = []; acked = codes "7" ∷ [] },
      codes "STORED"
          ++ crlf
          ++ codes "VALUE g.q 5 4"
          ++ crlf
          ++ codes "a"
          ++ crlf
          ++ codes "b"
          ++ crlf
          ++ resp_end
          ++ resp_end,
    )
unfolding conn_loop execute command_set command_get receive_all write_all read_block split_key
    split_n split cut trim_space trim_from parse_uint scan format_uint digits bytes_eq
session_answers = refl

five : parse_uint 10 32 (codes "5") ≡ (5, none)
unfolding parse_uint scan
five = refl

two : parse_uint 10 32 (codes "2") ≡ (2, none)
unfolding parse_uint scan
two = refl

command_set-append_example :
    let r =
      command_set box_queue empty_box
        (codes "set" ∷ codes "g.q" ∷ codes "5" ∷ codes "0" ∷ codes "2" ∷ [])
        (crlf ++ (crlf ++ codes "get")) in
    (r.queue
      ≡ (box_queue.send_message empty_box
          (split_key (codes "g.q")).0
          (split_key (codes "g.q")).1
          crlf
          5).0)
    × (r.input ≡ codes "get")
    × (r.close ≡ false)
command_set-append_example =
    command_set-append box_queue empty_box (codes "set") (codes "g.q") (codes "5") (codes "0")
      (codes "2") crlf (codes "get") 5 five two

execute-IsOrderly_example :
    IsOrderly empty_box
      (codes "x")
      (execute box_queue [] empty_box (codes "nonsense" ∷ []) (codes "x"))
execute-IsOrderly_example =
    execute-IsOrderly box_queue [] empty_box (codes "nonsense" ∷ []) (codes "x")

conn_loop-fuel_example :
    (r : Box × Bytes) × (conn_loop box_queue [] (suc (length session)) empty_box session ≡ some r)
    × (conn_loop box_queue [] (suc (length session) + 9) empty_box session ≡ some r)
conn_loop-fuel_example = conn_loop-fuel box_queue [] 9 empty_box session

abbrev delivery : Delivery
delivery = record { id = codes "7"; value = codes "hello"; flag = 5 }

abbrev full_box : Box
full_box = record { waiting = delivery ∷ []; acked = [] }

command_eget-decode_example :
    (body : Bytes) × (command_get box_queue full_box (cmd_eget ∷ codes "q" ∷ []) [] ≡ record {
      queue = empty_box;
      input = [];
      close = false;
      output =
          codes "VALUE "
          ++ codes "q"
          ++ codes " "
          ++ format_uint 10 5
          ++ codes " "
          ++ format_uint 10 (length body)
          ++ crlf
          ++ body
          ++ crlf
          ++ resp_end;
    })
    × (decode_eget body ≡ some (codes "7", codes "hello"))
command_eget-decode_example =
    command_eget-decode box_queue full_box empty_box (codes "q") [] delivery refl (omega arith)
