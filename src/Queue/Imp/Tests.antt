-- ===== src/Queue/Imp/Tests.antt =====
-- A queue "q" with the group "g" whose consumer is new, and the theorems on it.
use wqs.Common.{◌⊎◌, ◌<◌, ◌≡◌, ◌≢◌, refl, true, false, none, some, [], ◌∷◌, Bytes, codes, arith}
use wqs.Common.Int.{pos}
use wqs.Common.Eq.{bytes_key, bytes_eq}
use wqs.Common.Dict.{Dict, lookup, sum}
use wqs.Engine.{ok}
use wqs.Kafka.Ack.{Message}
use wqs.Kafka.Consumer
use wqs.Kafka.Consumer.{fresh, arrived}
use wqs.Kafka.Consumer.Views.{total}
use wqs.Kafka.Consumer.Runs.{fresh-IsValid}
use wqs.Zookeeper.Tests.{Nodes}
use wqs.Queue.Metadata.Views.{exist_group}
use wqs.Queue.Metadata.Tests.{dict_clients, metadata_with, queue_q}
use wqs.Queue.Imp.{QueueImp, Service, owner_of, vaild_name}
use wqs.Go.Strings.{all_words}
use wqs.Queue.Imp.Messages.{
  Arrival, reply, failure, crashed, key_of, read_key, received_of, recv_message, ack_message,
}
use wqs.Queue.Metadata.Views.{get_queue_config}
use wqs.Queue.Imp.Keys.{read_key-key_of}
use wqs.Queue.Imp.Delivery.{recv_message-ack_message}
use wqs.Queue.Imp.Owners.{ConsumersValid, owner_of_injective, recv_message-ConsumersValid}
use wqs.Queue.Imp.Guards.{ack_message_failed}

abbrev q : Bytes
q = codes "q"

abbrev g : Bytes
g = codes "g"

abbrev queue_with : Dict Bytes Consumer.Consumer → QueueImp
queue_with consumers = record {
  metadata = metadata_with ((q, queue_q) ∷ []);
  id_generator = record { t = 7; sequence = 0; id = 1 };
  consumer_map = consumers;
}

abbrev service : Service Nodes
service = record {
  clients = dict_clients;
  cluster = record {
    join = λ addrs group topic w. (w, true);
    leave = λ idc group topic w. w;
    send_message = λ topic key value w. (w, ok (pos 0, pos 5));
  };
}

abbrev opened_queue : QueueImp
opened_queue = queue_with ((owner_of q g, fresh) ∷ [])

abbrev message_5 : Message
message_5 = record {
  topic = q;
  partition = pos 0;
  offset = pos 5;
  key = key_of 9 3;
  value = codes "m";
}

abbrev arrival_5 : Arrival
arrival_5 = record {
  incoming = arrived (codes "yf") message_5;
  arrival = 1;
  now = 1;
  order = [];
  later = metadata_with ((q, queue_q) ∷ []);
}

-- The queue is deleted between the look-up of the group and the reading of the configuration.
crash_of_gone_queue :
    (recv_message service (queue_with []) [] q g (record arrival_5 { later = metadata_with [] })).1
    ≡ failure crashed
unfolding recv_message exist_group get_queue_config lookup bytes_eq
crash_of_gone_queue = refl

key_9_3 : key_of 9 3 ≡ codes "9:3"
unfolding key_of wqs.Go.Strconv.format_uint wqs.Go.Strconv.digits
key_9_3 = refl

read_key-key_of_example : read_key (key_of 9 3) ≡ (9, 3)
read_key-key_of_example = read_key-key_of 9 3 (omega arith) (omega arith)

-- A flag of 33 bits comes back as the largest one of 32 bits.
flag_cut : read_key (codes "9:100000000") ≡ (9, 4294967295)
unfolding read_key wqs.Go.Strings.split wqs.Go.Strconv.parse_uint wqs.Go.Strconv.scan
flag_cut = refl

group_known : exist_group opened_queue.metadata q g ≡ true
unfolding exist_group lookup bytes_eq
group_known = refl

consumer_opened : lookup opened_queue.consumer_map (owner_of q g) ≡ some fresh
unfolding lookup bytes_eq
consumer_opened = refl

nothing_pending : total fresh.ack_groups < 1024
unfolding total sum
nothing_pending = omega arith

recv_message-ack_message_example :
    ((recv_message service opened_queue [] q g arrival_5).1
      ≡ reply (received_of q g (codes "yf") message_5))
    × ((ack_message
          (recv_message service opened_queue [] q g arrival_5).0.0
          q
          g
          (received_of q g (codes "yf") message_5).id).1
        ≡ none)
    × ((ack_message
          (ack_message
            (recv_message service opened_queue [] q g arrival_5).0.0
            q
            g
            (received_of q g (codes "yf") message_5).id).0
          q
          g
          (received_of q g (codes "yf") message_5).id).1
        ≢ none)
recv_message-ack_message_example =
    recv_message-ack_message service [] opened_queue q g fresh group_known consumer_opened
      fresh-IsValid nothing_pending (codes "yf") message_5 arrival_5 refl ((omega arith), tt)
      ((omega arith), tt) (omega arith, omega arith) (omega arith, omega arith)

q_vaild : vaild_name q ≡ true
unfolding vaild_name all_words
q_vaild = refl

names_vaild :
    (vaild_name [] ≡ false)
    × (vaild_name (codes "a@b") ≡ false)
    × (vaild_name (codes "abcdefghij_ABCDEFG789") ≡ false)
unfolding vaild_name all_words
names_vaild = (refl, refl, refl)

owner_of_injective_example : (q ≡ q) × (g ≡ g)
owner_of_injective_example = owner_of_injective q q g g q_vaild q_vaild refl

none_opened-ConsumersValid : ConsumersValid (queue_with [])
unfolding ConsumersValid lookup
none_opened-ConsumersValid owner c found = absurd (cc)

recv_message-ConsumersValid_example :
    ConsumersValid (recv_message service (queue_with []) [] q g arrival_5).0.0
    × (((recv_message service (queue_with []) [] q g arrival_5).1 ≢ failure crashed)
        ⊎ (get_queue_config arrival_5.later q ≡ none))
recv_message-ConsumersValid_example =
    recv_message-ConsumersValid service (queue_with []) q g arrival_5 none_opened-ConsumersValid []

not_opened : (ack_message (queue_with []) q g (codes "1:q:g:0:5:yf")).1 ≢ none
unfolding ack_message exist_group lookup bytes_eq
not_opened = λ e. cc

ack_message_failed_example :
    (ack_message (queue_with []) q g (codes "1:q:g:0:5:yf")).0 ≡ queue_with []
ack_message_failed_example =
    ack_message_failed (queue_with []) q g (codes "1:q:g:0:5:yf") not_opened
