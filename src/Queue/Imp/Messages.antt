-- ===== src/Queue/Imp/Messages.antt =====
-- engine/queue/queue_imp.go: SendMessage, RecvMessage and AckMessage.
use wqs.Common.{ℕ, Option, none, some, List, [], ◌∷◌, ◌++◌, Bytes, ◌⊎◌, inl, inr, if◌then◌else◌}
use wqs.Common.Int.{ℤ, pos}
use wqs.Common.Eq.{bytes_key}
use wqs.Common.Dict.{lookup, insert}
use wqs.Go.Strings.{split}
use wqs.Go.Strconv.{format_uint, parse_uint}
use wqs.Engine.{Error, not_found, not_valid, Result, ok, err}
use wqs.Kafka.Ack.{Message}
use wqs.Kafka.Consumer
use wqs.Kafka.Consumer.{Incoming, Outcome, received, recv, ack}
use wqs.Kafka.Opening.{open_consumer, send}
use wqs.Queue.IdGenerator
use wqs.Queue.MessageId.{MessageId, IdError, parse, to_string}
use wqs.Queue.Config.{QueueConfig}
use wqs.Queue.Metadata.{Metadata}
use wqs.Queue.Metadata.Views.{exist_group, get_queue_config, get_broker_addrs_by_idc}
use wqs.Queue.Imp.{QueueImp, Service, owner_of}

-- An error of the queue itself or of another package, or one of kafka.Consumer.
pub data Failure : Type 0 where
  cause : Error → Failure
  consumer_error : Consumer.Error → Failure
  crashed : Failure

pub data Reply (A : Type 0) : Type 0 where
  reply : A → Reply A
  failure : Failure → Reply A

-- The id, the value and the flag of a message.
pub record Received : Type 0 where
  pub id : Bytes
  pub value : Bytes
  pub flag : ℕ

-- What a call of RecvMessage is told: the end of the `select` of Recv, the times, the order of Go's
-- maps; and the metadata as others have left it by the time that the configuration is read.
pub record Arrival : Type 0 where
  pub incoming : Incoming
  pub arrival : ℕ
  pub now : ℕ
  pub order : List (Bytes × ℤ)
  pub later : Metadata

-- `fmt.Sprintf("%x:%x", sequence, flag)`
unfoldable pub key_of : ℕ → ℕ → Bytes
key_of sequence flag = format_uint 16 sequence ++ (b':' ∷ format_uint 16 flag)

abbrev pub sequence_in : List Bytes → ℕ
sequence_in [] = 0
sequence_in (t ∷ tokens) = (parse_uint 16 64 t).0

abbrev pub flag_in : List Bytes → ℕ
flag_in (t0 ∷ t1 ∷ tokens) = (parse_uint 16 32 t1).0
flag_in tokens = 0

-- The sequence and the flag that RecvMessage reads from a key; errors are dropped.
unfoldable pub read_key : Bytes → ℕ × ℕ
read_key key = let tokens = split b':' key in (sequence_in tokens, flag_in tokens)

abbrev pub id_to : Bytes → Bytes → Bytes → ℤ → ℤ → ℕ → MessageId
id_to queue group idc partition offset sequence = record {
  queue = queue;
  group = group;
  idc = idc;
  partition = partition;
  offset = offset;
  sequence = sequence;
}

abbrev pub received_of : Bytes → Bytes → Bytes → Message → Received
received_of queue group idc msg = record {
  id = to_string (id_to queue group idc msg.partition msg.offset (read_key msg.key).0);
  value = msg.value;
  flag = (read_key msg.key).1;
}

abbrev pub set_consumer : QueueImp → Bytes → Consumer.Consumer → QueueImp
set_consumer q owner c = record q { consumer_map = insert q.consumer_map owner c }

abbrev pub reply_of : Bytes → Bytes → Outcome → Reply Received
reply_of queue group (received idc msg) = reply (received_of queue group idc msg)
reply_of queue group (Outcome.failed e) = failure (consumer_error e)
reply_of queue group Outcome.panicked = failure crashed

abbrev pub recv_from :
    QueueImp → Bytes → Bytes → Arrival → Consumer.Consumer → QueueImp × Reply Received
recv_from q queue group a c =
    let (c', outcome) = recv c a.incoming a.arrival a.now a.order in
    (set_consumer q (owner_of queue group) c', reply_of queue group outcome)

abbrev pub ack_reply :
    QueueImp → Bytes → Consumer.Consumer × Option Consumer.Error → QueueImp × Option Failure
ack_reply q owner (c, none) = (set_consumer q owner c, none)
ack_reply q owner (c, some e) = (set_consumer q owner c, some (consumer_error e))

abbrev pub empty_id : MessageId
empty_id = id_to [] [] [] (pos 0) (pos 0) 0

abbrev pub ack_parsed :
    QueueImp → Bytes → Consumer.Consumer → MessageId × Option IdError → QueueImp × Option Failure
ack_parsed q owner c (m, some e) = (q, some (cause not_valid))
ack_parsed q owner c (m, none) = ack_reply q owner (ack c m.idc m.partition m.offset)

abbrev pub ack_by : QueueImp → Bytes → Bytes → Option Consumer.Consumer → QueueImp × Option Failure
ack_by q owner id none = (q, some (cause not_found))
ack_by q owner id (some c) = ack_parsed q owner c (parse empty_id id)

-- `none` is success.
unfoldable pub ack_message : QueueImp → Bytes → Bytes → Bytes → QueueImp × Option Failure
ack_message q queue group id =
    if exist_group q.metadata queue group
    then ack_by q (owner_of queue group) id (lookup q.consumer_map (owner_of queue group))
    else (q, some (cause not_found))

module _ {W : Type 0} (s : Service W) where
  abbrev pub recv_opened :
      QueueImp
      → Bytes
      → Bytes
      → Arrival
      → W × (Consumer.Consumer ⊎ Consumer.Error)
      → (QueueImp × W) × Reply Received
  recv_opened q queue group a (w, inr e) = ((q, w), failure (consumer_error e))
  recv_opened q queue group a (w, inl c) = let (q', r) = recv_from q queue group a c in ((q', w), r)

  -- The consumer of a group is opened by its first RecvMessage. Of a queue that is no longer there,
  -- the configuration is a nil pointer.
  abbrev pub open_and_recv :
      QueueImp → Bytes → Bytes → Arrival → Option QueueConfig → W → (QueueImp × W) × Reply Received
  open_and_recv q queue group a none w = ((q, w), failure crashed)
  open_and_recv q queue group a (some config) w =
      recv_opened q queue group a
        (open_consumer s.cluster queue group (get_broker_addrs_by_idc a.later config.idcs) w)

  abbrev pub recv_by :
      QueueImp
      → Bytes
      → Bytes
      → Arrival
      → Option Consumer.Consumer
      → W
      → (QueueImp × W) × Reply Received
  recv_by q queue group a (some c) w = let (q', r) = recv_from q queue group a c in ((q', w), r)
  recv_by q queue group a none w =
      open_and_recv (record q { metadata = a.later }) queue group a (get_queue_config a.later queue)
        w

  unfoldable pub recv_message :
      QueueImp → W → Bytes → Bytes → Arrival → (QueueImp × W) × Reply Received
  recv_message q w queue group a =
      if exist_group q.metadata queue group
      then recv_by q queue group a (lookup q.consumer_map (owner_of queue group)) w
      else ((q, w), failure (cause not_found))

  abbrev pub sent :
      QueueImp → Bytes → Bytes → ℕ → W × Result (ℤ × ℤ) → (QueueImp × W) × Result Bytes
  sent q queue group sequence (w, err e) = ((q, w), err e)
  sent q queue group sequence (w, ok (partition, offset)) =
      ((q, w), ok (to_string (id_to queue group q.metadata.local partition offset sequence)))

  abbrev pub send_with :
      QueueImp × ℕ → W → Bytes → Bytes → Bytes → ℕ → (QueueImp × W) × Result Bytes
  send_with (q, sequence) w queue group value flag =
      sent q queue group sequence (send s.cluster queue group (key_of sequence flag) value w)

  abbrev pub next_id : QueueImp → List ℕ → QueueImp × ℕ
  next_id q ticks =
      let (generator, id) = IdGenerator.get q.id_generator ticks in
      (record q { id_generator = generator }, id)

  -- `ticks` is what the generator finds in the channel of its ticker.
  unfoldable pub send_message :
      QueueImp → W → List ℕ → Bytes → Bytes → Bytes → ℕ → (QueueImp × W) × Result Bytes
  send_message q w ticks queue group value flag =
      if exist_group q.metadata queue group
      then send_with (next_id q ticks) w queue group value flag
      else ((q, w), err not_found)
