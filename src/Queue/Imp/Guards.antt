-- ===== src/Queue/Imp/Guards.antt =====
-- AckMessage: what an error leaves, and that it keeps the invariant of the consumers.
use wqs.Common.{◌≡◌, ◌≢◌, refl, ap, ◌∙◌, Bool-cases, Option, none, some, inl, inr, Bytes}
use wqs.Common.Eq.{bytes_key}
use wqs.Common.Dict.{lookup, insert-lookup}
use wqs.Kafka.Consumer
use wqs.Kafka.Consumer.{ack}
use wqs.Kafka.Consumer.Tracking.{ack_failed}
use wqs.Kafka.Consumer.Valid.{IsValid}
use wqs.Kafka.Consumer.Acks.{ack-IsValid}
use wqs.Queue.MessageId.{MessageId, IdError, parse}
use wqs.Queue.Metadata.Views.{exist_group}
use wqs.Queue.Imp.{QueueImp, owner_of}
use wqs.Queue.Imp.Messages.{ack_message, ack_by, ack_parsed, ack_reply, empty_id}
use wqs.Queue.Imp.Owners.{ConsumersValid, set_consumer-ConsumersValid, ConsumersValid-IsValid}

ack_reply_failed :
    (q : QueueImp) (owner : Bytes) (c : Consumer.Consumer)
    (r : Consumer.Consumer × Option Consumer.Error)
    → lookup q.consumer_map owner ≡ some c
    → (r.1 ≢ none → r.0 ≡ c)
    → (ack_reply q owner r).1 ≢ none
    → (ack_reply q owner r).0 ≡ q
ack_reply_failed q owner c (d, none) found kept e = absurd (e refl)
ack_reply_failed q owner c (d, some x) found kept e =
    let same : d ≡ c = kept (λ f. cc) in rw (same, insert-lookup q.consumer_map owner c found) refl

ack_parsed_failed :
    (q : QueueImp) (owner : Bytes) (c : Consumer.Consumer) (m : MessageId × Option IdError)
    → lookup q.consumer_map owner ≡ some c
    → (ack_parsed q owner c m).1 ≢ none
    → (ack_parsed q owner c m).0 ≡ q
ack_parsed_failed q owner c (m, some x) found e = refl
ack_parsed_failed q owner c (m, none) found e =
    ack_reply_failed q owner c (ack c m.idc m.partition m.offset) found
      (ack_failed c m.idc m.partition m.offset) e

ack_by_failed :
    (q : QueueImp) (owner id : Bytes) (o : Option Consumer.Consumer)
    → lookup q.consumer_map owner ≡ o
    → (ack_by q owner id o).1 ≢ none
    → (ack_by q owner id o).0 ≡ q
ack_by_failed q owner id none found e = refl
ack_by_failed q owner id (some c) found e = ack_parsed_failed q owner c (parse empty_id id) found e

-- An AckMessage that fails, for whatever reason, leaves the queue and all its consumers as they
-- were.
pub ack_message_failed :
    (q : QueueImp) (queue group id : Bytes)
    → (ack_message q queue group id).1 ≢ none
    → (ack_message q queue group id).0 ≡ q
unfolding ack_message
ack_message_failed q queue group id e = elim (Bool-cases (exist_group q.metadata queue group)) [
  | inr unknown ↦ rw unknown refl
  | inl known ↦
      let owner = owner_of queue group in
      let ran : ack_message q queue group id ≡ ack_by q owner id (lookup q.consumer_map owner) =
        rw known refl in
      ap (λ r. r.0) ran
      ∙ ack_by_failed q owner id (lookup q.consumer_map owner) refl (λ f. e (ap (λ r. r.1) ran ∙ f))
]

ack_by-ConsumersValid :
    (q : QueueImp) (owner id : Bytes) (o : Option Consumer.Consumer)
    → lookup q.consumer_map owner ≡ o
    → ConsumersValid q
    → ConsumersValid (ack_by q owner id o).0
ack_by-ConsumersValid q owner id none found valid = valid
ack_by-ConsumersValid q owner id (some c) found valid = parsed (parse empty_id id)
  where
    replied :
        (r : Consumer.Consumer × Option Consumer.Error)
        → IsValid r.0
        → ConsumersValid (ack_reply q owner r).0
    replied (d, none) v = set_consumer-ConsumersValid q owner d valid v
    replied (d, some x) v = set_consumer-ConsumersValid q owner d valid v

    parsed : (m : MessageId × Option IdError) → ConsumersValid (ack_parsed q owner c m).0
    parsed (m, some x) = valid
    parsed (m, none) =
        replied (ack c m.idc m.partition m.offset)
          (ack-IsValid c (ConsumersValid-IsValid q valid owner c found) m.idc m.partition m.offset)

-- AckMessage keeps the invariant of every consumer, whatever id it is given.
pub ack_message-ConsumersValid :
    (q : QueueImp) (queue group id : Bytes)
    → ConsumersValid q
    → ConsumersValid (ack_message q queue group id).0
unfolding ack_message
ack_message-ConsumersValid q queue group id valid =
    elim (Bool-cases (exist_group q.metadata queue group)) [
      | inr unknown ↦ rw unknown valid
      | inl known ↦ rw known (
          ack_by-ConsumersValid q (owner_of queue group) id
            (lookup q.consumer_map (owner_of queue group)) refl valid)
    ]
