-- ===== src/Queue/Imp/Owners.antt =====
-- The consumers of the queue: which groups share one, and that RecvMessage and AckMessage keep the
-- invariant of each.
use mathlib.Core.Path.{subst}
use wqs.Common.{
  ◌⊎◌, ◌≡◌, ◌≢◌, refl, ap, sym, ◌∙◌, Bool, true, false, Bool-cases, Option, Option-cases, none,
  some, List, [], ◌∷◌, inl, inr, Bytes, arith,
}
use wqs.Common.Eq.{bytes_key, bytes_eq}
use wqs.Common.Dict.{Dict, lookup, lookup-insert}
use wqs.Go.Strings.{Free, cut, cut-append}
use wqs.Kafka.Consumer
use wqs.Kafka.Consumer.{Outcome, panicked, received, failed, fresh, recv, ack}
use wqs.Kafka.Consumer.Valid.{IsValid}
use wqs.Kafka.Consumer.Redelivery.{recv-IsValid}
use wqs.Kafka.Consumer.Runs.{fresh-IsValid}
use wqs.Kafka.Opening.{open_consumer, join_all, after_join}
use wqs.Queue.Metadata.Views.{exist_group, get_queue_config, get_broker_addrs_by_idc}
use wqs.Queue.Imp.{QueueImp, Service, owner_of, vaild_name}
use wqs.Go.Strings.{all_words}
use wqs.Queue.Imp.Messages.{
  Arrival, Reply, Received, crashed, failure, reply_of, recv_from, recv_message, recv_by,
  recv_opened, open_and_recv, set_consumer,
}

all_words-Free : (s : Bytes) → all_words s ≡ true → Free b':' s × Free b'@' s
unfolding all_words
all_words-Free [] h = (tt, tt)
all_words-Free (c ∷ s) h =
    let rest = all_words-Free s (ground arith) in
    (((λ e. ground arith), rest.0), ((λ e. ground arith), rest.1))

-- A valid name holds neither a colon nor an at sign.
pub vaild_name-Free : (s : Bytes) → vaild_name s ≡ true → Free b':' s × Free b'@' s
unfolding vaild_name
vaild_name-Free s h = all_words-Free s (ground arith)

-- For valid queue names, two groups of queues share a consumer only if both names agree.
pub owner_of_injective :
    (queue queue' group group' : Bytes)
    → vaild_name queue ≡ true
    → vaild_name queue' ≡ true
    → owner_of queue group ≡ owner_of queue' group'
    → (queue ≡ queue') × (group ≡ group')
owner_of_injective queue queue' group group' h h' same =
    let read = cut-append b'@' queue group (vaild_name-Free queue h).1 in
    let read' = cut-append b'@' queue' group' (vaild_name-Free queue' h').1 in
    let both : ◌≡◌ {A = Option (Bytes × Bytes)} (some (queue, group)) (some (queue', group')) =
      sym read ∙ ap (cut b'@') same ∙ read' in
    (ground arith, ground arith)

-- Every consumer of the queue is valid.
unfoldable pub ConsumersValid : QueueImp → Type 0
ConsumersValid q =
    (owner : Bytes) (c : Consumer.Consumer) → lookup q.consumer_map owner ≡ some c → IsValid c

pub set_consumer-ConsumersValid :
    (q : QueueImp) (owner : Bytes) (c : Consumer.Consumer)
    → ConsumersValid q
    → IsValid c
    → ConsumersValid (set_consumer q owner c)
unfolding ConsumersValid
set_consumer-ConsumersValid q owner c valid v other d found =
    elim (Bool-cases (bytes_eq owner other)) [
      | inl hit ↦
          let here : ◌≡◌ {A = Option Consumer.Consumer} (some c) (some d) =
            ground (arith, lookup-insert q.consumer_map owner other c) in
          let same : c ≡ d = ground arith in rw (← same) v
      | inr miss ↦ valid other d (ground (arith, lookup-insert q.consumer_map owner other c))
    ]

pub ConsumersValid-IsValid :
    (q : QueueImp)
    → ConsumersValid q
    → (owner : Bytes) (c : Consumer.Consumer) → lookup q.consumer_map owner ≡ some c
    → IsValid c
unfolding ConsumersValid
ConsumersValid-IsValid q valid = valid

reply_of-crashed :
    (queue group : Bytes) (o : Outcome) → o ≢ panicked → reply_of queue group o ≢ failure crashed
reply_of-crashed queue group (received idc msg) h = λ e. cc
reply_of-crashed queue group (failed e) h = λ e. cc
reply_of-crashed queue group panicked h = absurd (h refl)

recv_from-ConsumersValid :
    (q : QueueImp) (queue group : Bytes) (a : Arrival) (c : Consumer.Consumer)
    → ConsumersValid q
    → IsValid c
    → ConsumersValid (recv_from q queue group a c).0
      × ((recv_from q queue group a c).1 ≢ failure crashed)
recv_from-ConsumersValid q queue group a c valid v =
    let kept = recv-IsValid c a.incoming a.arrival a.now a.order v in
    (
      set_consumer-ConsumersValid q (owner_of queue group)
          (recv c a.incoming a.arrival a.now a.order).0 valid kept.0,
      reply_of-crashed queue group (recv c a.incoming a.arrival a.now a.order).1 kept.1,
    )

module _ {W : Type 0} (s : Service W) (q : QueueImp) (queue group : Bytes) (a : Arrival)
    (valid : ConsumersValid q) where
  -- Every consumer is valid, and the call panics only if the queue was gone when it was to be read.
  abbrev Kept : (QueueImp × W) × Reply Received → Type 0
  Kept r =
      ConsumersValid r.0.0 × ((r.1 ≢ failure crashed) ⊎ (get_queue_config a.later queue ≡ none))

  abbrev q_later : QueueImp
  q_later = record q { metadata = a.later }

  later_valid : ConsumersValid q_later
  unfolding ConsumersValid
  later_valid = valid

  recv_opened-Kept :
      (w : W) (joined : Bool)
      → Kept (recv_opened s q_later queue group a (after_join s.cluster queue group (w, joined)))
  recv_opened-Kept w true =
      let r = recv_from-ConsumersValid q_later queue group a fresh later_valid fresh-IsValid in
      (r.0, inl r.1)
  recv_opened-Kept w false = (later_valid, inl (λ e. cc))

  open_and_recv-Kept :
      (addrs : Dict Bytes (List Bytes)) (w : W)
      → Kept (recv_opened s q_later queue group a (open_consumer s.cluster queue group addrs w))
  unfolding open_consumer
  open_and_recv-Kept [] w = (later_valid, inl (λ e. cc))
  open_and_recv-Kept (addr ∷ addrs) w =
      let r = join_all s.cluster queue group (addr ∷ addrs) [] w in recv_opened-Kept r.0 r.1

  -- RecvMessage keeps the invariant of every consumer, whatever arrives and whether the consumer has
  -- to be opened or not; and it panics only where, after the group was found, the queue has been
  -- taken out of the metadata before its configuration is read.
  pub recv_message-ConsumersValid :
      (w : W)
      → ConsumersValid (recv_message s q w queue group a).0.0
        × (((recv_message s q w queue group a).1 ≢ failure crashed)
            ⊎ (get_queue_config a.later queue ≡ none))
  unfolding recv_message
  recv_message-ConsumersValid w = elim (Bool-cases (exist_group q.metadata queue group)) [
    | inr unknown ↦ rw unknown (valid, inl (λ e. cc))
    | inl known ↦ elim (Option-cases (lookup q.consumer_map (owner_of queue group))) [
      | inr (c, opened) ↦
          let r = recv_from-ConsumersValid q queue group a c valid (consumer_valid c opened) in
          rw (known, opened, recv_by) (r.0, inl r.1)
      | inl new ↦ elim (Option-cases (get_queue_config a.later queue)) [
        | inl missing ↦ rw (known, new, missing, recv_by, open_and_recv) (later_valid, inr refl)
        | inr (config, found) ↦
            let r = open_and_recv-Kept (get_broker_addrs_by_idc a.later config.idcs) w in
            rw (known, new, recv_by)
              (subst (λ o. Kept (open_and_recv s q_later queue group a o w)) (sym found) r)
      ]
    ]
  ]
    where
      consumer_valid :
          (c : Consumer.Consumer)
          → lookup q.consumer_map (owner_of queue group) ≡ some c
          → IsValid c
      consumer_valid c opened = ConsumersValid-IsValid q valid (owner_of queue group) c opened
