-- ===== src/Kafka/Consumer/Runs.antt =====
-- Every run of a consumer that several goroutines use: the sections of Recv and Ack that hold a lock
-- are steps of their own, and so is the reading of the counter before them.
use mathlib.Core.Path.{subst}
use wqs.Common.{
  ℕ, suc, ◌+◌, ◌-◌, ◌^◌, ◌≤◌, ◌<◌, ◌≡◌, refl, ap, true, Bool-cases, Option-cases, inl, inr, List,
  Bytes, arith,
}
use wqs.Common.Int.{ℤ, pos, ltb_ℤ}
use wqs.Common.Dict.{lookup, sum}
use wqs.Common.Eq.{int_key}
use wqs.Kafka.Ack.{Message, head_at, messages_at}
use wqs.Kafka.Consumer.{
  Consumer, Error, Incoming, arrived, channel_closed, timed_out, Outcome, received, failed,
  panicked, timeout, ack, recv, recv_expired, try_recv, after_try, find_expired, redelivered,
  messages_or_new, padding_max, fresh,
}
use wqs.Kafka.Consumer.Views.{pending, total, group_size}
use wqs.Kafka.Consumer.Valid.{IsValid, try_recv-IsValid, tracked-total}
use wqs.Kafka.Consumer.Redelivery.{IsRedelivery, find_expired-IsRedelivery, IsRedelivery-IsValid}
use wqs.Kafka.Consumer.Acks.{ack-IsValid, ack-total}
use wqs.Kafka.Consumer.Safety.{
  IsSafe, ArrivesInOrder, ack-IsSafe, IsRedelivery-IsSafe, try_recv-IsSafe,
}

-- The consumer, and how many calls of Recv have found the counter below `paddingMax` and are in
-- `recv`.
pub record Shared : Type 0 where
  pub consumer : Consumer
  pub entered : ℕ

abbrev pub with_consumer : Shared → Consumer → Shared
with_consumer s c = record s { consumer = c }

-- `receivers` bounds the calls of Recv at a time.
pub data Step (receivers : ℕ) (s : Shared) : Shared → Type 0 where
  -- Recv reads the counter, and goes into `recv`.
  enter :
      ltb_ℤ s.consumer.padding padding_max ≡ true
      → s.entered < receivers
      → Step receivers s (record s { entered = suc s.entered })
  -- One of these calls gets what its `select` yields, and enters a message.
  take :
      (incoming : Incoming) (now : ℕ)
      → 0 < s.entered
      → ArrivesInOrder s.consumer incoming
      → Step receivers s
          (record { consumer = (try_recv s.consumer now incoming).0; entered = s.entered - 1 })
  -- The loops of Recv over the groups, whatever the counter is by now.
  scan :
      (err : Error) (now : ℕ) (order : List (Bytes × ℤ))
      → Step receivers s
          (with_consumer s (redelivered s.consumer err (find_expired s.consumer now order)).0)
  acknowledge : (i : Bytes) (p o : ℤ) → Step receivers s (with_consumer s (ack s.consumer i p o).0)

abbrev pub start_of : Shared
start_of = record { consumer = fresh; entered = 0 }

-- The states that a new consumer can reach.
pub data Run (receivers : ℕ) : Shared → Type 0 where
  start : Run receivers start_of
  step : {s s' : Shared} → Run receivers s → Step receivers s s' → Run receivers s'

pub fresh-IsValid : IsValid fresh
unfolding head_at lookup total group_size sum
fresh-IsValid = record {
  paired = λ i p h e. absurd (ground arith);
  counted = refl;
  room = omega arith;
}

fresh-IsSafe : IsSafe fresh
unfolding head_at lookup pending
fresh-IsSafe = record { at = λ i p. record { ascending = tt; ranged = tt; uncommitted = tt } }

-- What holds in all these states.
pub record IsKept (receivers : ℕ) (s : Shared) : Type 0 where
  pub valid : IsValid s.consumer
  pub safe : IsSafe s.consumer
  pub bounded : total s.consumer.ack_groups + s.entered ≤ 1023 + receivers
  pub entered_bounded : s.entered ≤ receivers

try_recv-total :
    (c : Consumer) (now : ℕ) (incoming : Incoming)
    → total (try_recv c now incoming).0.ack_groups ≤ suc (total c.ack_groups)
unfolding try_recv
try_recv-total c now channel_closed = omega arith
try_recv-total c now timed_out = omega arith
try_recv-total c now (arrived i msg) =
    elim (Option-cases (
      messages_or_new (head_at c.ack_groups i msg.partition)
        (messages_at c.ack_groups i msg.partition))) [
          | inl missing ↦ rw (missing, try_recv) (omega arith)
          | inr (ms, found) ↦
              rw (found, try_recv)
                (omega (arith, tracked-total c.ack_groups i msg.partition c.next_node _))
        ]

redelivery-IsKept :
    (receivers : ℕ) (s : Shared) (now : ℕ) (c' : Consumer) (i : Bytes) (msg : Message)
    → IsRedelivery s.consumer now c' i msg
    → IsKept receivers s
    → IsKept receivers (with_consumer s c')
redelivery-IsKept receivers s now c' i msg r k =
    let v = IsRedelivery-IsValid s.consumer now c' i msg r k.valid in
    let same_size : total c'.ack_groups ≡ total s.consumer.ack_groups =
      ground (arith, v.counted, k.valid.counted, ap (λ (c : Consumer). c.padding) r.state) in
    record {
      valid = v;
      safe = IsRedelivery-IsSafe s.consumer k.valid now c' i msg r k.safe;
      bounded = omega (arith, same_size, k.bounded);
      entered_bounded = k.entered_bounded;
    }

module _ (receivers : ℕ) (few : receivers < 2 ^ 30) where
  Step-keeps : {s s' : Shared} → Step receivers s s' → IsKept receivers s → IsKept receivers s'
  Step-keeps {s} (enter free below) k =
      let here : total s.consumer.ack_groups < 1024 = ground (arith, k.valid.counted, free) in
      record {
        valid = k.valid;
        safe = k.safe;
        bounded = omega (arith, here, below);
        entered_bounded = omega (arith, below);
      }
  Step-keeps {s} (take incoming now waits in_order) k =
      let room : suc (total s.consumer.ack_groups) < 2 ^ 31 = omega (arith, k.bounded) in
      record {
        valid = (try_recv-IsValid s.consumer k.valid now incoming room).0;
        safe = try_recv-IsSafe s.consumer k.valid now incoming in_order k.safe;
        bounded = omega (arith, k.bounded, waits, try_recv-total s.consumer now incoming);
        entered_bounded = omega (arith, k.entered_bounded);
      }
  Step-keeps {s} (scan err now order) k = elim (Option-cases (find_expired s.consumer now order)) [
    | inl nothing ↦ rw nothing k
    | inr ((c', i, msg), found) ↦ rw found (
        redelivery-IsKept receivers s now c' i msg
          (find_expired-IsRedelivery s.consumer now order c' i msg found) k)
  ]
  Step-keeps {s} (acknowledge i p o) k = record {
    valid = ack-IsValid s.consumer k.valid i p o;
    safe = ack-IsSafe s.consumer k.valid i p o k.safe;
    bounded = omega (arith, k.bounded, ack-total s.consumer k.valid i p o);
    entered_bounded = k.entered_bounded;
  }

  nothing_pending : total start_of.consumer.ack_groups + start_of.entered ≤ 1023 + receivers
  unfolding total sum
  nothing_pending = omega arith

  pub Run-keeps : {s : Shared} → Run receivers s → IsKept receivers s
  Run-keeps start = record {
    valid = fresh-IsValid;
    safe = fresh-IsSafe;
    bounded = nothing_pending;
    entered_bounded = omega arith;
  }
  Run-keeps (step r st) = Step-keeps st (Run-keeps r)

module _ (receivers : ℕ) where
  recv_expired-Run :
      (c : Consumer) (entered : ℕ) (err : Error) (now : ℕ) (order : List (Bytes × ℤ))
      → Run receivers (record { consumer = c; entered = entered })
      → Run receivers (record { consumer = (recv_expired c err now order).0; entered = entered })
  unfolding recv_expired
  recv_expired-Run c entered err now order r = elim (Bool-cases (ltb_ℤ (pos 0) c.padding)) [
    | inl some_pending ↦ rw some_pending (step r (scan err now order))
    | inr none_pending ↦ rw none_pending r
  ]

  after_try-Run :
      (c : Consumer) (entered : ℕ) (result : Outcome) (now : ℕ) (order : List (Bytes × ℤ))
      → Run receivers (record { consumer = c; entered = entered })
      → Run receivers (record { consumer = (after_try (c, result) now order).0; entered = entered })
  after_try-Run c entered (received i msg) now order r = r
  after_try-Run c entered (failed err) now order r = recv_expired-Run c entered err now order r
  after_try-Run c entered panicked now order r = r

  -- A call of Recv that no other call gets in the way of is a sequence of these steps.
  pub recv-Run :
      (s : Shared) (incoming : Incoming) (arrival now : ℕ) (order : List (Bytes × ℤ))
      → s.entered < receivers
      → ArrivesInOrder s.consumer incoming
      → Run receivers s
      → Run receivers (with_consumer s (recv s.consumer incoming arrival now order).0)
  unfolding recv
  recv-Run s incoming arrival now order below in_order r =
      elim (Bool-cases (ltb_ℤ s.consumer.padding padding_max)) [
        | inl free ↦
            let tried = try_recv s.consumer arrival incoming in
            let taken =
              step (step r (enter free below)) (take incoming arrival (omega arith) in_order) in
            let same : suc s.entered - 1 ≡ s.entered = omega arith in
            let tried_at = λ (n : ℕ). Run receivers (record { consumer = tried.0; entered = n }) in
            rw free (after_try-Run tried.0 s.entered tried.1 now order (subst tried_at same taken))
        | inr full ↦ rw full (recv_expired-Run s.consumer s.entered timeout now order r)
      ]
