-- ===== src/Kafka/Consumer/Redelivery.antt =====
-- The second half of `Recv`: the redelivery of a message whose last delivery is too old.
use wqs.Common.{
  ◌^◌, suc, ℕ, ◌<◌, ◌≡◌, ◌≢◌, refl, sym, ap, ◌∙◌, Bool-cases, Option-cases, ◌⊎◌, Option, some, inl,
  inr, List, [], ◌∷◌, ◌++◌, Bytes, arith,
}
use wqs.Common.Int.{ℤ, pos, ltb_ℤ}
use wqs.Common.Eq.{int_key, bytes_key}
use wqs.Kafka.Ack.{
  Message, AckHead, Nodes, set_node, Expiry, none_expired, expired_at, first_expired, get_expired,
  head_at, set_head,
}
use wqs.Kafka.Consumer.{
  Consumer, Error, Outcome, received, failed, panicked, Incoming, after_try, try_recv, find_expired,
  recv_expired, recv, padding_max, timeout,
}
use wqs.Kafka.Consumer.Views.{total, total-set_head, pending}
use wqs.Kafka.Consumer.Invariant.{rotate-IsPartition}
use wqs.Kafka.Consumer.Valid.{IsValid, Paired-set_head, try_recv-IsValid}

-- The state behind a redelivery.
abbrev pub refreshed : Consumer → ℕ → Bytes → ℤ → ℕ → AckHead → Consumer
refreshed c now i p n h = record c {
  ack_groups = set_head c.ack_groups i p h;
  nodes = set_node c.nodes n (record { msg = (c.nodes n).msg; expired = now });
}

-- An expired node was first in the ring of deliveries, and goes to its end.
pub get_expired-first :
    (nodes : Nodes) (now : ℕ) (h : AckHead) (n : ℕ) (h' : AckHead)
    → get_expired nodes now h ≡ expired_at n h'
    → (rest : List ℕ) × (h.get_head ≡ n ∷ rest) × (h' ≡ record h { get_head = rest ++ n ∷ [] })
unfolding get_expired
get_expired-first nodes now h n h' e = go h.get_head refl e
  where
    go :
        (l : List ℕ)
        → h.get_head ≡ l
        → first_expired nodes now h l ≡ expired_at n h'
        → (rest : List ℕ) × (h.get_head ≡ n ∷ rest) × (h' ≡ record h { get_head = rest ++ n ∷ [] })
    go [] q f = cc
    go (m ∷ rest) q f = (rest, ground arith, ground arith)

pub refreshed-IsValid :
    (c : Consumer) (now : ℕ) (i : Bytes) (p : ℤ) (h : AckHead) (n : ℕ) (h' : AckHead)
    → IsValid c
    → head_at c.ack_groups i p ≡ some h
    → get_expired c.nodes now h ≡ expired_at n h'
    → IsValid (refreshed c now i p n h')
unfolding pending
refreshed-IsValid c now i p h n h' v found e =
    let (rest, first, moved) = get_expired-first c.nodes now h n h' e in
    let (ms, found_ms, part) = v.paired i p h found in
    let gs = c.ack_groups in
    let same_size : total (set_head gs i p h') ≡ total gs =
      ground (arith, total-set_head gs i p h') in
    record {
      paired =
          Paired-set_head gs c.nodes
            (set_node c.nodes n (record { msg = (c.nodes n).msg; expired = now })) c.next_node
            c.next_node (omega arith) (λ m below. ground arith) i p h' ms found_ms
            (rw moved (rotate-IsPartition c.nodes c.next_node p h ms part n rest now first))
            v.paired;
      counted = v.counted ∙ ap pos (sym same_size);
      room = omega (arith, v.room, same_size);
    }

-- What a redelivery did: a pending message of some partition that was first in its ring of
-- deliveries, too long ago.
pub record IsRedelivery (c : Consumer) (now : ℕ) (c' : Consumer) (i : Bytes) (msg : Message)
    : Type 0 where
  pub partition : ℤ
  pub head : AckHead
  pub node : ℕ
  pub head' : AckHead
  pub found : head_at c.ack_groups i partition ≡ some head
  pub expiry : get_expired c.nodes now head ≡ expired_at node head'
  pub state : c' ≡ refreshed c now i partition node head'
  pub message : msg ≡ (c.nodes node).msg

Expiry-cases : (e : Expiry) → (e ≡ none_expired) ⊎ ((n : ℕ) × (h : AckHead) × (e ≡ expired_at n h))
Expiry-cases none_expired = inl refl
Expiry-cases (expired_at n h) = inr (n, h, refl)

pub find_expired-IsRedelivery :
    (c : Consumer) (now : ℕ) (order : List (Bytes × ℤ)) (c' : Consumer) (i : Bytes) (msg : Message)
    → find_expired c now order ≡ some (c', i, msg)
    → IsRedelivery c now c' i msg
unfolding find_expired
find_expired-IsRedelivery c now [] c' i msg e = absurd (cc)
find_expired-IsRedelivery c now ((j, p) ∷ order) c' i msg e =
    elim (Option-cases (head_at c.ack_groups j p)) [
      | inl missing ↦ find_expired-IsRedelivery c now order c' i msg (ground arith)
      | inr (h, found) ↦ elim (Expiry-cases (get_expired c.nodes now h)) [
        | inl young ↦ find_expired-IsRedelivery c now order c' i msg (ground arith)
        | inr (n, h', old) ↦
            let shape : ◌≡◌ {A = Option (Consumer × Bytes × Message)}
                (some (refreshed c now j p n h', j, (c.nodes n).msg)) (some (c', i, msg)) =
              ground arith in
            record {
              partition = p;
              head = h;
              node = n;
              head' = h';
              found = ground arith;
              expiry = old;
              state = ground arith;
              message = ground arith;
            }
      ]
    ]

pub IsRedelivery-IsValid :
    (c : Consumer) (now : ℕ) (c' : Consumer) (i : Bytes) (msg : Message)
    → IsRedelivery c now c' i msg
    → IsValid c
    → IsValid c'
IsRedelivery-IsValid c now c' i msg r v =
    rw r.state (refreshed-IsValid c now i r.partition r.head r.node r.head' v r.found r.expiry)

redelivered-IsValid :
    (c : Consumer) (err : Error) (now : ℕ) (order : List (Bytes × ℤ))
    → IsValid c
    → IsValid (recv_expired c err now order).0 × ((recv_expired c err now order).1 ≢ panicked)
unfolding recv_expired
redelivered-IsValid c err now order v = elim (Option-cases (find_expired c now order)) [
  | inl nothing ↦ elim (Bool-cases (ltb_ℤ (pos 0) c.padding)) [
    | inl some_pending ↦ rw (some_pending, nothing) (v, λ e. cc)
    | inr none_pending ↦ rw none_pending (v, λ e. cc)
  ]
  | inr ((c', i, msg), found) ↦ elim (Bool-cases (ltb_ℤ (pos 0) c.padding)) [
    | inl some_pending ↦
        rw (some_pending, found)
          (
            IsRedelivery-IsValid c now c' i msg
                (find_expired-IsRedelivery c now order c' i msg found) v,
            λ e. cc,
          )
    | inr none_pending ↦ rw none_pending (v, λ e. cc)
  ]
]

after_try-IsValid :
    (c : Consumer) (result : Outcome) (now : ℕ) (order : List (Bytes × ℤ))
    → IsValid c
    → result ≢ panicked
    → IsValid (after_try (c, result) now order).0 × ((after_try (c, result) now order).1 ≢ panicked)
after_try-IsValid c (received i msg) now order v q = (v, q)
after_try-IsValid c (failed err) now order v q = redelivered-IsValid c err now order v
after_try-IsValid c panicked now order v q = absurd (q refl)

-- `Recv` keeps the invariant, and it never writes to a nil map, whatever arrives and in whatever
-- order the maps are visited.
pub recv-IsValid :
    (c : Consumer) (incoming : Incoming) (arrival now : ℕ) (order : List (Bytes × ℤ))
    → IsValid c
    → IsValid (recv c incoming arrival now order).0
      × ((recv c incoming arrival now order).1 ≢ panicked)
unfolding recv
recv-IsValid c incoming arrival now order v = elim (Bool-cases (ltb_ℤ c.padding padding_max)) [
  | inl free ↦
      let free_of : total c.ack_groups < 1024 = ground (arith, v.counted) in
      let below : suc (total c.ack_groups) < 2 ^ 31 = omega (arith, free_of) in
      let tried = try_recv-IsValid c v arrival incoming below in
      rw free (
        after_try-IsValid (try_recv c arrival incoming).0 (try_recv c arrival incoming).1 now order
          tried.0 tried.1)
  | inr full ↦ rw full (redelivered-IsValid c timeout now order v)
]
