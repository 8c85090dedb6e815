-- ===== src/Memcached/Close.antt =====
-- service/mc/: what a command leaves unread, and when it closes the connection.
use wqs.Common.{
  ℕ, zero, suc, ◌+◌, ◌≤◌, ◌<◌, ◌≡◌, refl, ap, Bool, true, false, Option, none, some, List, [], ◌∷◌,
  Bytes, codes, length, take, drop, arith, ltb, Bool-cases, Option-cases, inl, inr, ◌⊎◌, ◌++◌,
}
use wqs.Common.Eq.{bytes_eq}
use wqs.Go.Strings.{cut, cut-length}
use wqs.Go.Strconv.{parse_uint, Parsed}
use wqs.Memcached.{
  Operations, Accumulation, resp_error, Response, Result, EngineError, ok, err, Block, block,
  bad_chunk, bad_format, read_block, crlf, split_key, no_reply_of,
}
use wqs.Memcached.Store.{
  command_set, command_ack, command_eack, set_block, set_fields, stored-open, acknowledged,
  acknowledged-open, eack_block, eack_fields,
}
use wqs.Memcached.Get.{command_get, receive_all, Pair, get_answer}
use wqs.Memcached.Server.{
  command_stats, accumulation_answer, execute, command_of, Command, getting, setting, acking,
  eacking, stating, unkown, run_command, after_command, conn_loop, tokens_of,
}

-- A command that started from `s` and `input` reads on from its place, and closes the connection
-- only if it did not touch the queue.
pub record IsOrderly {S : Type 0} (s : S) (input : Bytes) (r : Response S) : Type 0 where
  pub onward : length r.input ≤ length input
  pub untouched : (r.close ≡ false) ⊎ (r.queue ≡ s)

length-drop_le : (n : ℕ) (input : Bytes) → length (drop n input) ≤ length input
length-drop_le zero input = omega arith
length-drop_le (suc n) [] = omega arith
length-drop_le (suc n) (x ∷ input) = omega (arith, length-drop_le n input)

abbrev unread : Block → Bytes
unread (block value rest) = rest
unread (bad_chunk rest) = rest

read_block-unread : (input : Bytes) (n : ℕ) → length (unread (read_block input n)) ≤ length input
unfolding read_block
read_block-unread input n = elim (Bool-cases (ltb (length input) (n + 2))) [
  | inl short ↦ rw short (omega arith)
  | inr long ↦ elim (Bool-cases (bytes_eq (take 2 (drop n input)) crlf)) [
    | inl ends ↦ rw (long, ends) (length-drop_le (n + 2) input)
    | inr wrong ↦ rw (long, wrong) (length-drop_le (n + 2) input)
  ]
]

module _ {S : Type 0} (q : Operations S) where
  refused-IsOrderly : (s : S) (input : Bytes) → IsOrderly s input (bad_format s input)
  refused-IsOrderly s input = record { onward = omega arith; untouched = inr refl }

  set_block-IsOrderly :
      (cmd : Bytes) (parts : Bytes × Bytes) (flag : ℕ) (silent : Bool) (s : S) (input : Bytes)
      (b : Block)
      → length (unread b) ≤ length input
      → IsOrderly s input (set_block q cmd parts flag silent s b)
  set_block-IsOrderly cmd (queue, group) flag silent s input (bad_chunk rest) h = record {
    onward = h;
    untouched = inr refl;
  }
  set_block-IsOrderly cmd (queue, group) flag silent s input (block value rest) h =
      let (e, same, stays) =
        stored-open q cmd silent rest (q.send_message s queue group value flag) in
      record { onward = omega (arith, h, ap (λ (b : Bytes). length b) same); untouched = inl stays }

  command_set-IsOrderly :
      (s : S) (tokens : List Bytes) (input : Bytes)
      → IsOrderly s input (command_set q s tokens input)
  unfolding command_set
  command_set-IsOrderly s (cmd ∷ key ∷ flag ∷ exptime ∷ len ∷ options) input =
      fields (no_reply_of options) (parse_uint 10 32 flag) (parse_uint 10 32 len)
    where
      fields :
          (o : Option Bool) (flag len : Parsed ℕ)
          → IsOrderly s input (set_fields q cmd key o flag len s input)
      fields none flag len = refused-IsOrderly s input
      fields (some silent) (flag, some e) len = refused-IsOrderly s input
      fields (some silent) (flag, none) (n, some e) = refused-IsOrderly s input
      fields (some silent) (flag, none) (n, none) =
          set_block-IsOrderly cmd (split_key key) flag silent s input (read_block input n)
            (read_block-unread input n)
  command_set-IsOrderly s tokens input = refused-IsOrderly s input

  acknowledged-IsOrderly :
      (silent : Bool) (s : S) (input rest : Bytes) (r : S × Option EngineError)
      → length rest ≤ length input
      → IsOrderly s input (acknowledged q silent rest r)
  acknowledged-IsOrderly silent s input rest r h =
      let (same, stays) = acknowledged-open q silent rest r in
      record { onward = omega (arith, h, ap (λ (b : Bytes). length b) same); untouched = inl stays }

  command_ack-IsOrderly :
      (s : S) (tokens : List Bytes) (input : Bytes)
      → IsOrderly s input (command_ack q s tokens input)
  unfolding command_ack
  command_ack-IsOrderly s (cmd ∷ key ∷ id ∷ options) input = fields (no_reply_of options)
    where
      fields :
          (o : Option Bool)
          → IsOrderly s input (elim o [
            | none ↦ bad_format s input
            | some silent ↦
                acknowledged q silent input (q.ack_message s (split_key key).0 (split_key key).1 id)
          ])
      fields none = refused-IsOrderly s input
      fields (some silent) =
          acknowledged-IsOrderly silent s input input
            (q.ack_message s (split_key key).0 (split_key key).1 id) (omega arith)
  command_ack-IsOrderly s tokens input = refused-IsOrderly s input

  command_eack-IsOrderly :
      (s : S) (tokens : List Bytes) (input : Bytes)
      → IsOrderly s input (command_eack q s tokens input)
  unfolding command_eack
  command_eack-IsOrderly s (cmd ∷ key ∷ flag ∷ exptime ∷ len ∷ options) input =
      fields (no_reply_of options) (parse_uint 10 32 flag) (parse_uint 10 32 len)
    where
      blocks :
          (parts : Bytes × Bytes) (silent : Bool) (b : Block)
          → length (unread b) ≤ length input
          → IsOrderly s input (eack_block q parts silent s b)
      blocks (queue, group) silent (bad_chunk rest) h = record { onward = h; untouched = inr refl }
      blocks (queue, group) silent (block id rest) h =
          acknowledged-IsOrderly silent s input rest (q.ack_message s queue group id) h

      fields :
          (o : Option Bool) (flag len : Parsed ℕ)
          → IsOrderly s input (eack_fields q key o flag len s input)
      fields none flag len = refused-IsOrderly s input
      fields (some silent) (flag, some e) len = refused-IsOrderly s input
      fields (some silent) (flag, none) (n, some e) = refused-IsOrderly s input
      fields (some silent) (flag, none) (n, none) =
          blocks (split_key key) silent (read_block input n) (read_block-unread input n)
  command_eack-IsOrderly s tokens input = refused-IsOrderly s input

  command_get-IsOrderly :
      (s : S) (tokens : List Bytes) (input : Bytes)
      → IsOrderly s input (command_get q s tokens input)
  unfolding command_get
  command_get-IsOrderly s (cmd ∷ key ∷ keys) input = answered (receive_all q cmd (key ∷ keys) s)
    where
      answered : (r : S × (Bytes ⊎ List Pair)) → IsOrderly s input (get_answer q cmd input r)
      answered (t, inl text) = record { onward = omega arith; untouched = inl refl }
      answered (t, inr ps) = record { onward = omega arith; untouched = inl refl }
  command_get-IsOrderly s tokens input = record { onward = omega arith; untouched = inr refl }

module _ {S : Type 0} (q : Operations S) (statistics : Bytes) where
  command_stats-IsOrderly :
      (s : S) (tokens : List Bytes) (input : Bytes)
      → IsOrderly s input (command_stats q statistics s tokens input)
  unfolding command_stats
  command_stats-IsOrderly s (cmd ∷ []) input = record { onward = omega arith; untouched = inl refl }
  command_stats-IsOrderly s (cmd ∷ what ∷ []) input = asked (bytes_eq what (codes "queue"))
    where
      answered :
          (r : S × Result (List Accumulation))
          → IsOrderly s input (accumulation_answer q statistics input r)
      answered (t, err e) = record { onward = omega arith; untouched = inl refl }
      answered (t, ok infos) = record { onward = omega arith; untouched = inl refl }

      asked :
          (b : Bool)
          → IsOrderly s input (elim b [
            | true ↦ accumulation_answer q statistics input (q.accumulation_status s)
            | false ↦ record { queue = s; input = input; output = resp_error; close = false }
          ])
      asked true = answered (q.accumulation_status s)
      asked false = record { onward = omega arith; untouched = inl refl }
  command_stats-IsOrderly s tokens input = refused-IsOrderly q s input

  -- No command gives input back, and one that closes the connection has not changed the queue.
  pub execute-IsOrderly :
      (s : S) (tokens : List Bytes) (input : Bytes)
      → IsOrderly s input (execute q statistics s tokens input)
  unfolding execute
  execute-IsOrderly s [] input = record { onward = omega arith; untouched = inr refl }
  execute-IsOrderly s (name ∷ args) input = run (command_of q statistics name)
    where
      run :
          (c : Command q statistics)
          → IsOrderly s input (run_command q statistics c s (name ∷ args) input)
      run getting = command_get-IsOrderly q s (name ∷ args) input
      run setting = command_set-IsOrderly q s (name ∷ args) input
      run acking = command_ack-IsOrderly q s (name ∷ args) input
      run eacking = command_eack-IsOrderly q s (name ∷ args) input
      run stating = command_stats-IsOrderly s (name ∷ args) input
      run unkown = record { onward = omega arith; untouched = inr refl }

  -- Both loops return, and the same.
  Agree : Option (S × Bytes) → Option (S × Bytes) → Type 0
  Agree x y = (r : S × Bytes) × (x ≡ some r) × (y ≡ some r)

  after_command-Agree :
      (f g : S → Bytes → Option (S × Bytes)) (r : Response S)
      → Agree (f r.queue r.input) (g r.queue r.input)
      → Agree (after_command q statistics f r) (after_command q statistics g r)
  unfolding Agree
  after_command-Agree f g r ((t, text), left, right) = elim (Bool-cases r.close) [
    | inl closes ↦ rw closes ((r.queue, r.output), refl, refl)
    | inr stays ↦ rw (stays, left, right) ((t, r.output ++ text), refl, refl)
  ]

  conn_loop-Agree :
      (fuel more : ℕ) (s : S) (input : Bytes)
      → length input < fuel
      → length input < more
      → Agree (conn_loop q statistics fuel s input) (conn_loop q statistics more s input)
  unfolding conn_loop Agree
  conn_loop-Agree zero more s input h h' = absurd (omega arith)
  conn_loop-Agree (suc fuel) zero s input h h' = absurd (omega arith)
  conn_loop-Agree (suc fuel) (suc more) s input h h' = elim (Option-cases (cut 10 input)) [
    | inl ended ↦ rw ended ((s, []), refl, refl)
    | inr ((line, rest), found) ↦
        let r = execute q statistics s (tokens_of q statistics line) rest in
        let shorter = cut-length 10 input line rest found in
        let left = (execute-IsOrderly s (tokens_of q statistics line) rest).onward in
        rw found (
          after_command-Agree (λ t i. conn_loop q statistics fuel t i)
            (λ t i. conn_loop q statistics more t i) r
            (conn_loop-Agree fuel more r.queue r.input (omega (arith, shorter, left, h))
              (omega (arith, shorter, left, h'))))
  ]

  -- The loop of a connection returns, at the latest in the round after as many rounds as there are
  -- bytes of input; and more rounds give the same.
  pub conn_loop-fuel :
      (extra : ℕ) (s : S) (input : Bytes)
      → (r : S × Bytes) × (conn_loop q statistics (suc (length input)) s input ≡ some r)
        × (conn_loop q statistics (suc (length input) + extra) s input ≡ some r)
  unfolding Agree
  conn_loop-fuel extra s input =
      conn_loop-Agree (suc (length input)) (suc (length input) + extra) s input (omega arith)
        (omega arith)
