-- ===== src/Memcached/Store.antt =====
-- service/mc/command_set.go and command_ack.go.
use wqs.Common.{
  ◌≡◌, refl, ℕ, Bool, true, false, Option, none, some, List, ◌∷◌, ◌++◌, Bytes, if◌then◌else◌,
}
use wqs.Common.Eq.{bytes_eq}
use wqs.Go.Strconv.{Parsed, parse_uint}
use wqs.Memcached.{
  EngineError, Result, ok, err, Operations, Response, crlf, resp_stored, resp_bad_datachunk,
  engine_error, cmd_eset, split_key, Block, block, bad_chunk, read_block, no_reply_of, bad_format,
  answer,
}

module _ {S : Type 0} (q : Operations S) where
  abbrev pub stored : Bytes → Bool → Bytes → S × Result Bytes → Response S
  stored cmd silent input (s, err e) = record {
    queue = s;
    input = input;
    output = engine_error e;
    close = false;
  }
  stored cmd silent input (s, ok id) =
      answer silent (if bytes_eq cmd cmd_eset then id ++ crlf else resp_stored) s input

  -- Whatever the queue says, its state stays, the input stays, and the connection is kept.
  pub stored-open :
      (cmd : Bytes) (silent : Bool) (input : Bytes) (r : S × Result Bytes)
      → ((stored cmd silent input r).queue ≡ r.0)
        × ((stored cmd silent input r).input ≡ input)
        × ((stored cmd silent input r).close ≡ false)
  stored-open cmd silent input (s, err e) = (refl, refl, refl)
  stored-open cmd silent input (s, ok id) = (refl, refl, refl)

  abbrev pub acknowledged : Bool → Bytes → S × Option EngineError → Response S
  acknowledged silent input (s, some e) = record {
    queue = s;
    input = input;
    output = engine_error e;
    close = false;
  }
  acknowledged silent input (s, none) = answer silent resp_stored s input

  pub acknowledged-open :
      (silent : Bool) (input : Bytes) (r : S × Option EngineError)
      → ((acknowledged silent input r).input ≡ input)
        × ((acknowledged silent input r).close ≡ false)
  acknowledged-open silent input (s, some e) = (refl, refl)
  acknowledged-open silent input (s, none) = (refl, refl)

  abbrev pub bad_block : S → Bytes → Response S
  bad_block s input = record { queue = s; input = input; output = resp_bad_datachunk; close = true }

  abbrev pub set_block : Bytes → Bytes × Bytes → ℕ → Bool → S → Block → Response S
  set_block cmd (queue, group) flag silent s (bad_chunk rest) = bad_block s rest
  set_block cmd (queue, group) flag silent s (block value rest) =
      stored cmd silent rest (q.send_message s queue group value flag)

  abbrev pub set_fields : Bytes → Bytes → Option Bool → Parsed ℕ → Parsed ℕ → S → Bytes → Response S
  set_fields cmd key none flag len s input = bad_format s input
  set_fields cmd key (some silent) (flag, some e) len s input = bad_format s input
  set_fields cmd key (some silent) (flag, none) (n, some e) s input = bad_format s input
  set_fields cmd key (some silent) (flag, none) (n, none) s input =
      set_block cmd (split_key key) flag silent s (read_block input n)

  unfoldable pub command_set : S → List Bytes → Bytes → Response S
  command_set s (cmd ∷ key ∷ flag ∷ exptime ∷ len ∷ options) input =
      set_fields cmd key (no_reply_of options) (parse_uint 10 32 flag) (parse_uint 10 32 len) s
        input
  command_set s tokens input = bad_format s input

  unfoldable pub command_ack : S → List Bytes → Bytes → Response S
  command_ack s (cmd ∷ key ∷ id ∷ options) input = elim (no_reply_of options) [
    | none ↦ bad_format s input
    | some silent ↦
        let (queue, group) = split_key key in
        acknowledged silent input (q.ack_message s queue group id)
  ]
  command_ack s tokens input = bad_format s input

  abbrev pub eack_block : Bytes × Bytes → Bool → S → Block → Response S
  eack_block (queue, group) silent s (bad_chunk rest) = bad_block s rest
  eack_block (queue, group) silent s (block id rest) =
      acknowledged silent rest (q.ack_message s queue group id)

  abbrev pub eack_fields : Bytes → Option Bool → Parsed ℕ → Parsed ℕ → S → Bytes → Response S
  eack_fields key none flag len s input = bad_format s input
  eack_fields key (some silent) (flag, some e) len s input = bad_format s input
  eack_fields key (some silent) (flag, none) (n, some e) s input = bad_format s input
  eack_fields key (some silent) (flag, none) (n, none) s input =
      eack_block (split_key key) silent s (read_block input n)

  unfoldable pub command_eack : S → List Bytes → Bytes → Response S
  command_eack s (cmd ∷ key ∷ flag ∷ exptime ∷ len ∷ options) input =
      eack_fields key (no_reply_of options) (parse_uint 10 32 flag) (parse_uint 10 32 len) s input
  command_eack s tokens input = bad_format s input
