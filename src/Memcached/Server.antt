-- ===== src/Memcached/Server.antt =====
-- service/mc/command_stats.go, the table of commands of command.go, and the loop of a connection of
-- memcached.go.
use wqs.Common.{
  ℕ, zero, suc, true, false, Option, none, some, List, [], ◌∷◌, ◌++◌, Bytes, codes, ◌||◌,
  if◌then◌else◌,
}
use wqs.Common.Eq.{bytes_eq}
use wqs.Go.Strings.{split, trim_space, cut}
use wqs.Go.Strconv.{format_int}
use wqs.Memcached.{
  Result, ok, err, Accumulation, Operations, Response, crlf, resp_end, resp_error, engine_error,
  cmd_get, cmd_eget, cmd_eset, bad_format,
}
use wqs.Memcached.Store.{command_set, command_ack, command_eack}
use wqs.Memcached.Get.{command_get}

abbrev pub accumulation_text : Accumulation → Bytes
accumulation_text a =
    codes "STAT "
    ++ a.group
    ++ codes "."
    ++ a.queue
    ++ codes " "
    ++ format_int 10 a.total
    ++ codes "/"
    ++ format_int 10 a.consumed
    ++ codes " "
    ++ crlf

abbrev pub accumulation_texts : List Accumulation → Bytes
accumulation_texts [] = resp_end
accumulation_texts (a ∷ infos) = accumulation_text a ++ accumulation_texts infos

-- `statistics` is the text of the counters of the process, which come from the system.
module _ {S : Type 0} (q : Operations S) (statistics : Bytes) where
  abbrev pub accumulation_answer : Bytes → S × Result (List Accumulation) → Response S
  accumulation_answer input (s, err e) = record {
    queue = s;
    input = input;
    output = engine_error e;
    close = false;
  }
  accumulation_answer input (s, ok infos) = record {
    queue = s;
    input = input;
    output = accumulation_texts infos;
    close = false;
  }

  unfoldable pub command_stats : S → List Bytes → Bytes → Response S
  command_stats s (cmd ∷ []) input = record {
    queue = s;
    input = input;
    output = statistics ++ resp_end;
    close = false;
  }
  command_stats s (cmd ∷ what ∷ []) input = elim (bytes_eq what (codes "queue")) [
    | true ↦ accumulation_answer input (q.accumulation_status s)
    | false ↦ record { queue = s; input = input; output = resp_error; close = false }
  ]
  command_stats s tokens input = bad_format s input

  abbrev pub command_unkown : S → Bytes → Response S
  command_unkown s input = record { queue = s; input = input; output = resp_error; close = true }

  -- The table of commands.
  pub data Command : Type 0 where
    getting setting acking eacking stating unkown : Command

  abbrev pub command_of : Bytes → Command
  command_of name =
      if bytes_eq name cmd_get || bytes_eq name cmd_eget
      then getting
      else if bytes_eq name (codes "set") || bytes_eq name cmd_eset
      then setting
      else if bytes_eq name (codes "ack")
      then acking
      else if bytes_eq name (codes "eack")
      then eacking
      else if bytes_eq name (codes "stats")
      then stating
      else unkown

  abbrev pub run_command : Command → S → List Bytes → Bytes → Response S
  run_command getting s tokens input = command_get q s tokens input
  run_command setting s tokens input = command_set q s tokens input
  run_command acking s tokens input = command_ack q s tokens input
  run_command eacking s tokens input = command_eack q s tokens input
  run_command stating s tokens input = command_stats s tokens input
  run_command unkown s tokens input = command_unkown s input

  unfoldable pub execute : S → List Bytes → Bytes → Response S
  execute s [] input = command_unkown s input
  execute s (name ∷ args) input = run_command (command_of name) s (name ∷ args) input

  abbrev pub tokens_of : Bytes → List Bytes
  tokens_of line = split 32 (trim_space line)

  abbrev pub written_before : Bytes → Option (S × Bytes) → Option (S × Bytes)
  written_before output none = none
  written_before output (some (t, text)) = some (t, output ++ text)

  abbrev pub after_command : (S → Bytes → Option (S × Bytes)) → Response S → Option (S × Bytes)
  after_command more r = elim r.close [
    | true ↦ some (r.queue, r.output)
    | false ↦ written_before r.output (more r.queue r.input)
  ]

  abbrev pub after_line :
      (S → Bytes → Option (S × Bytes)) → S → Option (Bytes × Bytes) → Option (S × Bytes)
  after_line more s none = some (s, [])
  after_line more s (some (line, rest)) = after_command more (execute s (tokens_of line) rest)

  -- What a connection does with the bytes it gets until it returns: the queue and all it writes.
  -- `none` is a loop that has not returned after so many rounds.
  unfoldable pub conn_loop : ℕ → S → Bytes → Option (S × Bytes)
  conn_loop zero s input = none
  conn_loop (suc fuel) s input = after_line (λ t rest. conn_loop fuel t rest) s (cut 10 input)
