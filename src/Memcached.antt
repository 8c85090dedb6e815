-- ===== src/Memcached.antt =====
-- service/mc/: the memcached protocol. A command gets the state of the queue, the tokens of the
-- request line and the bytes that follow it on the connection, and gives the state, the bytes left,
-- what it writes, and whether the connection must be closed.
pub mod Store
pub mod Get
pub mod Server
pub mod Blocks
pub mod Close
pub mod Eget
mod Tests
use wqs.Common.{
  ℕ, zero, suc, ◌+◌, ◌%◌, ◌≡◌, Bool, true, false, Option, none, some, ◌⊎◌, inl, inr, List, [], ◌∷◌,
  ◌++◌, Bytes, codes, ◌==◌, ltb, not, ◌&&◌, ◌||◌, if◌then◌else◌, length, take, drop,
}
use wqs.Common.Eq.{bytes_eq}
use wqs.Common.Int.{ℤ}
use wqs.Go.Strings.{split_n, split, trim_space, cut}
use wqs.Go.Strconv.{Parsed, parse_uint, format_uint, format_int}

-- `kafka.ErrTimeout`, or an error with this text.
pub data EngineError : Type 0 where
  timeout : EngineError
  failed : Bytes → EngineError

abbrev pub text_of : EngineError → Bytes
text_of timeout = codes "timeout"
text_of (failed text) = text

pub data Result (A : Type 0) : Type 0 where
  ok : A → Result A
  err : EngineError → Result A

pub record Delivery : Type 0 where
  pub id : Bytes
  pub value : Bytes
  pub flag : ℕ

-- `queue.AccumulationInfo`
pub record Accumulation : Type 0 where
  pub group : Bytes
  pub queue : Bytes
  pub total : ℤ
  pub consumed : ℤ

-- The operations of `queue.Queue` that the commands call, on the states of a queue.
pub record Operations (S : Type 0) : Type 0 where
  pub send_message : S → Bytes → Bytes → Bytes → ℕ → S × Result Bytes
  pub recv_message : S → Bytes → Bytes → S × Result Delivery
  pub ack_message : S → Bytes → Bytes → Bytes → S × Option EngineError
  pub accumulation_status : S → S × Result (List Accumulation)

pub record Response (S : Type 0) : Type 0 where
  pub queue : S
  pub input : Bytes
  pub output : Bytes
  pub close : Bool

abbrev pub crlf : Bytes
crlf = 13 ∷ 10 ∷ []

abbrev pub no_reply : Bytes
no_reply = codes "noreply"

abbrev pub resp_end : Bytes
resp_end = codes "END" ++ crlf

abbrev pub resp_error : Bytes
resp_error = codes "ERROR" ++ crlf

abbrev pub resp_stored : Bytes
resp_stored = codes "STORED" ++ crlf

abbrev pub resp_bad_datachunk : Bytes
resp_bad_datachunk = codes "CLIENT_ERROR bad data chunk" ++ crlf

abbrev pub resp_bad_cmd_format : Bytes
resp_bad_cmd_format = codes "CLIENT_ERROR bad command line format" ++ crlf

abbrev pub engine_error : EngineError → Bytes
engine_error e = codes "SERVER_ERROR engine error " ++ text_of e ++ crlf

abbrev pub cmd_get : Bytes
cmd_get = codes "get"

abbrev pub cmd_eget : Bytes
cmd_eget = codes "eget"

abbrev pub cmd_eset : Bytes
cmd_eset = codes "eset"

-- The queue and the group of a key: "group.queue", or "queue" in the default group.
abbrev key_parts : List Bytes → Bytes × Bytes
key_parts (group ∷ queue ∷ []) = (queue, group)
key_parts (queue ∷ ts) = (queue, codes "default")
key_parts [] = ([], codes "default")

unfoldable pub split_key : Bytes → Bytes × Bytes
split_key key = key_parts (split_n b'.' key 2)

-- What a data block is: a value and its end, or a bad chunk with what is left unread.
pub data Block : Type 0 where
  block : Bytes → Bytes → Block
  bad_chunk : Bytes → Block

-- `io.ReadAtLeast` of n + 2 bytes and the check that the last two are the end of a line.
unfoldable pub read_block : Bytes → ℕ → Block
read_block input n =
    if ltb (length input) (n + 2)
    then bad_chunk []
    else if bytes_eq (take 2 (drop n input)) crlf
    then block (take n input) (drop (n + 2) input)
    else bad_chunk (drop (n + 2) input)

-- The optional last token: whether it is there, or no such token.
abbrev pub no_reply_of : List Bytes → Option Bool
no_reply_of [] = some false
no_reply_of (t ∷ []) = if bytes_eq t no_reply then some true else none
no_reply_of (t ∷ u ∷ ts) = none

module _ {S : Type 0} where
  abbrev pub bad_format : S → Bytes → Response S
  bad_format s input = record {
    queue = s;
    input = input;
    output = resp_bad_cmd_format;
    close = true;
  }

  abbrev pub answer : Bool → Bytes → S → Bytes → Response S
  answer silent text s input = record {
    queue = s;
    input = input;
    output = if silent then [] else text;
    close = false;
  }
