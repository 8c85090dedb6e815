-- ===== src/Queue/Tests.antt =====
-- Message ids and id generators at concrete inputs, and the theorems on them.
use wqs.Common.{ℕ, ◌+◌, ◌*◌, ◌^◌, ◌≡◌, refl, none, some, [], ◌∷◌, List, Bytes, arith, codes}
use wqs.Common.Int.{pos}
use wqs.Go.Strings.{split_n, cut}
use wqs.Go.Strconv.{format_int, format_uint, digits, parse_int, parse_uint, scan}
use wqs.Queue.MessageId.{MessageId, parse, to_string, bad_message_id, parse-to_string}
use wqs.Queue.IdGenerator.{IdGenerator, get, get_all, take_ticks, Paced, Rising, get_all-Rising}

abbrev blank : MessageId
blank = record { queue = []; group = []; idc = []; partition = pos 0; offset = pos 0; sequence = 0 }

abbrev sent : MessageId
sent = record {
  queue = codes "q1";
  group = codes "g";
  idc = codes "a:b";
  partition = pos 3;
  offset = pos 255;
  sequence = 4096;
}

abbrev sent_id : Bytes
sent_id = codes "1000:q1:g:3:ff:a:b"

to_string-sent : to_string sent ≡ sent_id
unfolding to_string format_int format_uint digits
to_string-sent = refl

-- The error of a partition out of range comes after the texts are set.
parse_partition_too_large :
    parse blank (codes "1:q:g:80000000:0:i")
    ≡ (record blank { queue = codes "q"; group = codes "g"; idc = codes "i" }, some bad_message_id)
unfolding parse split_n cut parse_int parse_uint scan
parse_partition_too_large = refl

parse-to_string_example : parse blank (to_string sent) ≡ (record sent { sequence = 0 }, none)
parse-to_string_example =
    parse-to_string blank sent ((λ e. ground arith), ((λ e. ground arith), tt))
      ((λ e. ground arith), tt) (omega arith, omega arith) (omega arith, omega arith)

abbrev generator : IdGenerator
generator = record { t = 1000; sequence = 0; id = 5 }

abbrev calls : List (List ℕ)
calls = [] ∷ [] ∷ (1001 ∷ 1003 ∷ []) ∷ []

get_all-calls :
    get_all generator calls
    ≡ (1000 * 2 ^ 24 + 5 * 2 ^ 14)
      ∷ (1000 * 2 ^ 24 + 5 * 2 ^ 14 + 1)
      ∷ (1003 * 2 ^ 24 + 5 * 2 ^ 14)
      ∷ []
unfolding get_all get take_ticks
get_all-calls = refl

-- The sequence wraps: the id of the call number 2 ^ 14 after a tick is the first one's again.
wrapped : (get (record generator { sequence = 2 ^ 14 }) []).1 ≡ (get generator []).1
unfolding get take_ticks
wrapped = refl

calls-Paced : Paced generator calls
unfolding Paced Rising get take_ticks
calls-Paced = (
  tt,
  tt,
  omega arith,
  (
    tt,
    tt,
    omega arith,
    ((omega arith, (omega arith, tt)), (omega arith, (omega arith, tt)), omega arith, tt),
  ),
)

get_all-Rising_example : Rising (1000 * 2 ^ 24 + 5 * 2 ^ 14) (get_all generator calls)
get_all-Rising_example = get_all-Rising generator calls (omega arith) (omega arith) calls-Paced
