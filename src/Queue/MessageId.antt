-- ===== src/Queue/MessageId.antt =====
-- engine/queue/message_id.go: the message id that a client gets, and its text.
use wqs.Common.{
  ℕ, ◌<◌, ◌≡◌, refl, ap, ◌∙◌, Option, none, some, List, [], ◌∷◌, ◌++◌, Bytes, arith, length,
}
use wqs.Common.Int.{ℤ, InInt32, InInt64, int32, int32_of_range}
use wqs.Go.Strings.{split_n, split_n_one, split_n-append, length-split_n, Free, occurrences}
use wqs.Go.Strconv.{Parsed, format_int, format_uint, parse_int}
use wqs.Go.Strconv.Hex.{
  parse_int-format_int32, parse_int-format_int64, format_uint-Free, format_int-Free,
}

pub data IdError : Type 0 where
  bad_message_id : IdError

pub record MessageId : Type 0 where
  pub queue : Bytes
  pub group : Bytes
  pub idc : Bytes
  pub partition : ℤ
  pub offset : ℤ
  pub sequence : ℕ

-- A method with a pointer receiver: the receiver afterwards and the error.
abbrev Receiver : Type 0
Receiver = MessageId × Option IdError

abbrev parse_offset : MessageId → Parsed ℤ → Receiver
parse_offset m (offset, none) = (record m { offset = offset }, none)
parse_offset m (offset, some err) = (record m { offset = offset }, some bad_message_id)

abbrev parse_partition : MessageId → Parsed ℤ → Bytes → Receiver
parse_partition m (partition, none) offset =
    parse_offset (record m { partition = int32 partition }) (parse_int 16 64 offset)
parse_partition m (partition, some err) offset = (m, some bad_message_id)

abbrev parse_tokens : MessageId → List Bytes → Receiver
parse_tokens m (t0 ∷ t1 ∷ t2 ∷ t3 ∷ t4 ∷ t5 ∷ []) =
    parse_partition (record m { queue = t1; group = t2; idc = t5 }) (parse_int 16 32 t3) t4
parse_tokens m tokens = (m, some bad_message_id)

unfoldable pub parse : MessageId → Bytes → Receiver
parse m id = parse_tokens m (split_n b':' id 6)

unfoldable pub to_string : MessageId → Bytes
to_string m =
    format_uint 16 m.sequence
    ++ b':'
      ∷ (m.queue
          ++ b':'
            ∷ (m.group
                ++ b':'
                  ∷ (format_int 16 m.partition ++ b':' ∷ (format_int 16 m.offset ++ b':' ∷ m.idc))))

parse_tokens_bad :
    (m : MessageId) (tokens : List Bytes)
    → length tokens < 6
    → parse_tokens m tokens ≡ (m, some bad_message_id)
parse_tokens_bad m [] h = refl
parse_tokens_bad m (t0 ∷ []) h = refl
parse_tokens_bad m (t0 ∷ t1 ∷ []) h = refl
parse_tokens_bad m (t0 ∷ t1 ∷ t2 ∷ []) h = refl
parse_tokens_bad m (t0 ∷ t1 ∷ t2 ∷ t3 ∷ []) h = refl
parse_tokens_bad m (t0 ∷ t1 ∷ t2 ∷ t3 ∷ t4 ∷ []) h = refl
parse_tokens_bad m (t0 ∷ t1 ∷ t2 ∷ t3 ∷ t4 ∷ t5 ∷ ts) h = absurd (omega arith)

-- A text with fewer than five colons is refused, and the receiver keeps its fields.
pub parse_few :
    (m : MessageId) (id : Bytes) → occurrences b':' id < 5 → parse m id ≡ (m, some bad_message_id)
unfolding parse
parse_few m id h = parse_tokens_bad m (split_n b':' id 6) (omega (arith, length-split_n b':' id 5))

-- Six texts joined by colons split into the six, whatever the last one is.
split_n_six :
    (a b c d e f : Bytes)
    → Free b':' a
    → Free b':' b
    → Free b':' c
    → Free b':' d
    → Free b':' e
    → split_n b':' (a ++ b':' ∷ (b ++ b':' ∷ (c ++ b':' ∷ (d ++ b':' ∷ (e ++ b':' ∷ f))))) 6
      ≡ a ∷ b ∷ c ∷ d ∷ e ∷ f ∷ []
split_n_six a b c d e f ha hb hc hd he =
    let from_e : split_n b':' (e ++ b':' ∷ f) 2 ≡ e ∷ f ∷ [] =
      split_n-append b':' e f 0 he ∙ ap (λ ts. e ∷ ts) (split_n_one b':' f) in
    let from_d : split_n b':' (d ++ b':' ∷ (e ++ b':' ∷ f)) 3 ≡ d ∷ e ∷ f ∷ [] =
      split_n-append b':' d (e ++ b':' ∷ f) 1 hd ∙ ap (λ ts. d ∷ ts) from_e in
    let from_c : split_n b':' (c ++ b':' ∷ (d ++ b':' ∷ (e ++ b':' ∷ f))) 4 ≡ c ∷ d ∷ e ∷ f ∷ [] =
      split_n-append b':' c (d ++ b':' ∷ (e ++ b':' ∷ f)) 2 hc ∙ ap (λ ts. c ∷ ts) from_d in
    let from_b : split_n b':' (b ++ b':' ∷ (c ++ b':' ∷ (d ++ b':' ∷ (e ++ b':' ∷ f)))) 5
        ≡ b ∷ c ∷ d ∷ e ∷ f ∷ [] =
      split_n-append b':' b (c ++ b':' ∷ (d ++ b':' ∷ (e ++ b':' ∷ f))) 3 hb
      ∙ ap (λ ts. b ∷ ts) from_c in
    split_n-append b':' a (b ++ b':' ∷ (c ++ b':' ∷ (d ++ b':' ∷ (e ++ b':' ∷ f)))) 4 ha
    ∙ ap (λ ts. a ∷ ts) from_b

-- An id whose queue and group have no colon and whose numbers are in range is read back by Parse,
-- into any receiver: every field but the sequence, which keeps the receiver's value. The IDC may
-- hold colons.
pub parse-to_string :
    (m0 m : MessageId)
    → Free b':' m.queue
    → Free b':' m.group
    → InInt32 m.partition
    → InInt64 m.offset
    → parse m0 (to_string m) ≡ (record m { sequence = m0.sequence }, none)
unfolding parse to_string
parse-to_string m0 m q g p o = rw (
  split_n_six (format_uint 16 m.sequence) m.queue m.group (format_int 16 m.partition)
      (format_int 16 m.offset) m.idc (format_uint-Free m.sequence) q g (format_int-Free m.partition)
      (format_int-Free m.offset),
  parse_int-format_int32 m.partition p,
  parse_int-format_int64 m.offset o,
  int32_of_range m.partition p,
)
