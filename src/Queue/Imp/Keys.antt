-- ===== src/Queue/Imp/Keys.antt =====
-- The key of a Kafka message, which carries the sequence and the flag.
use wqs.Common.{ℕ, ◌<◌, ◌^◌, ◌≡◌, ap, ◌∙◌, [], ◌∷◌, ◌++◌, arith}
use wqs.Go.Strings.{split, split-cut, split-cut_absent, cut-append, cut-Free}
use wqs.Go.Strconv.{Parsed, format_uint, parse_uint}
use wqs.Go.Strconv.Hex.{parse_uint-format_uint, format_uint-Free}
use wqs.Queue.Imp.Messages.{key_of, read_key, sequence_in, flag_in}

split-key :
    (sequence flag : ℕ)
    → split b':' (format_uint 16 sequence ++ (b':' ∷ format_uint 16 flag))
      ≡ format_uint 16 sequence ∷ format_uint 16 flag ∷ []
split-key sequence flag =
    split-cut b':' (format_uint 16 sequence ++ (b':' ∷ format_uint 16 flag))
      (format_uint 16 sequence) (format_uint 16 flag)
      (cut-append b':' (format_uint 16 sequence) (format_uint 16 flag) (format_uint-Free sequence))
    ∙ ap (λ ts. format_uint 16 sequence ∷ ts)
        (split-cut_absent b':' (format_uint 16 flag)
          (cut-Free b':' (format_uint 16 flag) (format_uint-Free flag)))

-- From the key that SendMessage gives to Kafka, RecvMessage reads the same sequence and the same
-- flag, for a sequence of 64 bits and a flag of 32 bits.
pub read_key-key_of :
    (sequence flag : ℕ)
    → sequence < 2 ^ 64
    → flag < 2 ^ 32
    → read_key (key_of sequence flag) ≡ (sequence, flag)
unfolding read_key key_of
read_key-key_of sequence flag h k =
    ap (λ ts. (sequence_in ts, flag_in ts)) (split-key sequence flag)
    ∙ ap (λ (p : Parsed ℕ). (p.0, (parse_uint 16 32 (format_uint 16 flag)).0))
        (parse_uint-format_uint 64 sequence h (omega arith))
    ∙ ap (λ (p : Parsed ℕ). (sequence, p.0))
        (parse_uint-format_uint 32 flag (omega arith) (omega arith))
