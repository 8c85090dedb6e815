-- ===== src/Memcached/Blocks.antt =====
-- service/mc/: a data block is read by its length, whatever bytes it holds.
use wqs.Common.{
  ℕ, suc, ◌+◌, ◌≡◌, ap, ◌∙◌, true, false, none, [], ◌∷◌, ◌++◌, Bytes, ltb, length, take, drop,
  take-append, drop-append, length-append, arith,
}
use wqs.Common.Eq.{bytes_eq, bytes_eq_iff}
use wqs.Go.Strconv.{parse_uint}
use wqs.Memcached.{Operations, block, read_block, crlf, split_key}
use wqs.Memcached.Store.{command_set, stored-open}

drop_suffix : (a b : Bytes) (k : ℕ) → drop (length a + k) (a ++ b) ≡ drop k b
drop_suffix [] b k = ap (λ (n : ℕ). drop n b) {x = 0 + k} {y = k} (omega arith)
drop_suffix (x ∷ a) b k =
    ap (λ (n : ℕ). drop n (x ∷ (a ++ b))) {x = suc (length a) + k} {y = suc (length a + k)}
      (omega arith)
    ∙ drop_suffix a b k

read_block-append :
    (value rest : Bytes) → read_block (value ++ (crlf ++ rest)) (length value) ≡ block value rest
unfolding read_block
read_block-append value rest =
    let long : ltb (length (value ++ (crlf ++ rest))) (length value + 2) ≡ false =
      ground (arith, length-append value (crlf ++ rest)) in
    let ends : bytes_eq (take 2 (drop (length value) (value ++ (crlf ++ rest)))) crlf ≡ true =
      (bytes_eq_iff _ crlf).1 (ap (λ b. take 2 b) (drop-append value (crlf ++ rest))) in
    rw (long, ends, take-append value (crlf ++ rest), drop_suffix value (crlf ++ rest) 2)

-- A set command with good numbers hands exactly the announced bytes to the queue, whatever they
-- are, leaves unread what follows their end of line, and keeps the connection open.
pub command_set-append :
    {S : Type 0} (q : Operations S) (s : S) (cmd key flag_text exptime len_text value rest : Bytes)
    (flag : ℕ)
    → parse_uint 10 32 flag_text ≡ (flag, none)
    → parse_uint 10 32 len_text ≡ (length value, none)
    → let r =
        command_set q s
          (cmd ∷ key ∷ flag_text ∷ exptime ∷ len_text ∷ [])
          (value ++ (crlf ++ rest)) in
      (r.queue ≡ (q.send_message s (split_key key).0 (split_key key).1 value flag).0)
      × (r.input ≡ rest)
      × (r.close ≡ false)
unfolding command_set
command_set-append q s cmd key flag_text exptime len_text value rest flag hf hl =
    rw (hf, hl, read_block-append value rest)
      (stored-open q cmd false rest
        (q.send_message s (split_key key).0 (split_key key).1 value flag))
