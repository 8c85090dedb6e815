-- ===== src/Utils/Buffer.antt =====
-- utils/linereader.go: the buffer of `BufferedLineReader`. The bytes from `start` to `r` were
-- searched without finding a line, those from `r` to `w` were not searched yet.
use wqs.Common.{
  ℕ, zero, suc, ◌+◌, ◌-◌, ◌<◌, ◌≤◌, ◌≡◌, Option, none, some, Option-cases, inl, inr, [], ◌∷◌, ◌++◌,
  Bytes, arith, length, get_elem?, take, drop, ltb, if◌then◌else◌, length-append, length-take,
  length-drop, take-append, Bool-cases, ap, ◌∙◌,
}
use wqs.Utils.Lines.{locate_line_idx, locate_line_idx-EndsAt}

pub record BufferedLineReader : Type 0 where
  pub buff : Bytes
  pub r : ℕ
  pub w : ℕ
  pub start : ℕ

-- `s[a:b]`
abbrev pub slice : Bytes → ℕ → ℕ → Bytes
slice s a b = take (b - a) (drop a s)

abbrev pub taken : BufferedLineReader → Option ℕ → BufferedLineReader × Option Bytes
taken b none = (record b { r = b.w }, none)
taken b (some idx) = (
  record b { start = b.start + idx + 2; r = b.start + idx + 2 },
  some (slice b.buff b.start (b.start + idx)),
)

-- `readLineFromBuffer`
unfoldable pub read_line_from_buffer : BufferedLineReader → BufferedLineReader × Option Bytes
read_line_from_buffer b =
    taken b (locate_line_idx (slice b.buff b.start b.r) (slice b.buff b.r b.w))

pub record IsOrdered (b : BufferedLineReader) : Type 0 where
  pub start_in_order : b.start ≤ b.r
  pub r_in_order : b.r ≤ b.w
  pub within : b.w ≤ length b.buff

-- What is between two indices in order has the length of their distance.
length-slice : (s : Bytes) (a b : ℕ) → b ≤ length s → length (slice s a b) ≡ b - a
length-slice s a b h = omega (arith, length-take (b - a) (drop a s), length-drop a s)

get_elem?-below : (s : Bytes) (i c : ℕ) → get_elem? s i ≡ some c → i < length s
get_elem?-below [] i c h = absurd cc
get_elem?-below (x ∷ s) zero c h = omega arith
get_elem?-below (x ∷ s) (suc i) c h = omega (arith, get_elem?-below s i c h)

-- If the indices are in order and within the buffer, they stay so, whether a line is found or not.
pub read_line_from_buffer-IsOrdered :
    (b : BufferedLineReader) → IsOrdered b → IsOrdered (read_line_from_buffer b).0
unfolding read_line_from_buffer
read_line_from_buffer-IsOrdered b ok =
    elim (Option-cases (locate_line_idx (slice b.buff b.start b.r) (slice b.buff b.r b.w))) [
      | inl missing ↦ rw missing (record {
        start_in_order = omega (arith, ok.start_in_order, ok.r_in_order);
        r_in_order = omega arith;
        within = ok.within;
      })
      | inr (idx, found) ↦
          let (cr, lf) =
            locate_line_idx-EndsAt (slice b.buff b.start b.r) (slice b.buff b.r b.w) idx found in
          let fits =
            get_elem?-below (slice b.buff b.start b.r ++ slice b.buff b.r b.w) (suc idx) 10 lf in
          let total = length-append (slice b.buff b.start b.r) (slice b.buff b.r b.w) in
          let first = length-slice b.buff b.start b.r (omega (arith, ok.r_in_order, ok.within)) in
          let second = length-slice b.buff b.r b.w ok.within in
          rw found (record {
            start_in_order = omega arith;
            r_in_order =
                omega (arith, fits, total, first, second, ok.start_in_order, ok.r_in_order);
            within = ok.within;
          })
    ]

-- `copy(buff[0:], s)` for an `s` that fits.
abbrev pub copy_front : Bytes → Bytes → Bytes
copy_front s buff = s ++ drop (length s) buff

-- `Reset`
unfoldable pub reset : BufferedLineReader → BufferedLineReader
reset b = record {
  buff = if ltb b.r b.w then copy_front (slice b.buff b.r b.w) b.buff else b.buff;
  w = b.w - b.r;
  r = 0;
  start = 0;
}

-- Reset of a buffer in order moves the bytes that were not searched yet to the front, and keeps them all.
pub reset-unread :
    (b : BufferedLineReader)
    → IsOrdered b
    → slice (reset b).buff (reset b).r (reset b).w ≡ slice b.buff b.r b.w
unfolding reset
reset-unread b ok = elim (Bool-cases (ltb b.r b.w)) [
  | inl some_left ↦
      let len = length-slice b.buff b.r b.w ok.within in
      rw some_left (
        ap (λ (n : ℕ). take n (copy_front (slice b.buff b.r b.w) b.buff)) {x = b.w - b.r - 0}
          {y = length (slice b.buff b.r b.w)} (omega (arith, len))
        ∙ take-append (slice b.buff b.r b.w) (drop (length (slice b.buff b.r b.w)) b.buff))
  | inr none_left ↦
      let nothing : b.w - b.r ≡ 0 = ground arith in
      rw none_left (
        ap (λ (n : ℕ). take n b.buff) {x = b.w - b.r - 0} {y = 0} (omega (arith, nothing))
        ∙ ap (λ (n : ℕ). take n (drop b.r b.buff)) {x = 0} {y = b.w - b.r} (omega (arith, nothing)))
]
