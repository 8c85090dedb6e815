-- ===== src/Go/Strings.antt =====
-- Package strings: splitting at a byte, trimming, searching.
use Prim.Native.Nat.{min}
use wqs.Common.{
  Option-cases, Bool-cases, ap, ◌∙◌, true, inl, inr, ℕ, zero, suc, ◌-◌, ◌≡◌, ◌≢◌, refl, Bool, false,
  ◌&&◌, ◌||◌, Option, none, some, List, [], ◌∷◌, ◌++◌, Bytes, All, arith, ◌==◌, leb, if◌then◌else◌,
  length,
}
use Prim.Native.Nat.{◌<◌}
use mathlib.Core.List.{reverse}

-- The text before the first `sep` and the text behind it.
unfoldable pub cut : ℕ → Bytes → Option (Bytes × Bytes)
cut sep [] = none
cut sep (c ∷ s) =
    let rest = cut sep s in
    if c == sep then some ([], s) else elim rest [ none ↦ none | some (a, b) ↦ some (c ∷ a, b) ]

abbrev split_rest : Bytes → Option (Bytes × Bytes) → (Bytes → List Bytes) → List Bytes
split_rest s none more = s ∷ []
split_rest s (some (a, b)) more = a ∷ more b

-- `strings.SplitN(s, sep, n)` for a positive `n` and a `sep` of one byte.
unfoldable pub split_n : ℕ → Bytes → ℕ → List Bytes
split_n sep s zero = []
split_n sep s (suc zero) = s ∷ []
split_n sep s (suc (suc n)) = split_rest s (cut sep s) (λ b. split_n sep b (suc n))

abbrev cons_first : ℕ → List Bytes → List Bytes
cons_first c [] = (c ∷ []) ∷ []
cons_first c (t ∷ ts) = (c ∷ t) ∷ ts

-- `strings.Split(s, sep)` for a `sep` of one byte.
unfoldable pub split : ℕ → Bytes → List Bytes
split sep [] = [] ∷ []
split sep (c ∷ s) = let rest = split sep s in if c == sep then [] ∷ rest else cons_first c rest

-- The ASCII part of `unicode.IsSpace`.
abbrev pub is_space : ℕ → Bool
is_space c = (c == 32) || (leb 9 c && leb c 13)

-- The rest of `unicode.IsSpace` in UTF-8, two and three bytes long: U+0085 and U+00A0; and U+1680,
-- U+2000 to U+200A, U+2028, U+2029, U+202F, U+205F and U+3000.
abbrev is_space2 : ℕ → ℕ → Bool
is_space2 a b = (a == 194) && ((b == 133) || (b == 160))

abbrev is_space3 : ℕ → ℕ → ℕ → Bool
is_space3 a b c =
    ((a == 225) && ((b == 154) && (c == 128)))
    || (((a == 226)
          && (((b == 128)
                && ((leb 128 c && leb c 138) || ((c == 168) || ((c == 169) || (c == 175)))))
              || ((b == 129) && (c == 159))))
        || ((a == 227) && ((b == 128) && (c == 128))))

abbrev pub first_byte : Bytes → ℕ
first_byte [] = 0
first_byte (a ∷ s) = a

abbrev pub second_byte : Bytes → ℕ
second_byte [] = 0
second_byte (a ∷ s) = first_byte s

-- How many bytes of white space a text begins with; and how many a text ends with that is given
-- from its last byte on.
abbrev pub space_at : ℕ → Bytes → ℕ
space_at c s =
    if is_space c
    then 1
    else if is_space2 c (first_byte s)
    then 2
    else if is_space3 c (first_byte s) (second_byte s)
    then 3
    else 0

abbrev pub space_before : ℕ → Bytes → ℕ
space_before c s =
    if is_space c
    then 1
    else if is_space2 (first_byte s) c
    then 2
    else if is_space3 (second_byte s) (first_byte s) c
    then 3
    else 0

-- The number counts the bytes that are still to go.
unfoldable pub trim_from : (ℕ → Bytes → ℕ) → ℕ → Bytes → Bytes
trim_from space k [] = []
trim_from space zero (c ∷ s) =
    let rest = trim_from space (space c s - 1) s in if space c s == 0 then c ∷ s else rest
trim_from space (suc k) (c ∷ s) = trim_from space k s

-- `strings.TrimSpace(s)`
unfoldable pub trim_space : Bytes → Bytes
unfolding trim_from
trim_space s = reverse (trim_from space_before 0 (reverse (trim_from space_at 0 s)))

-- A byte that is white space, or with which white space of more bytes begins.
abbrev pub begins_space : ℕ → Bool
begins_space c = is_space c || ((c == 194) || ((c == 225) || ((c == 226) || (c == 227))))

-- `strings.Replace(s, c, "", -1)` for a `c` of one byte.
unfoldable pub delete_all : ℕ → Bytes → Bytes
delete_all c [] = []
delete_all c (d ∷ s) = let rest = delete_all c s in if d == c then rest else d ∷ rest

-- `strings.HasPrefix(s, c)` for a `c` of one byte.
abbrev pub has_first : ℕ → Bytes → Bool
has_first c [] = false
has_first c (d ∷ s) = d == c

abbrev pub Free : ℕ → Bytes → Type 0
Free sep = All (λ c. c ≢ sep)

pub cut-append : (sep : ℕ) (a b : Bytes) → Free sep a → cut sep (a ++ sep ∷ b) ≡ some (a, b)
unfolding cut
cut-append sep [] b f = ground arith
cut-append sep (c ∷ a) b f = ground (arith, cut-append sep a b f.1)

pub cut-Free : (sep : ℕ) (a : Bytes) → Free sep a → cut sep a ≡ none
unfolding cut
cut-Free sep [] f = refl
cut-Free sep (c ∷ a) f = ground (arith, cut-Free sep a f.1)

pub split_n_one : (sep : ℕ) (s : Bytes) → split_n sep s 1 ≡ s ∷ []
unfolding split_n
split_n_one sep s = refl

pub split_n-append :
    (sep : ℕ) (a b : Bytes) (n : ℕ)
    → Free sep a
    → split_n sep (a ++ sep ∷ b) (suc (suc n)) ≡ a ∷ split_n sep b (suc n)
unfolding split_n
split_n-append sep a b n f = rw (cut-append sep a b f)

-- How often the separator stands in a text.
unfoldable pub occurrences : ℕ → Bytes → ℕ
occurrences sep [] = 0
occurrences sep (c ∷ s) = let rest = occurrences sep s in if c == sep then suc rest else rest

pub cut-occurrences :
    (sep : ℕ) (s a b : Bytes)
    → cut sep s ≡ some (a, b)
    → occurrences sep s ≡ suc (occurrences sep b)
unfolding cut occurrences
cut-occurrences sep [] a b h = cc
cut-occurrences sep (c ∷ s) a b h = elim (Option-cases (cut sep s)) [
  | inl missing ↦ ground arith
  | inr ((a', b'), found) ↦ ground (arith, cut-occurrences sep s a' b' found)
]

pub cut_absent : (sep : ℕ) (s : Bytes) → cut sep s ≡ none → occurrences sep s ≡ 0
unfolding cut occurrences
cut_absent sep [] h = refl
cut_absent sep (c ∷ s) h = elim (Option-cases (cut sep s)) [
  | inl missing ↦ ground (arith, cut_absent sep s missing)
  | inr ((a', b'), found) ↦ ground arith
]

-- A text with `k` separators splits into at most `k + 1` pieces.
pub length-split_n :
    (sep : ℕ) (s : Bytes) (n : ℕ)
    → length (split_n sep s (suc n)) ≡ min (suc n) (suc (occurrences sep s))
unfolding split_n
length-split_n sep s zero = omega arith
length-split_n sep s (suc n) = elim (Option-cases (cut sep s)) [
  | inl missing ↦ rw missing (omega (arith, cut_absent sep s missing))
  | inr ((a, b), found) ↦
      rw found (omega (arith, cut-occurrences sep s a b found, length-split_n sep b n))
]

pub cut-length : (sep : ℕ) (s a b : Bytes) → cut sep s ≡ some (a, b) → length b < length s
unfolding cut
cut-length sep [] a b h = absurd cc
cut-length sep (c ∷ s) a b h = elim (Option-cases (cut sep s)) [
  | inl missing ↦ ground arith
  | inr ((a', b'), found) ↦ ground (arith, cut-length sep s a' b' found)
]

-- A split goes on behind the first separator.
pub split-cut : (sep : ℕ) (s a b : Bytes) → cut sep s ≡ some (a, b) → split sep s ≡ a ∷ split sep b
unfolding cut split
split-cut sep [] a b h = absurd cc
split-cut sep (c ∷ s) a b h = elim (Option-cases (cut sep s)) [
  | inl missing ↦ ground arith
  | inr ((a', b'), found) ↦ ground (arith, split-cut sep s a' b' found)
]

pub split-cut_absent : (sep : ℕ) (s : Bytes) → cut sep s ≡ none → split sep s ≡ s ∷ []
unfolding cut split
split-cut_absent sep [] h = refl
split-cut_absent sep (c ∷ s) h = elim (Option-cases (cut sep s)) [
  | inl missing ↦ ground (arith, split-cut_absent sep s missing)
  | inr ((a', b'), found) ↦ ground arith
]

cons_first-append :
    (c : ℕ) (s : Bytes) (sep : ℕ) (ts : List Bytes)
    → cons_first c (split sep s ++ ts) ≡ cons_first c (split sep s) ++ ts
unfolding split
cons_first-append c [] sep ts = refl
cons_first-append c (d ∷ s) sep ts = go (split sep s) (d == sep)
  where
    go :
        (rest : List Bytes) (b : Bool)
        → cons_first c ((if b then [] ∷ rest else cons_first d rest) ++ ts)
          ≡ cons_first c (if b then [] ∷ rest else cons_first d rest) ++ ts
    go rest true = refl
    go [] false = refl
    go (t ∷ rest) false = refl

-- A split at a separator in between.
pub split-append : (sep : ℕ) (a b : Bytes) → split sep (a ++ (sep ∷ b)) ≡ split sep a ++ split sep b
unfolding split
split-append sep [] b = ground arith
split-append sep (c ∷ a) b = elim (Bool-cases (c == sep)) [
  | inl hit ↦ rw hit (ap (λ ts. [] ∷ ts) (split-append sep a b))
  | inr miss ↦
      rw miss (ap (cons_first c) (split-append sep a b) ∙ cons_first-append c a sep (split sep b))
]

-- `strings.HasPrefix(s, prefix)`
unfoldable pub has_prefix : Bytes → Bytes → Bool
has_prefix s [] = true
has_prefix [] (c ∷ prefix) = false
has_prefix (d ∷ s) (c ∷ prefix) = (d == c) && has_prefix s prefix

-- `strings.Contains(s, part)`
unfoldable pub contains : Bytes → Bytes → Bool
unfolding has_prefix
contains [] part = has_prefix [] part
contains (c ∷ s) part = has_prefix (c ∷ s) part || contains s part

has_prefix-append : (part b : Bytes) → has_prefix (part ++ b) part ≡ true
unfolding has_prefix
has_prefix-append [] [] = refl
has_prefix-append [] (c ∷ b) = refl
has_prefix-append (c ∷ part) b = ground (arith, has_prefix-append part b)

contains-prefix : (s part : Bytes) → has_prefix s part ≡ true → contains s part ≡ true
unfolding contains
contains-prefix [] part h = h
contains-prefix (c ∷ s) part h = ground arith

pub contains-append : (a part b : Bytes) → contains (a ++ (part ++ b)) part ≡ true
unfolding contains
contains-append [] part b = contains-prefix (part ++ b) part (has_prefix-append part b)
contains-append (c ∷ a) part b = ground (arith, contains-append a part b)

-- The class `\w` of an expression, in one character and in all of a text.
abbrev pub is_word : ℕ → Bool
is_word c =
    leb b'a' c && leb c b'z'
    || (leb b'A' c && leb c b'Z' || (leb b'0' c && leb c b'9' || c == b'_'))

unfoldable pub all_words : Bytes → Bool
all_words [] = true
all_words (c ∷ s) = is_word c && all_words s
