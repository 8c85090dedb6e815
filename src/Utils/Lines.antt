-- ===== src/Utils/Lines.antt =====
-- utils/linereader.go: the search for the end of a line. An index of -1 is `none`.
use mathlib.Core.Path.{subst}
use wqs.Common.{
  ℕ, zero, suc, ◌+◌, ◌-◌, ◌≡◌, sym, ap, ◌∙◌, Bool, true, false, Bool-cases, Option, none, some,
  Option-cases, inl, inr, [], ◌∷◌, ◌++◌, Bytes, arith, length, get_elem?, ltb, ◌==◌, ◌&&◌,
  if◌then◌else◌,
}

-- `bytes.IndexByte`
unfoldable pub index_byte : ℕ → Bytes → Option ℕ
index_byte c [] = none
index_byte c (b ∷ s) =
    let rest = index_byte c s in
    if b == c then some 0 else elim rest [ none ↦ none | some i ↦ some (suc i) ]

abbrev pub is_byte : ℕ → Option ℕ → Bool
is_byte c none = false
is_byte c (some b) = b == c

abbrev pub at_cr : Bytes → Option ℕ → Option ℕ
at_cr text none = none
at_cr text (some i) =
    if ltb i (length text - 1) && is_byte 10 (get_elem? text (suc i)) then some i else none

-- `locateLineIdx`
unfoldable pub locate_in : Bytes → Option ℕ
locate_in text = if ltb (length text) 2 then none else at_cr text (index_byte 13 text)

-- The prefix ends with the first byte of an end of line, and the text starts with the second.
abbrev pub across : Bytes → Bytes → Bool
across prefix text =
    ltb 0 (length prefix)
    && ltb 0 (length text)
    && is_byte 13 (get_elem? prefix (length prefix - 1))
    && is_byte 10 (get_elem? text 0)

abbrev pub or_across : Bytes → Bytes → Option ℕ → Option ℕ → Option ℕ
or_across prefix text (some i) later = some i
or_across prefix text none later =
    if across prefix text
    then some (length prefix - 1)
    else elim later [ none ↦ none | some i ↦ some (length prefix + i) ]

-- `LocateLineIdx`
unfoldable pub locate_line_idx : Bytes → Bytes → Option ℕ
locate_line_idx prefix text = or_across prefix text (locate_in prefix) (locate_in text)

-- The two bytes of an end of line stand at `i`.
abbrev pub EndsAt : Bytes → ℕ → Type 0
EndsAt s i = (get_elem? s i ≡ some 13) × (get_elem? s (suc i) ≡ some 10)

index_byte-element : (c : ℕ) (s : Bytes) (i : ℕ) → index_byte c s ≡ some i → get_elem? s i ≡ some c
unfolding index_byte
index_byte-element c [] i h = absurd cc
index_byte-element c (b ∷ s) zero h = elim (Option-cases (index_byte c s)) [
  | inl missing ↦ ground arith
  | inr (j, found) ↦ ground arith
]
index_byte-element c (b ∷ s) (suc i) h = elim (Option-cases (index_byte c s)) [
  | inl missing ↦ absurd (ground arith)
  | inr (j, found) ↦
      let same : index_byte c s ≡ some i = ground arith in index_byte-element c s i same
]

get_elem?-append : (p t : Bytes) (i : ℕ) → get_elem? (p ++ t) (length p + i) ≡ get_elem? t i
get_elem?-append [] t i = ap (λ (n : ℕ). get_elem? t n) {x = 0 + i} {y = i} (omega arith)
get_elem?-append (x ∷ p) t i =
    ap (λ (n : ℕ). get_elem? (x ∷ (p ++ t)) n) {x = suc (length p) + i} {y = suc (length p + i)}
      (omega arith)
    ∙ get_elem?-append p t i

get_elem?-prefix : (p t : Bytes) (i c : ℕ) → get_elem? p i ≡ some c → get_elem? (p ++ t) i ≡ some c
get_elem?-prefix [] t i c h = absurd cc
get_elem?-prefix (x ∷ p) t zero c h = h
get_elem?-prefix (x ∷ p) t (suc i) c h = get_elem?-prefix p t i c h

locate_in-EndsAt : (text : Bytes) (i : ℕ) → locate_in text ≡ some i → EndsAt text i
unfolding locate_in
locate_in-EndsAt text i h = elim (Option-cases (index_byte 13 text)) [
  | inl missing ↦ absurd (ground arith)
  | inr (j, found) ↦ elim (Option-cases (get_elem? text (suc j))) [
    | inl short ↦ absurd (ground arith)
    | inr (b, next) ↦
        let same : j ≡ i = ground arith in
        let feed : b ≡ 10 = ground arith in
        (index_byte-element 13 text i (ground arith), rw (sym same) (next ∙ ap some feed))
  ]
]

is_byte-some : (c : ℕ) (o : Option ℕ) → is_byte c o ≡ true → o ≡ some c
is_byte-some c none h = absurd (ground arith)
is_byte-some c (some b) h = ap some (ground arith)

-- The two bytes around the boundary.
across-EndsAt :
    (prefix text : Bytes) → across prefix text ≡ true → EndsAt (prefix ++ text) (length prefix - 1)
across-EndsAt prefix text both =
    let filled : ltb 0 (length prefix) ≡ true = ground arith in
    let cr : is_byte 13 (get_elem? prefix (length prefix - 1)) ≡ true = ground arith in
    let lf : is_byte 10 (get_elem? text 0) ≡ true = ground arith in
    let at_end : suc (length prefix - 1) ≡ length prefix + 0 = ground arith in
    (
      get_elem?-prefix prefix text (length prefix - 1) 13
          (is_byte-some 13 (get_elem? prefix (length prefix - 1)) cr),
      ap (λ (n : ℕ). get_elem? (prefix ++ text) n) at_end
          ∙ get_elem?-append prefix text 0
          ∙ is_byte-some 10 (get_elem? text 0) lf,
    )

-- The place that LocateLineIdx finds holds the two bytes of an end of line, in the prefix, in the
-- text after it, or across the two.
pub locate_line_idx-EndsAt :
    (prefix text : Bytes) (i : ℕ) → locate_line_idx prefix text ≡ some i → EndsAt (prefix ++ text) i
unfolding locate_line_idx
locate_line_idx-EndsAt prefix text i h = elim (Option-cases (locate_in prefix)) [
  | inr (j, found) ↦
      let (cr, lf) = locate_in-EndsAt prefix j found in
      let same : j ≡ i = ground arith in
      rw (sym same)
        (get_elem?-prefix prefix text j 13 cr, get_elem?-prefix prefix text (suc j) 10 lf)
  | inl missing ↦ elim (Bool-cases (across prefix text)) [
    | inl both ↦
        let same : length prefix - 1 ≡ i = ground arith in
        subst (EndsAt (prefix ++ text)) same (across-EndsAt prefix text both)
    | inr apart ↦ elim (Option-cases (locate_in text)) [
      | inl nowhere ↦ absurd (ground arith)
      | inr (j, found) ↦
          let (cr, lf) = locate_in-EndsAt text j found in
          let same : length prefix + j ≡ i = ground arith in
          subst (EndsAt (prefix ++ text)) same (
            get_elem?-append prefix text j ∙ cr,
            ap (λ (n : ℕ). get_elem? (prefix ++ text) n) {x = suc (length prefix + j)}
                  {y = length prefix + suc j} (omega arith)
                ∙ get_elem?-append prefix text (suc j)
                ∙ lf,
          )
    ]
  ]
]
