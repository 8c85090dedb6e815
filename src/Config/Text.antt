-- ===== src/Config/Text.antt =====
-- config/config.go: the text that String prints is read back.
use mathlib.Core.List.{reverse, reverse_aux, reverse-append, reverse-reverse, append_assoc}
use wqs.Common.{
  ℕ, ◌≡◌, ◌≢◌, refl, ap, ◌∙◌, false, ◌||◌, some, List, [], ◌∷◌, ◌++◌, Bytes, All, All-append,
  Option-cases, inl, inr, arith,
}
use wqs.Go.Strings.{
  split, split_n, split_n-append, split_n_one, split-cut, split-cut_absent, cut, cut-append,
  trim_space, trim_from, delete_all, begins_space, space_at, space_before, first_byte, second_byte,
  Free, has_first,
}
use wqs.Config.{
  Entry, Sections, entry_in, entry_of_slices, entry_of_key, read_line, add_entry, ended, read_lines,
  print_entry, print_entries,
}

-- No byte that white space begins with.
abbrev pub Solid : Bytes → Type 0
Solid = All (λ c. begins_space c ≡ false)

reverse_aux-Solid : (s t : Bytes) → Solid s → Solid t → Solid (reverse_aux s t)
reverse_aux-Solid [] t hs ht = ht
reverse_aux-Solid (c ∷ s) t hs ht = reverse_aux-Solid s (c ∷ t) hs.1 (hs.0, ht)

reverse-Solid : (s : Bytes) → Solid s → Solid (reverse s)
reverse-Solid s h = reverse_aux-Solid s [] h tt

first_byte-Solid : (s : Bytes) → Solid s → begins_space (first_byte s) ≡ false
first_byte-Solid [] h = refl
first_byte-Solid (c ∷ s) h = h.0

second_byte-Solid : (s : Bytes) → Solid s → begins_space (second_byte s) ≡ false
second_byte-Solid [] h = refl
second_byte-Solid (c ∷ s) h = first_byte-Solid s h.1

space_at-Solid : (c : ℕ) (s : Bytes) → begins_space c ≡ false → space_at c s ≡ 0
space_at-Solid c s h = ground arith

space_before-Solid : (c : ℕ) (s : Bytes) → begins_space c ≡ false → Solid s → space_before c s ≡ 0
space_before-Solid c s h solid = ground (arith, first_byte-Solid s solid, second_byte-Solid s solid)

trim_before-Solid : (s : Bytes) → Solid s → trim_from space_before 0 s ≡ s
unfolding trim_from
trim_before-Solid [] h = refl
trim_before-Solid (c ∷ s) h = rw (space_before-Solid c s h.0 h.1) refl

delete_all-Solid : (s : Bytes) → Solid s → delete_all 32 s ≡ s
unfolding delete_all
delete_all-Solid [] h = refl
delete_all-Solid (c ∷ s) h = ground (arith, delete_all-Solid s h.1, h.0)

Free-Solid : (s : Bytes) → Solid s → Free 10 s
Free-Solid [] h = tt
Free-Solid (c ∷ s) h = ((λ e. ground (arith, h.0)), Free-Solid s h.1)

-- Of a line, TrimSpace takes the end away.
trim_space-ended : (t : Bytes) → Solid t → trim_space (t ++ (10 ∷ [])) ≡ t
unfolding trim_space trim_from
trim_space-ended [] h = refl
trim_space-ended (c ∷ t) h =
    rw
      (
        space_at-Solid c (t ++ (10 ∷ [])) h.0,
        reverse-append (c ∷ t) (10 ∷ []),
        trim_before-Solid (reverse (c ∷ t)) (reverse-Solid (c ∷ t) h),
      )
      (reverse-reverse (c ∷ t))

abbrev body : Entry → Bytes
body (section, key, value) = (section ++ (b'.' ∷ key)) ++ (b'=' ∷ value)

-- An entry whose printed line is read as the same entry.
pub record IsPlain (e : Entry) : Type 0 where
  pub section_solid : Solid e.0
  pub key_solid : Solid e.1
  pub value_solid : Solid e.2
  pub section_undotted : Free b'.' e.0
  pub section_unequal : Free b'=' e.0
  pub key_unequal : Free b'=' e.1
  pub no_comment : (has_first b'#' e.0 || has_first b';' e.0) ≡ false

body-Solid : (e : Entry) → IsPlain e → Solid (body e)
body-Solid (n, k, v) h =
    All-append (λ c. begins_space c ≡ false) (n ++ (b'.' ∷ k)) (b'=' ∷ v)
      (All-append (λ c. begins_space c ≡ false) n (b'.' ∷ k) h.section_solid (refl, h.key_solid))
      (refl, h.value_solid)

entry_in-body : (e : Entry) → IsPlain e → entry_in (body e) ≡ some e
entry_in-body (n, k, v) h =
    let left = n ++ (b'.' ∷ k) in
    let at_equal : split_n b'=' (left ++ (b'=' ∷ v)) 2 ≡ left ∷ v ∷ [] =
      split_n-append b'=' left v 0 (
        All-append (λ c. c ≢ b'=') n (b'.' ∷ k) h.section_unequal
          ((λ e. ground arith), h.key_unequal))
      ∙ ap (λ ts. left ∷ ts) (split_n_one b'=' v) in
    let at_dot : split_n b'.' left 2 ≡ n ∷ k ∷ [] =
      split_n-append b'.' n k 0 h.section_undotted ∙ ap (λ ts. n ∷ ts) (split_n_one b'.' k) in
    rw (first_of_body n k v h.no_comment) (ap entry_of_slices at_equal ∙ ap (entry_of_key v) at_dot)
  where
    first_of_body :
        (n k v : Bytes)
        → (has_first b'#' n || has_first b';' n) ≡ false
        → (has_first b'#' (body (n, k, v)) || has_first b';' (body (n, k, v))) ≡ false
    first_of_body [] k v h = refl
    first_of_body (c ∷ n) k v h = h

read_line-body : (e : Entry) → IsPlain e → read_line (body e ++ (10 ∷ [])) ≡ some e
unfolding read_line
read_line-body e h =
    ap (λ l. entry_in (delete_all 32 l)) (trim_space-ended (body e) (body-Solid e h))
    ∙ ap entry_in (delete_all-Solid (body e) (body-Solid e h))
    ∙ entry_in-body e h

ended-cons : (l s : Bytes) → ended (l ∷ split 10 s) ≡ (l ++ (10 ∷ [])) ∷ ended (split 10 s)
unfolding ended
ended-cons l s = elim (Option-cases (cut 10 s)) [
  | inl missing ↦ rw (split-cut_absent 10 s missing) refl
  | inr ((a, b), found) ↦ rw (split-cut 10 s a b found) refl
]

-- The entries are entered one after the other.
unfoldable pub add_all : List Entry → Sections → Sections
add_all [] sections = sections
add_all (e ∷ es) sections = add_all es (add_entry sections (some e))

print_entry-body : (e : Entry) (rest : Bytes) → print_entry e ++ rest ≡ body e ++ (10 ∷ rest)
print_entry-body (n, k, v) rest = simp (append_assoc)

pub read_lines-print_entries :
    (es : List Entry) (sections : Sections)
    → All IsPlain es
    → read_lines (ended (split 10 (print_entries es))) sections ≡ add_all es sections
unfolding read_lines print_entries add_all ended split
read_lines-print_entries [] sections h = refl
read_lines-print_entries (e ∷ es) sections (h, hs) =
    let rest = print_entries es in
    let lines : split 10 (print_entry e ++ rest) ≡ body e ∷ split 10 rest =
      ap (split 10) (print_entry-body e rest)
      ∙ split-cut 10 (body e ++ (10 ∷ rest)) (body e) rest
          (cut-append 10 (body e) rest (Free-Solid (body e) (body-Solid e h))) in
    ap (λ ls. read_lines (ended ls) sections) lines
    ∙ ap (λ ls. read_lines ls sections) (ended-cons (body e) rest)
    ∙ ap (λ x. read_lines (ended (split 10 rest)) (add_entry sections x)) (read_line-body e h)
    ∙ read_lines-print_entries es (add_entry sections (some e)) hs
