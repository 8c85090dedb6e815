-- ===== src/Config/Reading.antt =====
-- config/config.go: the sections that are read from a text.
use wqs.Common.{
  ◌≡◌, refl, sym, ap, ◌∙◌, Bool, Bool-cases, ◌&&◌, Option, none, some, List, [], ◌∷◌, ◌++◌, inl,
  inr, Bytes, All, arith, if◌then◌else◌,
}
use wqs.Common.Eq.{bytes_key, bytes_eq, bytes_eq_iff}
use wqs.Common.Dict.{Dict, lookup, insert, lookup-insert}
use wqs.Go.Strings.{split, split-append, split-cut_absent, cut-Free, Free}
use wqs.Config.{
  Entry, Section, Sections, add_entry, section_or_new, ended, read_lines, read_sections, entries_in,
  entries_of, print_sections,
}
use wqs.Config.Text.{IsPlain, add_all, read_lines-print_entries}

ended-last : (ls : List Bytes) (l : Bytes) → ended (ls ++ (l ∷ [])) ≡ ended (ls ++ ([] ∷ []))
unfolding ended
ended-last [] l = refl
ended-last (x ∷ []) l = refl
ended-last (x ∷ y ∷ ls) l = ap (λ rest. (x ++ (10 ∷ [])) ∷ rest) (ended-last (y ∷ ls) l)

-- Behind the last end of line, what a text holds is not read.
pub read_sections-last :
    (text line : Bytes)
    → Free 10 line
    → read_sections (text ++ (10 ∷ line)) ≡ read_sections (text ++ (10 ∷ []))
unfolding read_sections split
read_sections-last text line free =
    let before : split 10 (text ++ (10 ∷ line)) ≡ split 10 text ++ (line ∷ []) =
      split-append 10 text line
      ∙ ap (λ ts. split 10 text ++ ts) (split-cut_absent 10 line (cut-Free 10 line free)) in
    let empty : split 10 (text ++ (10 ∷ [])) ≡ split 10 text ++ ([] ∷ []) =
      split-append 10 text [] in
    ap (λ ls. read_lines (ended ls) []) before
    ∙ ap (λ ls. read_lines ls []) (ended-last (split 10 text) line)
    ∙ sym (ap (λ ls. read_lines (ended ls) []) empty)

abbrev key_in : Option Section → Bytes → Option Bytes
key_in none key = none
key_in (some s) key = lookup s key

-- The value of a key in a section.
abbrev pub value_at : Sections → Bytes → Bytes → Option Bytes
value_at sections name key = key_in (lookup sections name) key

-- Every name stands once, as in a map of Go.
unfoldable pub Distinct : {V : Type 0} → Dict Bytes V → Type 0
Distinct [] = Unit
Distinct ((key, value) ∷ d) = (lookup d key ≡ none) × Distinct d

unfoldable pub DistinctKeys : Sections → Type 0
DistinctKeys [] = Unit
DistinctKeys ((name, s) ∷ sections) = Distinct s × DistinctKeys sections

abbrev or_else : Option Bytes → Option Bytes → Option Bytes
or_else none o = o
or_else (some v) o = some v

abbrev matches : Bytes → Bytes → Bytes → Bytes → Bool
matches n k name key = bytes_eq n name && bytes_eq k key

add_entry-value_at :
    (sections : Sections) (n k v name key : Bytes)
    → value_at (add_entry sections (some (n, k, v))) name key
      ≡ (if matches n k name key then some v else value_at sections name key)
unfolding lookup
add_entry-value_at sections n k v name key = ground (
  arith,
  lookup-insert sections n name (insert (section_or_new (lookup sections n)) k v),
  lookup-insert (section_or_new (lookup sections n)) k key v,
  bytes_eq_iff n name,
)

-- The last entry of a key.
unfoldable last_value : List Entry → Bytes → Bytes → Option Bytes
last_value [] name key = none
last_value ((n, k, v) ∷ es) name key =
    or_else (last_value es name key) (if matches n k name key then some v else none)

add_all-value_at :
    (es : List Entry) (sections : Sections) (name key : Bytes)
    → value_at (add_all es sections) name key
      ≡ or_else (last_value es name key) (value_at sections name key)
unfolding add_all last_value
add_all-value_at [] sections name key = refl
add_all-value_at ((n, k, v) ∷ es) sections name key = ground (
  arith,
  add_all-value_at es (add_entry sections (some (n, k, v))) name key,
  add_entry-value_at sections n k v name key,
)

last_value-append :
    (xs ys : List Entry) (name key : Bytes)
    → last_value (xs ++ ys) name key ≡ or_else (last_value ys name key) (last_value xs name key)
unfolding last_value
last_value-append [] ys name key = ground arith
last_value-append ((n, k, v) ∷ xs) ys name key = ground (arith, last_value-append xs ys name key)

last_value-entries_in :
    (n : Bytes) (s : Section) (name key : Bytes)
    → Distinct s
    → last_value (entries_in n s) name key ≡ (if bytes_eq n name then lookup s key else none)
unfolding last_value entries_in Distinct lookup
last_value-entries_in n [] name key d = ground arith
last_value-entries_in n ((k, v) ∷ s) name key (new, d) = elim (Bool-cases (bytes_eq k key)) [
  | inl hit ↦
      let absent : lookup s key ≡ none = ap (lookup s) (sym ((bytes_eq_iff k key).0 hit)) ∙ new in
      ground (arith, last_value-entries_in n s name key d)
  | inr miss ↦ ground (arith, last_value-entries_in n s name key d)
]

last_value-entries_of :
    (sections : Sections) (name key : Bytes)
    → Distinct sections
    → DistinctKeys sections
    → last_value (entries_of sections) name key ≡ value_at sections name key
unfolding last_value entries_of Distinct DistinctKeys lookup
last_value-entries_of [] name key d e = refl
last_value-entries_of ((n, s) ∷ sections) name key (new, d) (keys, e) =
    let both = last_value-append (entries_in n s) (entries_of sections) name key in
    let first = last_value-entries_in n s name key keys in
    let others = last_value-entries_of sections name key d e in
    elim (Bool-cases (bytes_eq n name)) [
      | inl hit ↦
          let absent : lookup sections name ≡ none =
            ap (lookup sections) (sym ((bytes_eq_iff n name).0 hit)) ∙ new in
          ground (arith, both, first, others)
      | inr miss ↦ ground (arith, both, first, others)
    ]

-- The text that String prints of sections whose names stand once, and whose names and values hold
-- no byte that white space begins with, in ASCII or beyond, and no separators that end them early,
-- is read as sections with the same values.
pub read_sections-print_sections :
    (sections : Sections) (name key : Bytes)
    → Distinct sections
    → DistinctKeys sections
    → All IsPlain (entries_of sections)
    → value_at (read_sections (print_sections sections)) name key ≡ value_at sections name key
unfolding read_sections print_sections lookup
read_sections-print_sections sections name key d e plain =
    ap (λ x. value_at x name key) (read_lines-print_entries (entries_of sections) [] plain)
    ∙ add_all-value_at (entries_of sections) [] name key
    ∙ ap (λ o. or_else o none) (last_value-entries_of sections name key d e)
    ∙ or_else_none (value_at sections name key)
  where
    or_else_none : (o : Option Bytes) → or_else o none ≡ o
    or_else_none none = refl
    or_else_none (some v) = refl
