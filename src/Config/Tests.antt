-- ===== src/Config/Tests.antt =====
-- A text of a configuration, and the theorems on it.
use wqs.Common.{ℕ, ◌≡◌, ◌≢◌, ◌||◌, All, refl, true, false, none, some, [], ◌∷◌, ◌++◌, codes, arith}
use wqs.Common.Int.{eq_ℤ}
use wqs.Common.Eq.{bytes_eq, bytes_key}
use wqs.Common.Dict.{lookup, insert}
use wqs.Go.Strings.{split, split_n, cut, trim_space, trim_from, delete_all, begins_space, has_first}
use wqs.Go.Strconv.{parse_int, parse_uint, scan}
use wqs.Engine.{not_found, not_valid, err}
use wqs.Config.{
  Sections, read_sections, read_lines, ended, read_line, print_sections, entries_of, entries_in,
  validate, get_section, get_string, get_string_must, get_int64_must, get_int64, get_bool,
  parse_bool, one_of,
}
use wqs.Config.Text.{IsPlain}
use wqs.Config.Reading.{value_at, Distinct, DistinctKeys, read_sections-print_sections}

program : Unit {0}
unfolding read_sections read_lines ended read_line split split_n cut trim_space trim_from delete_all
    lookup insert bytes_eq validate get_section get_string get_string_must get_int64_must get_int64
    parse_int parse_uint scan eq_ℤ
program = tt

-- Blanks and comments go, the last line of a key counts, a line without an end is lost.
read_lines_of :
    read_sections (
      codes "# a=b"
      ++ (10
          ∷ (codes " log.info = x y "
              ++ (10 ∷ (codes "log.info=z" ++ (10 ∷ codes "log.debug=w"))))))
    ≡ (codes "log", (codes "info", codes "z") ∷ []) ∷ []
unfolding program
read_lines_of = refl

no_proxy : validate [] ≡ err not_found
unfolding program
no_proxy = refl

no_id : validate ((codes "proxy", []) ∷ []) ≡ err not_valid
unfolding program
no_id = refl

bools :
    (get_bool ((codes "k", codes "T") ∷ []) (codes "k") ≡ (true, none))
    × (get_bool [] (codes "k") ≡ (false, some not_found))
unfolding get_bool parse_bool one_of lookup bytes_eq
bools = (refl, refl)

abbrev two_sections : Sections
two_sections =
    (codes "l", (codes "i", codes "a") ∷ []) ∷ (codes "u", (codes "d", codes "c") ∷ []) ∷ []

two_sections-Distinct : Distinct two_sections
unfolding Distinct lookup bytes_eq
two_sections-Distinct = (refl, (refl, tt))

two_sections-DistinctKeys : DistinctKeys two_sections
unfolding DistinctKeys Distinct lookup bytes_eq
two_sections-DistinctKeys = ((refl, tt), ((refl, tt), tt))

letters-IsPlain :
    (n k v : ℕ)
    → (begins_space n ≡ false) × (begins_space k ≡ false) × (begins_space v ≡ false)
    → (n ≢ b'.') × (n ≢ b'=') × (k ≢ b'=')
    → (has_first b'#' (n ∷ []) || has_first b';' (n ∷ [])) ≡ false
    → IsPlain (n ∷ [], k ∷ [], v ∷ [])
letters-IsPlain n k v (sn, sk, sv) (dot, equal, equal') comment = record {
  section_solid = (sn, tt);
  key_solid = (sk, tt);
  value_solid = (sv, tt);
  section_undotted = (dot, tt);
  section_unequal = (equal, tt);
  key_unequal = (equal', tt);
  no_comment = comment;
}

two_sections-IsPlain : All IsPlain (entries_of two_sections)
unfolding entries_of entries_in
two_sections-IsPlain = (
  letters-IsPlain b'l' b'i' b'a' (refl, refl, refl) (omega arith, omega arith, omega arith) refl,
  (
    letters-IsPlain b'u' b'd' b'c' (refl, refl, refl) (omega arith, omega arith, omega arith) refl,
    tt,
  ),
)

read_sections-print_sections_example :
    value_at (read_sections (print_sections two_sections)) (codes "u") (codes "d")
    ≡ value_at two_sections (codes "u") (codes "d")
read_sections-print_sections_example =
    read_sections-print_sections two_sections (codes "u") (codes "d") two_sections-Distinct
      two_sections-DistinctKeys two_sections-IsPlain

-- The spaces U+3000 before a text and U+00A0 behind it are trimmed, but no byte of the letter U+4E2D.
trimmed : trim_space (227 ∷ 128 ∷ 128 ∷ 228 ∷ 184 ∷ 173 ∷ 194 ∷ 160 ∷ []) ≡ 228 ∷ 184 ∷ 173 ∷ []
unfolding trim_space trim_from
trimmed = refl
