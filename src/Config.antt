-- ===== src/Config.antt =====
-- config/config.go and config/section.go: the text of a configuration, its sections, and the fields
-- that are taken from them. GetFloat64 is left out; of GetDupByPattern the regular expression is
-- the predicate that it stands for.
pub mod Text
pub mod Reading
mod Tests
use wqs.Common.{
  ℕ, Bool, true, false, ◌||◌, Option, none, some, List, [], ◌∷◌, ◌++◌, Bytes, codes, if◌then◌else◌,
}
use wqs.Common.Int.{ℤ, pos, negsuc, eq_ℤ}
use wqs.Common.Eq.{bytes_key, bytes_eq}
use wqs.Common.Dict.{Dict, lookup, insert}
use wqs.Go.Strings.{split, split_n, trim_space, delete_all, has_first}
use wqs.Go.Strconv.{NumError, Parsed, parse_int}
use wqs.Engine.{Error, not_found, not_valid, Result, ok, err}

abbrev pub Section : Type 0
Section = Dict Bytes Bytes

abbrev pub Sections : Type 0
Sections = Dict Bytes Section

abbrev pub or_not_found : {A : Type 0} → Option A → Result A
or_not_found none = err not_found
or_not_found (some a) = ok a

abbrev pub or_default : {A : Type 0} → A → Result A → A
or_default d (ok a) = a
or_default d (err e) = d

unfoldable pub get_string : Section → Bytes → Result Bytes
get_string s key = or_not_found (lookup s key)

abbrev pub number_of : Parsed ℤ → ℤ × Option Error
number_of (n, none) = (n, none)
number_of (n, some e) = (n, some Error.plain)

-- The number and the error; one of strconv is `plain`.
unfoldable pub get_int64 : Section → Bytes → ℤ × Option Error
get_int64 s key = elim (lookup s key) [
  | none ↦ (pos 0, some not_found)
  | some value ↦ number_of (parse_int 10 64 value)
]

unfoldable pub one_of : Bytes → List Bytes → Bool
one_of s [] = false
one_of s (t ∷ ts) = bytes_eq s t || one_of s ts

-- `strconv.ParseBool`
unfoldable pub parse_bool : Bytes → Option Bool
parse_bool s =
    if one_of s
      (codes "1" ∷ codes "t" ∷ codes "T" ∷ codes "TRUE" ∷ codes "true" ∷ codes "True" ∷ [])
    then some true
    else if one_of s
        (codes "0" ∷ codes "f" ∷ codes "F" ∷ codes "FALSE" ∷ codes "false" ∷ codes "False" ∷ [])
    then some false
    else none

abbrev pub bool_of : Option Bool → Bool × Option Error
bool_of none = (false, some Error.plain)
bool_of (some b) = (b, none)

unfoldable pub get_bool : Section → Bytes → Bool × Option Error
get_bool s key = elim (lookup s key) [
  | none ↦ (false, some not_found)
  | some value ↦ bool_of (parse_bool value)
]

unfoldable pub get_string_must : Section → Bytes → Bytes → Bytes
get_string_must s key d = or_default d (get_string s key)

abbrev pub unless_error : {A : Type 0} → A → A × Option Error → A
unless_error d (a, none) = a
unless_error d (a, some e) = d

unfoldable pub get_int64_must : Section → Bytes → ℤ → ℤ
get_int64_must s key d = unless_error d (get_int64 s key)

unfoldable pub get_bool_must : Section → Bytes → Bool → Bool
get_bool_must s key d = unless_error d (get_bool s key)

unfoldable pub get_dup_by_pattern : (Bytes → Bool) → Section → Section
get_dup_by_pattern matches [] = []
get_dup_by_pattern matches ((key, value) ∷ s) =
    let rest = get_dup_by_pattern matches s in if matches key then (key, value) ∷ rest else rest

unfoldable pub get_section : Sections → Bytes → Result Section
get_section sections name = or_not_found (lookup sections name)

-- A line of the text: a section, a key and a value.
abbrev pub Entry : Type 0
Entry = Bytes × Bytes × Bytes

abbrev pub entry_of_key : Bytes → List Bytes → Option Entry
entry_of_key value (section ∷ key ∷ []) = some (section, key, value)
entry_of_key value tokens = none

abbrev pub entry_of_slices : List Bytes → Option Entry
entry_of_slices (left ∷ value ∷ []) = entry_of_key value (split_n b'.' left 2)
entry_of_slices slices = none

abbrev pub entry_in : Bytes → Option Entry
entry_in line =
    if has_first b'#' line || has_first b';' line
    then none
    else entry_of_slices (split_n b'=' line 2)

-- The blanks of a line go before anything else.
unfoldable pub read_line : Bytes → Option Entry
read_line line = entry_in (delete_all 32 (trim_space line))

abbrev pub section_or_new : Option Section → Section
section_or_new none = []
section_or_new (some s) = s

abbrev pub add_entry : Sections → Option Entry → Sections
add_entry sections none = sections
add_entry sections (some (section, key, value)) =
    insert sections section (insert (section_or_new (lookup sections section)) key value)

-- The lines that `ReadString` gives, each with its end. What follows the last end of line comes
-- with io.EOF, and the loop is left.
unfoldable pub ended : List Bytes → List Bytes
ended [] = []
ended (l ∷ []) = []
ended (l ∷ next ∷ ls) = (l ++ (10 ∷ [])) ∷ ended (next ∷ ls)

unfoldable pub read_lines : List Bytes → Sections → Sections
read_lines [] sections = sections
read_lines (l ∷ ls) sections = read_lines ls (add_entry sections (read_line l))

-- The loop of `NewConfigFromBytes`.
unfoldable pub read_sections : Bytes → Sections
read_sections text = read_lines (ended (split 10 text)) []

-- `Config.String`, in the order of the entries.
abbrev pub print_entry : Entry → Bytes
print_entry (section, key, value) = section ++ (b'.' ∷ (key ++ (b'=' ∷ (value ++ (10 ∷ [])))))

unfoldable pub entries_in : Bytes → Section → List Entry
entries_in name [] = []
entries_in name ((key, value) ∷ s) = (name, key, value) ∷ entries_in name s

unfoldable pub entries_of : Sections → List Entry
entries_of [] = []
entries_of ((name, s) ∷ sections) = entries_in name s ++ entries_of sections

unfoldable pub print_entries : List Entry → Bytes
print_entries [] = []
print_entries (e ∷ es) = print_entry e ++ print_entries es

unfoldable pub print_sections : Sections → Bytes
print_sections sections = print_entries (entries_of sections)

pub record Config : Type 0 where
  pub proxy_id : ℤ
  pub ui_dir : Bytes
  pub http_port : Bytes
  pub mc_port : Bytes
  pub mc_socket_recv_buffer : ℤ
  pub mc_socket_send_buffer : ℤ
  pub motan_port : Bytes
  pub meta_data_zk_addr : Bytes
  pub meta_data_zk_root : Bytes
  pub log_info : Bytes
  pub log_debug : Bytes
  pub log_profile : Bytes
  pub log_expire : Bytes
  pub sections : Sections

infixl 5 ◌>>=◌
abbrev pub ◌>>=◌ : {A B : Type 0} → Result A → (A → Result B) → Result B
ok a >>= f = f a
err e >>= f = err e

abbrev pub proxy_id_of : ℤ → Result ℤ
proxy_id_of id = if eq_ℤ id (negsuc 0) then err not_valid else ok id

unfoldable pub validate : Sections → Result Config
validate sections = do
  proxy ← get_section sections (codes "proxy")
  id ← proxy_id_of (get_int64_must proxy (codes "id") (negsuc 0))
  ui ← get_section sections (codes "ui")
  dir ← get_string ui (codes "dir")
  protocol ← get_section sections (codes "protocol")
  http ← get_string protocol (codes "http.port")
  mc ← get_string protocol (codes "mc.port")
  motan ← get_string protocol (codes "motan.port")
  meta ← get_section sections (codes "metadata")
  addr ← get_string meta (codes "zookeeper.connect")
  root ← get_string meta (codes "zookeeper.root")
  log ← get_section sections (codes "log")
  info ← get_string log (codes "info")
  debug ← get_string log (codes "debug")
  profile ← get_string log (codes "profile")
  ok (record {
    proxy_id = id;
    ui_dir = dir;
    http_port = http;
    mc_port = mc;
    mc_socket_recv_buffer = get_int64_must protocol (codes "mc.socket.buffer.recv") (pos 4096);
    mc_socket_send_buffer = get_int64_must protocol (codes "mc.socket.buffer.send") (pos 4096);
    motan_port = motan;
    meta_data_zk_addr = addr;
    meta_data_zk_root = root;
    log_info = info;
    log_debug = debug;
    log_profile = profile;
    log_expire = get_string_must log (codes "expire") (codes "72h");
    sections = sections;
  })

unfoldable pub new_config_from_bytes : Bytes → Result Config
new_config_from_bytes text = validate (read_sections text)
