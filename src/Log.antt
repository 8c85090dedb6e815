-- ===== src/Log.antt =====
-- log/log.go: the Logger. Times are nanoseconds; package time, the files and runtime.Caller are
-- parameters. A run that ends in os.Exit has no result.
pub mod Rolling
pub mod Numbers
pub mod Loggers
pub mod Cleaner
pub mod Prefix
pub mod Archive
mod Tests
use wqs.Common.{
  ℕ, zero, suc, ◌+◌, ◌-◌, ◌/◌, ◌%◌, Bool, true, false, ◌&&◌, ◌||◌, not, Option, none, some, List,
  [], ◌∷◌, ◌++◌, Bytes, codes, ltb, leb, ◌==◌, if◌then◌else◌,
}
use wqs.Common.Int.{ℤ, ◌+ℤ◌, ltb_ℤ}
use mathlib.Core.List.{reverse}

-- `flags & bit != 0` for a power of two.
abbrev pub has_flag : ℕ → ℕ → Bool
has_flag flags bit = flags / bit % 2 == 1

abbrev pub l_date : ℕ
l_date = 1

abbrev pub l_time : ℕ
l_time = 2

abbrev pub l_longfile : ℕ
l_longfile = 4

abbrev pub l_shortfile : ℕ
l_shortfile = 8

abbrev pub l_level : ℕ
l_level = 16

abbrev pub l_utc : ℕ
l_utc = 32

abbrev pub l_std_flags : ℕ
l_std_flags = l_date + l_time

abbrev pub log_fatal : ℕ
log_fatal = 0

abbrev pub log_error : ℕ
log_error = 1

abbrev pub log_warning : ℕ
log_warning = 2

abbrev pub log_info : ℕ
log_info = 3

abbrev pub log_debug : ℕ
log_debug = 4

pub data RollingType : Type 0 where
  rolling_deny rolling_by_hour rolling_by_day : RollingType

abbrev pub rolls : RollingType → Bool
rolls rolling_deny = false
rolls rolling_by_hour = true
rolls rolling_by_day = true

pub record Logger : Type 0 where
  pub level : ℕ
  pub rolling : RollingType
  pub file_name : Bytes
  pub file_suffix : Bytes
  pub flags : ℕ
  pub should_close : Bool
  pub fd : Option ℕ
  pub suffix_time : ℤ
  pub to_roll : ℤ
  pub duration : ℤ

-- A time in a time zone.
pub record DateTime : Type 0 where
  pub year : ℕ
  pub month : ℕ
  pub day : ℕ
  pub hour : ℕ
  pub minute : ℕ
  pub second : ℕ

-- What is called of package time: the two readings of a time, `Format`, and the hour or the day
-- that a time lies in with the next one, as genNextClock and genNextDay make them by `time.Date`.
pub record TimeOps : Type 0 where
  pub local : ℤ → DateTime
  pub utc : ℤ → DateTime
  pub format : ℤ → Bytes → Bytes
  pub date : DateTime → ℤ

abbrev pub new_logger : Bytes → Logger
new_logger file = record {
  level = log_info;
  rolling = rolling_deny;
  file_name = file;
  file_suffix = [];
  flags = l_std_flags + l_level;
  should_close = false;
  fd = none;
  suffix_time = ℤ.pos 0;
  to_roll = ℤ.pos 0;
  duration = ℤ.pos 0;
}

-- `itoa`, by the bytes of its buffer that are left: `none` is the panic at an index below zero. A
-- width of 1 or less asks for nothing.
unfoldable pub itoa_loop : ℕ → ℕ → ℕ → Bytes → Option Bytes
itoa_loop zero i wid out = none
itoa_loop (suc bp) i wid out =
    let more = itoa_loop bp (i / 10) (wid - 1) ((b'0' + i % 10) ∷ out) in
    if leb 10 i || ltb 1 wid then more else some ((b'0' + i) ∷ out)

unfoldable pub itoa : ℕ → ℕ → Option Bytes
unfolding itoa_loop
itoa i wid = itoa_loop 20 i wid []

-- `logLevel2String`
unfoldable pub level_mark : ℕ → Bytes
level_mark t =
    if t == log_fatal
    then codes "[FATAL]"
    else if t == log_error
    then codes "[ERROR]"
    else if t == log_debug
    then codes "[DEBUG]"
    else if t == log_warning
    then codes "[WARNING]"
    else if t == log_info
    then codes "[INFO]"
    else codes "[UNKOWN]"

-- `LogLevel2String`
unfoldable pub level_name : ℕ → Bytes
level_name t =
    if t == log_fatal
    then codes "fatal"
    else if t == log_error
    then codes "error"
    else if t == log_debug
    then codes "debug"
    else if t == log_warning
    then codes "warning"
    else if t == log_info
    then codes "info"
    else codes "unknow"

infixl 5 ◌>>=◌
abbrev pub ◌>>=◌ : {A B : Type 0} → Option A → (A → Option B) → Option B
none >>= f = none
some a >>= f = f a

abbrev pub join_numbers : Bytes → ℕ → ℕ → ℕ → ℕ → Option Bytes
join_numbers sep width a b c = do
  x ← itoa a width
  y ← itoa b 2
  z ← itoa c 2
  some (x ++ (sep ++ (y ++ (sep ++ (z ++ codes " ")))))

abbrev pub date_prefix : ℕ → DateTime → Option Bytes
date_prefix flags t =
    if has_flag flags l_date then join_numbers (codes "-") 4 t.year t.month t.day else some []

abbrev pub time_prefix : ℕ → DateTime → Option Bytes
time_prefix flags t =
    if has_flag flags l_time then join_numbers (codes ":") 2 t.hour t.minute t.second else some []

abbrev pub level_prefix : ℕ → ℕ → Bytes
level_prefix flags level = if has_flag flags l_level then level_mark level ++ codes " " else []

-- What is behind the last slash, the first byte not counted: the loop stops before index 0.
unfoldable pub after_slash : Bytes → Option Bytes
after_slash [] = none
after_slash (c ∷ file) = elim (after_slash file) [
  | some short ↦ some short
  | none ↦ if c == b'/' then some file else none
]

abbrev short_or : Bytes → Option Bytes → Bytes
short_or file none = file
short_or file (some short) = short

unfoldable pub short_name : Bytes → Bytes
unfolding after_slash
short_name [] = []
short_name (c ∷ file) = short_or (c ∷ file) (after_slash file)

abbrev pub has_file : ℕ → Bool
has_file flags = has_flag flags l_shortfile || has_flag flags l_longfile

abbrev pub file_prefix : ℕ → Bytes → ℕ → Option Bytes
file_prefix flags file line =
    if has_file flags
    then (do
      n ← itoa line 0
      let name = if has_flag flags l_shortfile then short_name file else file
      some (name ++ (codes ":" ++ (n ++ codes ": "))))
    else some []

unfoldable pub format_prefix : TimeOps → ℕ → ℤ → Bytes → ℕ → ℕ → Option Bytes
unfolding itoa level_mark short_name
format_prefix time flags now file line level = do
  let t = if has_flag flags l_utc then time.utc now else time.local now
  d ← date_prefix flags t
  c ← time_prefix flags t
  f ← file_prefix flags file line
  some (d ++ (c ++ (level_prefix flags level ++ f)))

-- The message, with an end of line if it has none.
unfoldable pub with_newline : Bytes → Bytes
with_newline [] = 10 ∷ []
with_newline (c ∷ []) = if c == 10 then c ∷ [] else c ∷ 10 ∷ []
with_newline (c ∷ d ∷ s) = c ∷ with_newline (d ∷ s)
