-- ===== src/Log/Rolling.antt =====
-- log/log.go: opening, rolling and writing the file of a Logger. An operation gets the state of the
-- files; `none` is os.Exit, and so is what a run-time panic leaves.
use wqs.Common.{
  ℕ, ◌+◌, Bool, true, false, Option, none, some, List, [], ◌∷◌, ◌++◌, Bytes, codes, ltb,
  if◌then◌else◌,
}
use wqs.Common.Int.{ℤ, pos, ◌+ℤ◌, ltb_ℤ}
use wqs.Log.{
  Logger, RollingType, rolling_deny, rolling_by_hour, rolling_by_day, rolls, TimeOps, DateTime,
  has_file, format_prefix, with_newline,
}

-- What is called of package os. A file is a number; the results say whether a call succeeded.
pub record Files (S : Type 0) : Type 0 where
  pub mkdir_all_of : Bytes → S → S × Bool
  pub open_append : Bytes → S → S × Option ℕ
  pub close : Option ℕ → S → S × Bool
  pub rename : Bytes → Bytes → S → S × Bool
  pub write : Option ℕ → Bytes → S → S × Bool

abbrev pub hour_long : ℤ
hour_long = pos 3600000000000

abbrev pub day_long : ℤ
day_long = pos 86400000000000

abbrev clock_at : DateTime → ℕ → DateTime
clock_at t h = record t { hour = h; minute = 0; second = 0 }

-- `genNextClock` and `genNextDay`: `time.Date` takes an hour of 24 and a day behind the last one.
unfoldable pub gen_next_clock : TimeOps → ℤ → ℤ × ℤ
gen_next_clock time now =
    let t = time.local now in (time.date (clock_at t t.hour), time.date (clock_at t (t.hour + 1)))

unfoldable pub gen_next_day : TimeOps → ℤ → ℤ × ℤ
gen_next_day time now =
    let t = time.local now in
    (time.date (clock_at t 0), time.date (record (clock_at t 0) { day = t.day + 1 }))

unfoldable pub set_rolling : TimeOps → ℤ → RollingType → Logger → Logger
unfolding gen_next_clock gen_next_day
set_rolling time now rolling_deny l = record l { rolling = rolling_deny }
set_rolling time now rolling_by_hour l = record l {
  rolling = rolling_by_hour;
  duration = hour_long;
  file_suffix = codes "20060102-15";
  suffix_time = (gen_next_clock time now).0;
  to_roll = (gen_next_clock time now).1;
}
set_rolling time now rolling_by_day l = record l {
  rolling = rolling_by_day;
  duration = day_long;
  file_suffix = codes "20060102";
  suffix_time = (gen_next_day time now).0;
  to_roll = (gen_next_day time now).1;
}

-- The name under which a rotation keeps the file.
unfoldable pub archive_name : TimeOps → Logger → Bytes
archive_name time l = l.file_name ++ (codes "." ++ time.format l.suffix_time l.file_suffix)

-- The logger behind a rotation, with the new file.
abbrev pub rolled : Logger → Option ℕ → Logger
rolled l fd = record l {
  fd = fd;
  to_roll = l.to_roll +ℤ l.duration;
  suffix_time = l.suffix_time +ℤ l.duration;
}

abbrev pub due : Logger → ℤ → Bool
due l t = if rolls l.rolling then ltb_ℤ l.to_roll t else false

-- The file and the line of the caller, which are asked for only if they are printed.
abbrev pub caller_of : ℕ → Option (Bytes × ℕ) → Bytes × ℕ
caller_of flags none = if has_file flags then (codes "???", 0) else ([], 0)
caller_of flags (some (file, line)) = if has_file flags then (file, line) else ([], 0)

abbrev pub line_with : Bytes → Option Bytes → Option Bytes
line_with text none = none
line_with text (some prefix) = some (prefix ++ with_newline text)

-- A call of Output: the time, the caller if it is known, the level and the text.
pub record Call : Type 0 where
  pub now : ℤ
  pub caller : Option (Bytes × ℕ)
  pub level : ℕ
  pub text : Bytes

module _ {S : Type 0} (time : TimeOps) (files : Files S) where
  abbrev after_open : Logger → S × Option ℕ → S × Option Logger
  after_open l (s, none) = (s, none)
  after_open l (s, some fd) = (s, some (rolled l (some fd)))

  abbrev after_rename : Logger → S × Bool → S × Option Logger
  after_rename l (s, false) = (s, none)
  after_rename l (s, true) = after_open l (files.open_append l.file_name s)

  abbrev after_close : Logger → S × Bool → S × Option Logger
  after_close l (s, false) = (s, none)
  after_close l (s, true) = after_rename l (files.rename l.file_name (archive_name time l) s)

  unfoldable pub rotate : Logger → ℤ → S → S × Option Logger
  rotate l t s = if due l t then after_close l (files.close l.fd s) else (s, some l)

  -- `Open`: the directory, then the file; `err` is the second result.
  abbrev after_mkdir : Logger → S × Bool → S × Logger × Bool
  after_mkdir l (s, false) = (s, l, false)
  after_mkdir l (s, true) = opened (files.open_append l.file_name s)
    where
      opened : S × Option ℕ → S × Logger × Bool
      opened (s, none) = (s, record l { should_close = true; fd = none }, false)
      opened (s, some fd) = (s, record l { should_close = true; fd = some fd }, true)

  unfoldable pub open_logger : Logger → S → S × Logger × Bool
  open_logger l s = after_mkdir l (files.mkdir_all_of l.file_name s)

  unfoldable pub close_logger : Logger → S → S × Bool
  close_logger l s = if l.should_close then files.close l.fd s else (s, true)

  abbrev pub line_of : Logger → ℤ → Option (Bytes × ℕ) → ℕ → Bytes → Option Bytes
  line_of l now caller level text =
      let (file, line) = caller_of l.flags caller in
      line_with text (format_prefix time l.flags now file line level)

  abbrev write_line : Logger → Option Bytes → S → S × Option Logger
  write_line l none s = (s, none)
  write_line l (some line) s = ((files.write l.fd line s).0, some l)

  abbrev after_rotate : ℤ → Option (Bytes × ℕ) → ℕ → Bytes → S × Option Logger → S × Option Logger
  after_rotate now caller level text (s, none) = (s, none)
  after_rotate now caller level text (s, some l) = write_line l (line_of l now caller level text) s

  -- `Output`
  unfoldable pub output : Logger → ℤ → Option (Bytes × ℕ) → ℕ → Bytes → S → S × Option Logger
  output l now caller level text s = after_rotate now caller level text (rotate l now s)

  -- `log` and `logformat`: the text is formatted by package fmt.
  unfoldable pub log_text : Logger → ℤ → Option (Bytes × ℕ) → ℕ → Bytes → S → S × Option Logger
  log_text l now caller level text s =
      if ltb l.level level then (s, some l) else output l now caller level text s

  -- The texts logged one after the other; those above the level of the logger are left out.
  abbrev after_log : (Logger → S → S × Option Logger) → S × Option Logger → S × Option Logger
  after_log more (s, none) = (s, none)
  after_log more (s, some l) = more l s

  unfoldable pub logs : List Call → Logger → S → S × Option Logger
  logs [] l s = (s, some l)
  logs (c ∷ calls) l s = after_log (logs calls) (log_text l c.now c.caller c.level c.text s)
