-- ===== src/Log/Tests.antt =====
-- Lines and runs of loggers, and of a cleaner.
use wqs.Common.{
  ℕ, ◌+◌, ◌≡◌, refl, true, false, none, some, List, [], ◌∷◌, ◌++◌, Bytes, codes, arith,
}
use wqs.Common.Int.{pos, pos_part, ◌-ℤ◌, ltb_ℤ}
use wqs.Common.Dict.{insert}
use wqs.Go.Strings.{contains}
use wqs.Log.{
  Logger, new_logger, rolling_by_hour, TimeOps, DateTime, itoa, itoa_loop, format_prefix,
  level_mark, with_newline, l_shortfile, l_level, l_time, l_date, log_error, log_debug, log_info,
  short_name, after_slash,
}
use wqs.Log.Numbers.{Written, itoa-Written}
use wqs.Log.Rolling.{Files, archive_name, logs, Call, log_text, output, rotate}
use wqs.Log.Prefix.{IsSome}
use wqs.Log.Archive.{rotation_count, IsWorking, archive_names, logs-archive_names}
use wqs.Log.Cleaner.{
  Cleaner, Directories, IsSound, new_cleaner, calls, calls-once, is_expired, check,
  is_expired-archive,
}
use wqs.Log.Loggers.{Loggers, init, set_log_level, get_level, get_logger}

noon : DateTime
noon = record { year = 2016; month = 5; day = 7; hour = 12; minute = 30; second = 9 }

-- Every time reads as noon, and a time is written by its number.
abbrev stopped_time : TimeOps
stopped_time = record {
  local = λ t. noon;
  utc = λ t. noon;
  format = λ t layout. (b'0' + pos_part t) ∷ [];
  date = λ t. pos t.hour;
}

prefixed :
    format_prefix stopped_time
      (l_date + l_time + l_level + l_shortfile)
      (pos 0)
      (codes "/a/log.go")
      71
      log_error
    ≡ some (codes "2016-05-07 12:30:09 [ERROR] log.go:71: ")
unfolding format_prefix itoa itoa_loop noon level_mark short_name after_slash
prefixed = refl

numbers :
    (itoa 7 4 ≡ some (codes "0007")) × (itoa 12345 2 ≡ some (codes "12345")) × (itoa 5 21 ≡ none)
unfolding itoa itoa_loop
numbers = (refl, refl, refl)

itoa-Written_example : Written 2016 4 20 [] (itoa 2016 4)
itoa-Written_example = itoa-Written 2016 4 (omega arith) (omega arith)

lines : (with_newline (codes "a") ≡ codes "a\n") × (with_newline (codes "a\n") ≡ codes "a\n")
unfolding with_newline
lines = (refl, refl)

-- The renamings so far, the latest last.
abbrev recording : Files (List (Bytes × Bytes))
recording = record {
  mkdir_all_of = λ name s. (s, true);
  open_append = λ name s. (s, some 1);
  close = λ fd s. (s, true);
  rename = λ a b s. (s ++ (a, b) ∷ [], true);
  write = λ fd text s. (s, true);
}

works : IsWorking stopped_time recording (λ s. s)
unfolding noon
works = record {
  closes = λ fd s. refl;
  close_keeps = λ fd s. refl;
  renames = λ a b s. refl;
  rename_adds = λ a b s. refl;
  opens = λ a s. (1, refl);
  open_keeps = λ a s. refl;
  write_keeps = λ fd a s. refl;
  local_small = λ t. omega arith;
  utc_small = λ t. omega arith;
}

abbrev rolling_logger : Logger
rolling_logger = record (new_logger (codes "x.log")) {
  rolling = rolling_by_hour;
  suffix_time = pos 1;
  to_roll = pos 2;
  duration = pos 1;
}

abbrev call_at : ℕ → ℕ → Call
call_at t level = record { now = pos t; caller = none; level = level; text = codes "m" }

abbrev three_calls : List Call
three_calls =
    call_at 2 log_info ∷ call_at 7 log_error ∷ call_at 7 log_debug ∷ call_at 7 log_info ∷ []

-- Five periods after the start, each line makes one archive more, and of a period long past.
behind :
    (logs stopped_time recording three_calls rolling_logger []).0
    ≡ (codes "x.log", codes "x.log.1") ∷ (codes "x.log", codes "x.log.2") ∷ []
unfolding logs log_text output rotate archive_name format_prefix itoa itoa_loop noon level_mark
behind = refl

logs-archive_names_example :
    IsSome (logs stopped_time recording three_calls rolling_logger []).1
    × ((logs stopped_time recording three_calls rolling_logger []).0
        ≡ []
          ++ archive_names
              (codes "x.log")
              (λ t. (b'0' + pos_part t) ∷ [])
              (pos 1)
              (rotation_count three_calls true log_info (pos 2) (pos 1))
              (pos 1))
logs-archive_names_example =
    logs-archive_names stopped_time recording (λ s. s) works three_calls rolling_logger []
      (omega arith)

-- The directory holds one file; the state lists what was removed.
abbrev one_file : Directories (List Bytes)
one_file = record {
  dir_of = λ file. codes "d";
  join = λ dir name. dir ++ (codes "/" ++ name);
  read_dir = λ dir s. some (
      record { name = codes "x.log.1"; mod_time = pos 1; is_dir = false }
      ∷ record { name = codes "x.log"; mod_time = pos 1; is_dir = false }
      ∷ []);
  remove = λ path s. path ∷ s;
}

abbrev cleaner : Cleaner
cleaner = new_cleaner one_file (λ text. some 9) (codes "9ns") (codes "d/x.log" ∷ [])

checked :
    (check one_file cleaner (pos 11) [] ≡ codes "d/x.log.1" ∷ [])
    × (check one_file cleaner (pos 10) [] ≡ [])
unfolding check is_expired contains new_cleaner insert
checked = (refl, refl)

calls-once_example : IsSound (
    calls
      (false ∷ true ∷ true ∷ false ∷ false ∷ [])
      (new_cleaner one_file (λ text. some 9) (codes "9ns") (codes "d/x.log" ∷ [])))
calls-once_example =
    calls-once one_file (λ text. some 9) (codes "9ns") (codes "d/x.log" ∷ [])
      (false ∷ true ∷ true ∷ false ∷ false ∷ [])

is_expired-archive_example :
    is_expired cleaner
      (pos 11)
      (record { name = archive_name stopped_time rolling_logger; mod_time = pos 1; is_dir = false })
    ≡ ltb_ℤ (pos cleaner.expire) (pos 11 -ℤ pos 1)
is_expired-archive_example =
    is_expired-archive stopped_time rolling_logger (codes "x") cleaner (pos 11) (pos 1) refl

-- Until initLogger has run, the levels share one logger.
shared :
    (ls : Loggers) (l : Logger)
    → get_level
        (get_logger log_info (init l ls))
        (set_log_level (get_logger log_debug (init l ls)) log_error (init l ls))
      ≡ log_error
unfolding init set_log_level
shared ls l = refl
