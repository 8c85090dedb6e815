-- ===== src/Service/Loggers.antt =====
-- service/service.go: changeLoggerHandler, over the loggers of log/.
use wqs.Common.{
  ◌≡◌, ℕ, true, ◌||◌, ◌⊎◌, inl, inr, Bytes, codes, ltb, ◌<◌, if◌then◌else◌, arith, Bool-cases,
}
use wqs.Common.Eq.{bytes_eq, bytes_key, bytes_eq_iff}
use wqs.Common.Dict.{insert}
use wqs.Log.{level_name, log_info, log_debug, log_error, log_warning}
use wqs.Log.Loggers.{Loggers, get_logger, profile_get_logger, set_log_level}
use wqs.Service.{ResponseMessage}
use wqs.Service.Shown.{
  logger_open, logger_close, open_unless, loggers_shown, IsApart, set_info, set_debug, set_profile,
}

abbrev pub Changed : Type 0
Changed = Loggers × ResponseMessage

not_200 : ◌≡◌ {A = ℕ} 404 200 → ⊥
not_200 e = omega arith

-- What fmt writes for a level that is not supported is a parameter.
module _ (not_support not_found_logger : Bytes → Bytes) where
  abbrev pub changed : Loggers → Changed
  changed ls = (ls, record { code = 200; message = codes "OK" })

  abbrev pub refused : Loggers → Bytes → Changed
  refused ls level = (ls, record { code = 400; message = not_support level })

  unfoldable pub change_info : Bytes → Loggers → Changed
  change_info level ls =
      let a = get_logger log_info ls in
      if bytes_eq level (codes "info")
      then changed (set_log_level a log_info ls)
      else if bytes_eq level (codes "warning")
      then changed (set_log_level a log_warning ls)
      else if bytes_eq level (codes "error")
      then changed (set_log_level a log_error ls)
      else refused ls level

  -- `debug` and `profile`: the address, and the level of an open logger.
  unfoldable pub change_switch : ℕ → ℕ → Bytes → Loggers → Changed
  change_switch a opened level ls =
      if bytes_eq level logger_open
      then changed (set_log_level a opened ls)
      else if bytes_eq level logger_close
      then changed (set_log_level a log_error ls)
      else refused ls level

  abbrev pub change_named : Bytes → Bytes → Loggers → Changed
  change_named name level ls =
      if bytes_eq name (codes "info")
      then change_info level ls
      else if bytes_eq name (codes "debug")
      then change_switch (get_logger log_debug ls) log_debug level ls
      else change_switch (profile_get_logger ls) log_info level ls

  abbrev pub with_level : Bytes → Loggers → Bytes ⊎ Bytes → Changed
  with_level name ls (inl level) = change_named name level ls
  with_level name ls (inr error) = (ls, record { code = 400; message = error })

  -- The name of the path, and what decoding the body gives: a level or the text of an error.
  unfoldable pub change_logger_handler : Bytes → Bytes ⊎ Bytes → Loggers → Changed
  unfolding change_info change_switch
  change_logger_handler name body ls =
      if bytes_eq name (codes "info")
        || (bytes_eq name (codes "debug") || bytes_eq name (codes "profile"))
      then with_level name ls body
      else (ls, record { code = 404; message = not_found_logger name })

  change_info-shown :
      (level : Bytes) (ls : Loggers)
      → IsApart ls
      → (change_info level ls).1.code ≡ 200
      → loggers_shown (change_info level ls).0 ≡ insert (loggers_shown ls) (codes "info") level
  unfolding change_info level_name
  change_info-shown level ls apart done = ground (
    arith,
    set_info ls apart log_info,
    set_info ls apart log_warning,
    set_info ls apart log_error,
    bytes_eq_iff level (codes "info"),
    bytes_eq_iff level (codes "warning"),
    bytes_eq_iff level (codes "error"),
  )

  change_switch-shown :
      (name level : Bytes) (a opened : ℕ) (ls : Loggers)
      → log_error < opened
      → ((n : ℕ)
          → loggers_shown (set_log_level a n ls)
            ≡ insert (loggers_shown ls) name (open_unless (ltb n opened)))
      → (change_switch a opened level ls).1.code ≡ 200
      → loggers_shown (change_switch a opened level ls).0 ≡ insert (loggers_shown ls) name level
  unfolding change_switch
  change_switch-shown name level a opened ls above set done = ground (
    arith,
    set opened,
    set log_error,
    bytes_eq_iff level logger_open,
    bytes_eq_iff level logger_close,
  )

  change_named-shown :
      (name level : Bytes) (ls : Loggers)
      → IsApart ls
      → (bytes_eq name (codes "info")
          || (bytes_eq name (codes "debug") || bytes_eq name (codes "profile")))
        ≡ true
      → (change_named name level ls).1.code ≡ 200
      → loggers_shown (change_named name level ls).0 ≡ insert (loggers_shown ls) name level
  change_named-shown name level ls apart known done = ground (
    arith,
    change_info-shown level ls apart,
    change_switch-shown (codes "debug") level (get_logger log_debug ls) log_debug ls (omega arith)
        (set_debug ls apart),
    change_switch-shown (codes "profile") level (profile_get_logger ls) log_info ls (omega arith)
        (set_profile ls apart),
    bytes_eq_iff name (codes "info"),
    bytes_eq_iff name (codes "debug"),
    bytes_eq_iff name (codes "profile"),
  )

  -- Where the three names stand for three loggers, a request to change one that is answered 200
  -- changes what getLoggerHandler shows of this one, to the level asked for, and of no other.
  pub change_logger-shown :
      (name level : Bytes) (ls : Loggers)
      → IsApart ls
      → (change_logger_handler name (inl level) ls).1.code ≡ 200
      → loggers_shown (change_logger_handler name (inl level) ls).0
        ≡ insert (loggers_shown ls) name level
  unfolding change_logger_handler
  change_logger-shown name level ls apart done =
      elim (Bool-cases (
        bytes_eq name (codes "info")
        || (bytes_eq name (codes "debug") || bytes_eq name (codes "profile")))) [
          | inl known ↦ rw known (change_named-shown name level ls apart known (rw known at done))
          | inr unknown ↦ absurd (not_200 (rw unknown at done))
        ]
