-- ===== src/Log/Loggers.antt =====
-- log/mulit_handler.go and initLogger of main.go: the loggers of the program. A logger is an
-- address, and several levels may share one. The levels are the constants from 0 to 4.
use wqs.Common.{
  ℕ, ◌+◌, Bool, true, false, Option, none, some, List, [], ◌∷◌, Bytes, ◌==◌, if◌then◌else◌,
}
use wqs.Common.Int.{ℤ}
use wqs.Log.{
  Logger, new_logger, l_std_flags, l_level, log_fatal, log_error, log_warning, log_info, log_debug,
  rolling_by_day, rolling_by_hour, TimeOps,
}
use wqs.Log.Rolling.{Files, open_logger, close_logger, set_rolling, output, log_text}

pub record Loggers : Type 0 where
  pub heap : ℕ → Logger
  pub ops_logger : ℕ → ℕ
  pub prof_logger : ℕ

abbrev pub at : {A : Type 0} → (ℕ → A) → ℕ → A → ℕ → A
at f k v n = if k == n then v else f n

unfoldable pub set_log_level : ℕ → ℕ → Loggers → Loggers
set_log_level a level ls = record ls { heap = at ls.heap a (record (ls.heap a) { level = level }) }

unfoldable pub set_flags : ℕ → ℕ → Loggers → Loggers
set_flags a flags ls = record ls { heap = at ls.heap a (record (ls.heap a) { flags = flags }) }

unfoldable pub rest_profile_logger : ℕ → Loggers → Loggers
unfolding set_log_level set_flags
rest_profile_logger a ls = record (set_log_level a log_info (set_flags a l_std_flags ls)) {
  prof_logger = a;
}

abbrev pub rest_levels : ℕ → List ℕ → (ℕ → ℕ) → ℕ → ℕ
rest_levels a [] f = f
rest_levels a (level ∷ levels) f = rest_levels a levels (at f level a)

unfoldable pub rest_logger : ℕ → List ℕ → Loggers → Loggers
rest_logger a levels ls = record ls { ops_logger = rest_levels a levels ls.ops_logger }

unfoldable pub profile_set_flags : ℕ → Loggers → Loggers
unfolding set_flags
profile_set_flags flags ls = set_flags ls.prof_logger flags ls

abbrev pub profile_get_logger : Loggers → ℕ
profile_get_logger ls = ls.prof_logger

abbrev pub get_logger : ℕ → Loggers → ℕ
get_logger level ls = ls.ops_logger level

abbrev pub get_level : ℕ → Loggers → ℕ
get_level a ls = (ls.heap a).level

-- `init`: one logger, to the standard output, for everything.
unfoldable pub init : Logger → Loggers → Loggers
unfolding rest_profile_logger rest_logger
init stdout ls =
    rest_logger 0 (log_fatal ∷ log_error ∷ log_warning ∷ log_info ∷ log_debug ∷ [])
      (rest_profile_logger 0 (record ls { heap = at ls.heap 0 stdout }))

-- The loggers of the three files, at the addresses 1, 2 and 3, once they are open.
unfoldable pub set_loggers : TimeOps → ℤ → Logger → Logger → Logger → Loggers → Loggers
unfolding rest_profile_logger rest_logger
set_loggers time now info debug profile ls =
    let info =
      set_rolling time now rolling_by_day
        (record info { flags = l_std_flags + l_level; level = log_info }) in
    let debug =
      set_rolling time now rolling_by_hour
        (record debug { flags = l_std_flags; level = log_debug }) in
    let profile = set_rolling time now rolling_by_hour profile in
    rest_profile_logger 3 (
      rest_logger 2 (log_debug ∷ []) (
        rest_logger 1 (log_fatal ∷ log_error ∷ log_warning ∷ log_info ∷ [])
          (record ls { heap = at (at (at ls.heap 1 info) 2 debug) 3 profile })))

module _ {S : Type 0} (time : TimeOps) (files : Files S) where
  abbrev after_third : ℤ → Loggers → Logger → Logger → S × Logger × Bool → S × Loggers × Bool
  after_third now ls info debug (s, profile, false) =
      ((close_logger time files debug (close_logger time files info s).0).0, ls, false)
  after_third now ls info debug (s, profile, true) =
      (s, set_loggers time now info debug profile ls, true)

  abbrev after_second : Bytes → ℤ → Loggers → Logger → S × Logger × Bool → S × Loggers × Bool
  after_second third now ls info (s, debug, false) = ((close_logger time files info s).0, ls, false)
  after_second third now ls info (s, debug, true) =
      after_third now ls info debug (open_logger time files (new_logger third) s)

  abbrev after_first : Bytes → Bytes → ℤ → Loggers → S × Logger × Bool → S × Loggers × Bool
  after_first second third now ls (s, info, false) = (s, ls, false)
  after_first second third now ls (s, info, true) =
      after_second third now ls info (open_logger time files (new_logger second) s)

  -- `initLogger`, but for the cleaner: the files are those for info, debug and profile.
  unfoldable pub init_logger : Bytes → Bytes → Bytes → ℤ → Loggers → S → S × Loggers × Bool
  unfolding open_logger close_logger set_loggers
  init_logger first second third now ls s =
      after_first second third now ls (open_logger time files (new_logger first) s)

  abbrev kept_at : Loggers → ℕ → S × Option Logger → S × Option Loggers
  kept_at ls a (s, none) = (s, none)
  kept_at ls a (s, some l) = (s, some (record ls { heap = at ls.heap a l }))

  -- `Error`, `Warnf` and so on: the logger of a level logs a text at that level.
  unfoldable pub log_at : ℕ → ℤ → Option (Bytes × ℕ) → Bytes → Loggers → S → S × Option Loggers
  log_at level now caller text ls s =
      let a = get_logger level ls in
      kept_at ls a (log_text time files (ls.heap a) now caller level text s)

  unfoldable pub profile : ℤ → Option (Bytes × ℕ) → Bytes → Loggers → S → S × Option Loggers
  profile now caller text ls s =
      let a = profile_get_logger ls in
      kept_at ls a (output time files (ls.heap a) now caller log_info text s)
