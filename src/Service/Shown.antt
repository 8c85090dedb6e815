-- ===== src/Service/Shown.antt =====
-- service/service.go: getLoggerHandler, and what it shows of the loggers once a level is set.
use wqs.Common.{
  ◌≡◌, ◌≢◌, refl, ap, ◌∙◌, sym, ℕ, Bool, ◌⊎◌, inl, inr, [], ◌∷◌, Bytes, codes, ltb, if◌then◌else◌,
  arith,
}
use wqs.Common.Eq.{bytes_eq, bytes_key}
use wqs.Common.Dict.{Dict, insert}
use wqs.Log.{level_name, log_info, log_debug}
use wqs.Log.Loggers.{Loggers, get_logger, get_level, profile_get_logger, set_log_level}
use wqs.Service.{ResponseMessage}

abbrev pub logger_open : Bytes
logger_open = codes "open"

abbrev pub logger_close : Bytes
logger_close = codes "close"

abbrev pub open_unless : Bool → Bytes
open_unless below = if below then logger_close else logger_open

-- The map that getLoggerHandler encodes.
unfoldable pub loggers_shown : Loggers → Dict Bytes Bytes
unfolding level_name
loggers_shown ls =
    insert
      (insert (insert [] (codes "info") (level_name (get_level (get_logger log_info ls) ls)))
        (codes "debug") (open_unless (ltb (get_level (get_logger log_debug ls) ls) log_debug)))
      (codes "profile") (open_unless (ltb (get_level (profile_get_logger ls) ls) log_info))

abbrev pub encoded : Bytes ⊎ Bytes → ResponseMessage
encoded (inl text) = record { code = 200; message = text }
encoded (inr error) = record { code = 500; message = error }

-- `encode` is the JSON of a map, or the text of an error.
unfoldable pub get_logger_handler : (Dict Bytes Bytes → Bytes ⊎ Bytes) → Loggers → ResponseMessage
unfolding loggers_shown
get_logger_handler encode ls = encoded (encode (loggers_shown ls))

-- The three names stand for three loggers, as initLogger sets them.
pub record IsApart (ls : Loggers) : Type 0 where
  pub info_debug : get_logger log_info ls ≢ get_logger log_debug ls
  pub info_profile : get_logger log_info ls ≢ profile_get_logger ls
  pub debug_profile : get_logger log_debug ls ≢ profile_get_logger ls

pub get_level_self : (a level : ℕ) (ls : Loggers) → get_level a (set_log_level a level ls) ≡ level
unfolding set_log_level
get_level_self a level ls = ground arith

pub get_level_other :
    (a b level : ℕ) (ls : Loggers) → a ≢ b → get_level b (set_log_level a level ls) ≡ get_level b ls
unfolding set_log_level
get_level_other a b level ls h = ground arith

-- The map for given levels.
unfoldable pub shown_of : ℕ → ℕ → ℕ → Dict Bytes Bytes
shown_of info debug profile =
    (codes "info", level_name info)
    ∷ (codes "debug", open_unless (ltb debug log_debug))
    ∷ (codes "profile", open_unless (ltb profile log_info))
    ∷ []

pub loggers_shown-shown_of :
    (ls : Loggers)
    → loggers_shown ls
      ≡ shown_of
          (get_level (get_logger log_info ls) ls)
          (get_level (get_logger log_debug ls) ls)
          (get_level (profile_get_logger ls) ls)
unfolding loggers_shown insert bytes_eq shown_of
loggers_shown-shown_of ls = refl

pub loggers_shown_levels :
    (ls : Loggers) (x y z : ℕ)
    → get_level (get_logger log_info ls) ls ≡ x
    → get_level (get_logger log_debug ls) ls ≡ y
    → get_level (profile_get_logger ls) ls ≡ z
    → loggers_shown ls ≡ shown_of x y z
loggers_shown_levels ls x y z e f g = loggers_shown-shown_of ls ∙ λ k. shown_of (e k) (f k) (g k)

module _ (ls : Loggers) (apart : IsApart ls) (level : ℕ) where
  pub set_info :
      loggers_shown (set_log_level (get_logger log_info ls) level ls)
      ≡ insert (loggers_shown ls) (codes "info") (level_name level)
  unfolding insert bytes_eq shown_of set_log_level
  set_info =
      loggers_shown_levels (set_log_level (get_logger log_info ls) level ls) level
        (get_level (get_logger log_debug ls) ls) (get_level (profile_get_logger ls) ls)
        (get_level_self (get_logger log_info ls) level ls)
        (get_level_other (get_logger log_info ls) (get_logger log_debug ls) level ls
          apart.info_debug)
        (get_level_other (get_logger log_info ls) (profile_get_logger ls) level ls
          apart.info_profile)
      ∙ ap (λ (m : Dict Bytes Bytes). insert m (codes "info") (level_name level))
          (sym (loggers_shown-shown_of ls))

  pub set_debug :
      loggers_shown (set_log_level (get_logger log_debug ls) level ls)
      ≡ insert (loggers_shown ls) (codes "debug") (open_unless (ltb level log_debug))
  unfolding insert bytes_eq shown_of set_log_level
  set_debug =
      loggers_shown_levels (set_log_level (get_logger log_debug ls) level ls)
        (get_level (get_logger log_info ls) ls) level (get_level (profile_get_logger ls) ls)
        (get_level_other (get_logger log_debug ls) (get_logger log_info ls) level ls
          (λ e. apart.info_debug (sym e)))
        (get_level_self (get_logger log_debug ls) level ls)
        (get_level_other (get_logger log_debug ls) (profile_get_logger ls) level ls
          apart.debug_profile)
      ∙ ap (λ (m : Dict Bytes Bytes). insert m (codes "debug") (open_unless (ltb level log_debug)))
          (sym (loggers_shown-shown_of ls))

  pub set_profile :
      loggers_shown (set_log_level (profile_get_logger ls) level ls)
      ≡ insert (loggers_shown ls) (codes "profile") (open_unless (ltb level log_info))
  unfolding insert bytes_eq shown_of set_log_level
  set_profile =
      loggers_shown_levels (set_log_level (profile_get_logger ls) level ls)
        (get_level (get_logger log_info ls) ls) (get_level (get_logger log_debug ls) ls) level
        (get_level_other (profile_get_logger ls) (get_logger log_info ls) level ls
          (λ e. apart.info_profile (sym e)))
        (get_level_other (profile_get_logger ls) (get_logger log_debug ls) level ls
          (λ e. apart.debug_profile (sym e)))
        (get_level_self (profile_get_logger ls) level ls)
      ∙ ap (λ (m : Dict Bytes Bytes). insert m (codes "profile") (open_unless (ltb level log_info)))
          (sym (loggers_shown-shown_of ls))
