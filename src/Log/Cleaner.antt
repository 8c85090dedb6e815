-- ===== src/Log/Cleaner.antt =====
-- log/cleaner.go: the removal of expired files. Of the goroutine and its channel, the state counts
-- how often one was started and the other closed.
use wqs.Common.{
  ◌≡◌, ℕ, ◌+◌, ◌≤◌, ◌/◌, Bool, true, false, ◌&&◌, not, Option, none, some, List, [], ◌∷◌, ◌++◌,
  Bytes, codes, ◌==◌, if◌then◌else◌, arith,
}
use wqs.Common.Int.{ℤ, pos, ◌-ℤ◌, ltb_ℤ}
use wqs.Common.Eq.{bytes_key}
use wqs.Common.Dict.{Dict, insert}
use wqs.Go.Strings.{contains, contains-append}
use wqs.Log.{TimeOps, Logger}
use wqs.Log.Rolling.{archive_name}
use mathlib.Core.List.{append_assoc}

pub record FileInfo : Type 0 where
  pub name : Bytes
  pub mod_time : ℤ
  pub is_dir : Bool

-- What is called of packages path, ioutil and os: `none` is an error of ReadDir, and one of Remove
-- is dropped.
pub record Directories (S : Type 0) : Type 0 where
  pub dir_of : Bytes → Bytes
  pub join : Bytes → Bytes → Bytes
  pub read_dir : Bytes → S → Option (List FileInfo)
  pub remove : Bytes → S → S

-- Durations are nanoseconds, none below zero: `time.ParseDuration` is a parameter.
pub record Cleaner : Type 0 where
  pub dirs : Dict Bytes (Unit {0})
  pub duration : ℕ
  pub expire : ℕ
  pub stopping : ℕ
  pub loops : ℕ
  pub closes : ℕ

abbrev pub default_expire : ℕ
default_expire = 259200000000000

abbrev expire_of : Option ℕ → ℕ
expire_of none = default_expire
expire_of (some d) = d

abbrev pub add_dirs :
    {S : Type 0} → Directories S → List Bytes → Dict Bytes (Unit {0}) → Dict Bytes (Unit {0})
add_dirs fs [] dirs = dirs
add_dirs fs (file ∷ files) dirs = add_dirs fs files (insert dirs (fs.dir_of file) tt)

unfoldable pub new_cleaner :
    {S : Type 0} → Directories S → (Bytes → Option ℕ) → Bytes → List Bytes → Cleaner
new_cleaner fs parse_duration expire files = record {
  dirs = add_dirs fs files [];
  duration = expire_of (parse_duration expire) / 2;
  expire = expire_of (parse_duration expire);
  stopping = 0;
  loops = 0;
  closes = 0;
}

unfoldable pub start : Cleaner → Cleaner
start c = if c.stopping == 0 then record c { stopping = 1; loops = c.loops + 1 } else c

unfoldable pub stop : Cleaner → Cleaner
stop c = if c.stopping == 1 then record c { stopping = 2; closes = c.closes + 1 } else c

unfoldable pub is_expired : Cleaner → ℤ → FileInfo → Bool
is_expired c now file =
    contains file.name (codes ".log.")
    && (ltb_ℤ (pos c.expire) (now -ℤ file.mod_time) && not file.is_dir)

module _ {S : Type 0} (fs : Directories S) where
  unfoldable pub check_files : Cleaner → ℤ → Bytes → List FileInfo → S → S
  check_files c now dir [] s = s
  check_files c now dir (file ∷ files) s =
      check_files c now dir files
        (if is_expired c now file then fs.remove (fs.join dir file.name) s else s)

  abbrev check_listed : Cleaner → ℤ → Bytes → Option (List FileInfo) → S → S
  check_listed c now dir none s = s
  check_listed c now dir (some files) s = check_files c now dir files s

  unfoldable pub check_dirs : Cleaner → ℤ → Dict Bytes (Unit {0}) → S → S
  unfolding check_files
  check_dirs c now [] s = s
  check_dirs c now ((dir, _) ∷ dirs) s =
      check_dirs c now dirs (check_listed c now dir (fs.read_dir dir s) s)

  -- `check`, in the order in which the directories are visited.
  unfoldable pub check : Cleaner → ℤ → S → S
  unfolding check_dirs
  check c now s = check_dirs c now c.dirs s

-- Calls of Start and Stop, in any order: true is Start.
unfoldable pub calls : List Bool → Cleaner → Cleaner
unfolding start stop
calls [] c = c
calls (true ∷ rest) c = calls rest (start c)
calls (false ∷ rest) c = calls rest (stop c)

pub record IsSound (c : Cleaner) : Type 0 where
  pub started : c.loops ≡ (if c.stopping == 0 then 0 else 1)
  pub stopped : c.closes ≡ (if c.stopping == 2 then 1 else 0)
  pub state : c.stopping ≤ 2

start-IsSound : {c : Cleaner} → IsSound c → IsSound (start c)
unfolding start
start-IsSound v = ground arith

stop-IsSound : {c : Cleaner} → IsSound c → IsSound (stop c)
unfolding stop
stop-IsSound v = ground arith

calls-IsSound : (bs : List Bool) (c : Cleaner) → IsSound c → IsSound (calls bs c)
unfolding calls
calls-IsSound [] c v = v
calls-IsSound (true ∷ bs) c v = calls-IsSound bs (start c) (start-IsSound v)
calls-IsSound (false ∷ bs) c v = calls-IsSound bs (stop c) (stop-IsSound v)

-- However often Start and Stop of a new cleaner are called, and in whatever order, one goroutine
-- at most is started and the channel is closed at most once, and not before the start.
pub calls-once :
    {S : Type 0} (fs : Directories S) (parse_duration : Bytes → Option ℕ) (expire : Bytes)
    (files : List Bytes) (bs : List Bool)
    → IsSound (calls bs (new_cleaner fs parse_duration expire files))
unfolding new_cleaner
calls-once fs parse_duration expire files bs = calls-IsSound bs _ (ground arith)

-- A file that a rotation kept of a log file `*.log` is expired exactly if it is older than the
-- time set.
pub is_expired-archive :
    (time : TimeOps) (l : Logger) (path : Bytes) (c : Cleaner) (now mod_time : ℤ)
    → l.file_name ≡ path ++ codes ".log"
    → is_expired c now (record { name = archive_name time l; mod_time = mod_time; is_dir = false })
      ≡ ltb_ℤ (pos c.expire) (now -ℤ mod_time)
unfolding is_expired archive_name
is_expired-archive time l path c now mod_time e =
    let suffix : Bytes = time.format l.suffix_time l.file_suffix in
    let whole : l.file_name ++ (codes "." ++ suffix) ≡ path ++ (codes ".log." ++ suffix) =
      rw e (append_assoc path (codes ".log") (codes "." ++ suffix)) in
    rw (whole, contains-append path (codes ".log.") suffix) (ground arith)
