-- ===== src/Metrics/Setup.antt =====
-- metrics/metrics.go: the writers and the reader that Start sets up, the queries, and the names of
-- the latencies.
use wqs.Common.{Bool, ◌||◌, Option, none, some, List, [], ◌∷◌, Bytes, codes, if◌then◌else◌}
use wqs.Common.Int.{ℤ, pos, eq_ℤ, ltb_ℤ}
use wqs.Common.Eq.{bytes_eq, bytes_key}
use wqs.Common.Dict.{Dict, insert}
use wqs.Go.Strings.{split}
use wqs.Engine.{not_valid, not_supported, Result, ok, err}
use wqs.Config.{Section, Sections, get_string, get_string_must, get_section}
use wqs.Metrics.Graphite.{Graphite, QueryParam}

-- `statWriter`
pub data Writer : Type 0 where
  graphite_writer : Graphite → Writer
  profile_writer : Writer

infixl 5 ◌>>=◌
abbrev ◌>>=◌ : {A B : Type 0} → Result A → (A → Result B) → Result B
ok a >>= f = f a
err e >>= f = err e

abbrev new_graphite : Section → Result Graphite
new_graphite section = do
  addr ← get_string section (codes "graphite.report.addr.udp")
  pool ← get_string section (codes "graphite.service.pool")
  ok (record {
    root = get_string_must section (codes "graphite.root") (codes "localhost");
    addr = addr;
    service_pool = pool;
  })

-- `errUnknownTransport` is `not_supported` here, `errInvalidReader` and `errInvalidParam` are
-- `not_valid`.
unfoldable pub get_writer : Bytes → Section → Result Writer
get_writer name section =
    if bytes_eq name (codes "graphite")
    then (new_graphite section >>= λ g. ok (graphite_writer g))
    else if bytes_eq name (codes "profile")
    then ok profile_writer
    else err not_supported

unfoldable pub get_reader : Bytes → Section → Result Graphite
get_reader name section =
    if bytes_eq name (codes "graphite") then new_graphite section else err not_supported

-- The loop over the names: a writer that is named twice stands once.
unfoldable pub get_writers : List Bytes → Section → Dict Bytes Writer → Result (Dict Bytes Writer)
unfolding get_writer
get_writers [] section writers = ok writers
get_writers (name ∷ names) section writers = do
  w ← get_writer name section
  get_writers names section (insert writers name w)

-- `Start`, up to the start of the loop.
unfoldable pub start : Sections → Result (Dict Bytes Writer × Graphite)
unfolding get_writers get_reader
start sections = do
  section ← get_section sections (codes "metrics")
  let names = split b',' (get_string_must section (codes "transport.writers") (codes "graphite"))
  writers ← get_writers names section []
  reader ←
      get_reader (get_string_must section (codes "transport.reader") (codes "graphite")) section
  ok (writers, reader)

abbrev is_empty : Bytes → Bool
is_empty s = bytes_eq s []

-- `validate`: whether a parameter is missing.
unfoldable pub is_missing : QueryParam → Bool
is_missing q =
    eq_ℤ q.start_time (pos 0)
    || (eq_ℤ q.end_time (pos 0)
        || (eq_ℤ q.step (pos 0)
            || (is_empty q.host
                || (is_empty q.queue
                    || (is_empty q.group || (is_empty q.action_key || is_empty q.metrics_key))))))

-- `GetMetrics`, where the reader, if there is one, is what `read` does.
abbrev read_with : Option (QueryParam → Result Bytes) → QueryParam → Result Bytes
read_with none param = err not_valid
read_with (some read) param = if is_missing param then err not_valid else read param

unfoldable pub get_metrics : Option (QueryParam → Result Bytes) → QueryParam → Result Bytes
unfolding is_missing
get_metrics reader param = read_with reader param

-- `ElapseTimeString`, of milliseconds.
unfoldable pub elapse_time_string : ℤ → Bytes
elapse_time_string t =
    if ltb_ℤ t (pos 10)
    then codes "Less10ms"
    else if ltb_ℤ t (pos 20)
    then codes "Less20ms"
    else if ltb_ℤ t (pos 50)
    then codes "Less50ms"
    else if ltb_ℤ t (pos 100)
    then codes "Less100ms"
    else if ltb_ℤ t (pos 200)
    then codes "Less200ms"
    else if ltb_ℤ t (pos 500)
    then codes "Less500ms"
    else codes "More500ms"
