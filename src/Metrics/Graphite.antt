-- ===== src/Metrics/Graphite.antt =====
-- metrics/graphite.go, metrics/profile.go and metrics/struct.go: what is sent to graphite and what
-- is read from it. The sockets, HTTP and JSON are parameters.
use wqs.Common.{
  ℕ, ◌+◌, Option, none, some, List, [], ◌∷◌, ◌++◌, Bytes, codes, map, ltb, ◌==◌, if◌then◌else◌,
  length,
}
use wqs.Common.Int.{ℤ, pos}
use wqs.Common.Eq.{bytes_eq}
use wqs.Go.Strings.{split_n}
use wqs.Go.Strconv.{format_int}
use wqs.Engine.{Error, Result, ok, err}
use wqs.Metrics.{
  Floats, Instruments, Metric, counter, gauge, gauge_float, histogram, meter, timer, other,
}

abbrev pub message_max_len : ℕ
message_max_len = 65000

-- `strings.Join(texts, "\n")`
unfoldable pub join_lines : List Bytes → Bytes
join_lines [] = []
join_lines (t ∷ []) = t
join_lines (t ∷ u ∷ ts) = t ++ (10 ∷ join_lines (u ∷ ts))

abbrev pub print_message : List Bytes → Bytes
print_message segments = join_lines segments ++ 10 ∷ []

-- `strings.Replace(ip, ".", "_", -1)` of the text before the first colon.
abbrev with_underscores : Bytes → Bytes
with_underscores [] = []
with_underscores (c ∷ s) = (if c == b'.' then b'_' else c) ∷ with_underscores s

abbrev head_or_empty : List Bytes → Bytes
head_or_empty [] = []
head_or_empty (t ∷ ts) = t

unfoldable pub local_ip : Bytes → Bytes
local_ip addr = with_underscores (head_or_empty (split_n b':' addr 2))

module _ {C G F : Type 0} (f : Floats F) (i : Instruments C G) where
  abbrev segment_with : Bytes → Bytes → Bytes → Bytes → Bytes → Bytes
  segment_with pool ip key value kind =
      codes "openapi_profile."
      ++ (pool
          ++ (codes ".byhost." ++ (ip ++ (codes "." ++ (key ++ (codes ":" ++ (value ++ kind)))))))

  unfoldable pub segment : Bytes → Bytes → Bytes → Metric C G F → Option Bytes
  segment pool ip key (counter c) =
      some (segment_with pool ip key (format_int 10 (i.count_of c)) (codes "|c"))
  segment pool ip key (meter m) =
      some (segment_with pool ip key (f.fixed m.snapshot.rate1) (codes "|c"))
  segment pool ip key (timer t) = some (segment_with pool ip key (f.fixed t.mean) (codes "|ms"))
  segment pool ip key (gauge g) =
      some (segment_with pool ip key (format_int 10 (i.value_of g)) (codes "|kv"))
  segment pool ip key m = none

  -- `profile.Write`: the lines that it logs.
  unfoldable pub profile_line : Bytes → Metric C G F → Option Bytes
  profile_line key (counter c) =
      some (key ++ (codes ": " ++ (format_int 10 (i.count_of c) ++ codes "|Counter")))
  profile_line key (meter m) =
      some (key ++ (codes ": " ++ (f.fixed m.snapshot.rate1 ++ codes "|Meter")))
  profile_line key (timer t) = some (key ++ (codes ": " ++ (f.fixed t.mean ++ codes "|Timer")))
  profile_line key (gauge g) =
      some (key ++ (codes ": " ++ (format_int 10 (i.value_of g) ++ codes "|Gauge")))
  profile_line key (gauge_float x) =
      some (key ++ (codes ": " ++ (f.fixed x ++ codes "|GaugeFloat64")))
  profile_line key (histogram x) = some (key ++ (codes ": " ++ (f.fixed x ++ codes "|Histogram")))
  profile_line key other = none

-- The variables of `genGraphiteMessages`: the messages, the segments of the next one, and their
-- length.
pub record Batch : Type 0 where
  pub messages : List Bytes
  pub segments : List Bytes
  pub segments_length : ℕ

unfoldable pub add_segment : Bytes → Batch → Batch
add_segment s b =
    if ltb message_max_len (b.segments_length + length s)
    then record {
      messages = b.messages ++ print_message b.segments ∷ [];
      segments = s ∷ [];
      segments_length = length s;
    }
    else record b {
      segments = b.segments ++ s ∷ [];
      segments_length = b.segments_length + length s;
    }

abbrev pub add_some : Option Bytes → Batch → Batch
add_some none b = b
add_some (some s) b = add_segment s b

abbrev pub last_message : Batch → List Bytes
last_message b = b.messages ++ print_message b.segments ∷ []

abbrev pub no_batch : Batch
no_batch = record { messages = []; segments = []; segments_length = 0 }

module _ {A : Type 0} where
  unfoldable pub add_segments : (A → Option Bytes) → List A → Batch → Batch
  unfolding add_segment
  add_segments print [] b = b
  add_segments print (a ∷ as') b = add_segments print as' (add_some (print a) b)

  -- `genGraphiteMessages`, by the segment of each metric of the snapshot.
  unfoldable pub gen_graphite_messages : (A → Option Bytes) → List A → List Bytes
  unfolding add_segments
  gen_graphite_messages print snap = last_message (add_segments print snap no_batch)

pub record Graphite : Type 0 where
  pub root : Bytes
  pub addr : Bytes
  pub service_pool : Bytes

pub record QueryParam : Type 0 where
  pub host : Bytes
  pub group : Bytes
  pub queue : Bytes
  pub action_key : Bytes
  pub metrics_key : Bytes
  pub start_time : ℤ
  pub end_time : ℤ
  pub step : ℤ

unfoldable pub gen_target : Graphite → QueryParam → Bytes
gen_target m param =
    codes "stats_byhost.openapi_profile."
    ++ (m.service_pool
        ++ (codes ".byhost."
            ++ (param.host
                ++ (codes "."
                    ++ (param.queue
                        ++ (codes "."
                            ++ (param.group
                                ++ (codes "."
                                    ++ (param.action_key
                                        ++ (codes "." ++ param.metrics_key))))))))))

unfoldable pub gen_request_url : Graphite → ℤ → ℤ → Bytes → Bytes
gen_request_url m start_time end_time target =
    codes "http://"
    ++ (m.root
        ++ (codes "/render?from="
            ++ (format_int 10 start_time
                ++ (codes "&until="
                    ++ (format_int 10 end_time
                        ++ (codes "&target=" ++ (target ++ codes "&format=json")))))))

-- A value that JSON gives for an `interface{}`.
pub data Value (F : Type 0) : Type 0 where
  int_value : ℤ → Value F
  float_value : F → Value F
  no_number : Value F

-- `metricsDataPoint`
pub record Point (F : Type 0) : Type 0 where
  pub time_stamp : ℤ
  pub value : F

-- What comes back for a URL: an error of the connection, or a status and the points of each
-- target, if the body could be decoded.
pub data Response (F : Type 0) : Type 0 where
  failed : Response F
  answered : ℕ → Option (List (List (Value F × Value F))) → Response F

-- The JSON of one set of points and of several.
pub record PointsJson (F : Type 0) : Type 0 where
  pub one_text : List (Point F) → Bytes
  pub all_text : List (List (Point F)) → Bytes

module _ {F : Type 0} (f : Floats F) where
  unfoldable pub get_value : Value F → F
  get_value (int_value n) = f.of_int n
  get_value (float_value x) = x
  get_value no_number = f.zero_float

  unfoldable pub get_timestamp : Value F → ℤ
  get_timestamp (int_value n) = n
  get_timestamp (float_value x) = f.int_of x
  get_timestamp no_number = pos 0

  abbrev point_of : Value F × Value F → Point F
  point_of (value, time) = record { time_stamp = get_timestamp time; value = get_value value }

  abbrev data_sets : Option (List (List (Value F × Value F))) → Result (List (List (Point F)))
  data_sets none = err Error.plain
  data_sets (some sets) = ok (map (map point_of) sets)

  unfoldable pub do_request : Response F → Result (List (List (Point F)))
  unfolding get_value get_timestamp
  do_request failed = err Error.plain
  do_request (answered status body) = if status == 200 then data_sets body else err Error.plain

  abbrev pub add_point : Point F → Point F → Point F
  add_point p q = record { time_stamp = q.time_stamp; value = f.plus p.value q.value }

  -- The loop over the points of one set, which has as many as the merged one.
  unfoldable pub add_points : List (Point F) → List (Point F) → List (Point F)
  add_points (p ∷ ps) (q ∷ qs) = add_point p q ∷ add_points ps qs
  add_points ps qs = ps

  unfoldable pub merge_sets : List (List (Point F)) → List (Point F) → List (Point F)
  unfolding add_points
  merge_sets [] points = points
  merge_sets (set ∷ sets) points =
      merge_sets sets (if length set == length points then add_points points set else points)

  abbrev pub zero_points : List (Point F) → List (Point F)
  zero_points [] = []
  zero_points (p ∷ ps) = record { time_stamp = pos 0; value = f.zero_float } ∷ zero_points ps

  unfoldable pub merge_data_set : List (List (Point F)) → List (Point F)
  unfolding merge_sets
  merge_data_set [] = []
  merge_data_set (set ∷ sets) = merge_sets (set ∷ sets) (zero_points set)

  -- `dataSets.String`: no set at all is a nil slice.
  abbrev sets_text : PointsJson F → List (List (Point F)) → Bytes
  sets_text json [] = codes "[]"
  sets_text json (set ∷ sets) = json.all_text (set ∷ sets)

  abbrev read_text : PointsJson F → QueryParam → Result (List (List (Point F))) → Result Bytes
  read_text json param (err e) = err e
  read_text json param (ok sets) = ok (
      if bytes_eq param.host (codes "*")
      then json.one_text (merge_data_set sets)
      else sets_text json sets)

  -- `Read`, where `get` is an HTTP request.
  unfoldable pub read : (Bytes → Response F) → PointsJson F → Graphite → QueryParam → Result Bytes
  unfolding gen_target gen_request_url do_request
  read get json m param =
      read_text json param
        (do_request (get (gen_request_url m param.start_time param.end_time (gen_target m param))))
