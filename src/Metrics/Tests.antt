-- ===== src/Metrics/Tests.antt =====
-- Events, ticks and messages, over whole numbers in place of floating-point ones.
use wqs.Common.{
  ℕ, ◌*◌, ◌/◌, ◌≡◌, refl, false, Option, none, some, List, [], ◌∷◌, Bytes, codes, arith,
}
use wqs.Common.Int.{ℤ, pos, negsuc, pos_part, int64, eq_ℤ, ◌+ℤ◌}
use wqs.Common.Wrap.{total}
use wqs.Common.Eq.{bytes_key, bytes_eq}
use wqs.Common.Dict.{Dict, lookup, insert, lookup-insert}
use wqs.Go.Strings.{split_n, cut}
use wqs.Go.Strconv.{format_int, format_uint, digits}
use wqs.Engine.{ok, err, not_supported, not_valid}
use wqs.Metrics.{Floats, Instruments, Metric, counter, new_timer, tick_timer}
use wqs.Metrics.Windows.{updates, IsTicked, tick_timer-mean}
use wqs.Metrics.Registry.{
  Registry, RegistryLaws, InstrumentLaws, State, Event, event_counter, event_meter, process_events,
  process_event,
}
use wqs.Metrics.Counters.{Counts, Processed, process_events-Processed}
use wqs.Metrics.Saved.{CountsJson, save_counters}
use wqs.Metrics.Graphite.{
  Point, gen_graphite_messages, segment, join_lines, merge_data_set, gen_target, QueryParam,
  local_ip,
}
use wqs.Metrics.Batches.{IsSpread, filter_map, gen_graphite_messages-IsSpread}
use wqs.Metrics.Setup.{get_writer, get_metrics, elapse_time_string}

abbrev whole : Floats ℤ
whole = record {
  zero_float = pos 0;
  of_int = λ n. n;
  int_of = λ n. n;
  plus = ◌+ℤ◌;
  times = λ a b. pos (pos_part a * pos_part b);
  over = λ a b. pos (pos_part a / pos_part b);
  fixed = format_int 10;
  seconds = λ n. n;
}

abbrev plain : Instruments ℤ ℤ
plain = record {
  new_counter = pos 0;
  inc = λ c n. int64 (c +ℤ n);
  count_of = λ c. c;
  new_gauge = pos 0;
  update_gauge = λ g n. n;
  value_of = λ g. g;
}

abbrev Held : Type 0
Held = Dict Bytes (Metric ℤ ℤ ℤ)

abbrev dictionary : Registry Held (Metric ℤ ℤ ℤ)
dictionary = record { find = lookup; put = insert; entries = λ r. r }

dictionary_laws : RegistryLaws dictionary
dictionary_laws = record { find-put = lookup-insert }

plain_laws : InstrumentLaws plain
plain_laws = record { count-new = refl; count-inc = λ c n. refl }

abbrev empty : State Held
empty = record { event_bus = []; registry = []; meters = []; stopping = false; stopped = false }

abbrev event_of : Bytes → ℤ → Event
event_of key value = record { event = event_counter; key = key; value = value }

abbrev three_events : List Event
three_events =
    event_of (codes "a") (pos 3)
    ∷ event_of (codes "b") (pos 1)
    ∷ event_of (codes "a") (negsuc 0)
    ∷ []

new_a : (key : Bytes) → Counts whole plain dictionary empty key (pos 0)
unfolding lookup
new_a key = record { held = pos 0; found = refl; count = refl }

process_events-Processed_example :
    Processed whole plain dictionary empty three_events
      (process_events whole plain dictionary (pos 0) three_events empty)
process_events-Processed_example =
    process_events-Processed whole plain dictionary dictionary_laws plain_laws (pos 0) three_events
      empty
      (
        (refl, pos 0, new_a (codes "a")),
        ((refl, pos 0, new_a (codes "b")), ((refl, pos 0, new_a (codes "a")), tt)),
      )

-- A key of a counter cannot be one of a meter: the type assertion panics.
mixed :
    process_events whole plain dictionary
      (pos 0)
      (event_of (codes "a") (pos 3)
        ∷ record { event = event_meter; key = codes "a"; value = pos 1 }
        ∷ [])
      empty
    ≡ none
unfolding process_events process_event lookup insert bytes_eq int64
mixed = refl

abbrev saved_registry : Held
saved_registry = (codes "a", counter (pos 5)) ∷ (codes "b", counter (pos 2)) ∷ []

abbrev counts_map : Dict Bytes ℤ
counts_map = (codes "a", pos 5) ∷ (codes "b", pos 2) ∷ []

-- Text that says nothing, of one map.
abbrev json : CountsJson
json = record { marshal = λ d. 123 ∷ []; unmarshal = λ text. ok counts_map }

abbrev old_state : State Held
old_state = record empty { registry = saved_registry }

saved_map : save_counters {F = ℤ} plain saved_registry [] ≡ counts_map
unfolding save_counters insert bytes_eq
saved_map = refl

tick_timer-mean_example :
    ((tick_timer whole (updates (new_timer whole) (pos 4 ∷ pos 8 ∷ []))).mean
      ≡ whole.over (total (pos 4 ∷ pos 8 ∷ [])) (pos 2))
    × IsTicked (tick_timer whole (updates (new_timer whole) (pos 4 ∷ pos 8 ∷ [])))
unfolding total
tick_timer-mean_example =
    tick_timer-mean whole (new_timer whole) (pos 4) (pos 8 ∷ [])
      (record { even = refl; empty = refl }) (omega arith) (omega arith) (omega arith)

abbrev texts : List (Option Bytes)
texts = some (codes "ab") ∷ none ∷ some (codes "c") ∷ []

messages : gen_graphite_messages (λ o. o) texts ≡ codes "ab\nc\n" ∷ []
unfolding gen_graphite_messages join_lines
messages = refl

gen_graphite_messages-IsSpread_example :
    IsSpread (filter_map (λ o. o) texts) (gen_graphite_messages (λ o. o) texts)
gen_graphite_messages-IsSpread_example = gen_graphite_messages-IsSpread (λ o. o) texts

abbrev point : ℕ → ℕ → Point ℤ
point t v = record { time_stamp = pos t; value = pos v }

abbrev two_points : List (Point ℤ)
two_points = point 1 10 ∷ point 2 20 ∷ []

abbrev sets : List (List (Point ℤ))
sets = (point 7 7 ∷ []) ∷ (point 3 1 ∷ point 4 2 ∷ []) ∷ []

merged : merge_data_set whole (two_points ∷ sets) ≡ point 3 11 ∷ point 4 22 ∷ []
unfolding merge_data_set
merged = refl

abbrev query : QueryParam
query = record {
  host = codes "*";
  group = codes "g";
  queue = codes "q";
  action_key = codes "GET";
  metrics_key = codes "qps";
  start_time = pos 0;
  end_time = pos 9;
  step = pos 1;
}

-- A start of 0 counts as a missing one.
from_zero : get_metrics (some (λ param. ok [])) query ≡ err not_valid
unfolding get_metrics eq_ℤ
from_zero = refl

targets :
    (gen_target (record { root = []; addr = []; service_pool = codes "p" }) query
      ≡ codes "stats_byhost.openapi_profile.p.byhost.*.q.g.GET.qps")
    × (local_ip (codes "10.0.0.1:80") ≡ codes "10_0_0_1")
    × (segment whole plain (codes "p") (codes "h") (codes "k") (counter (pos 12))
        ≡ some (codes "openapi_profile.p.byhost.h.k:12|c"))
unfolding gen_target local_ip segment format_int format_uint digits split_n cut
targets = (refl, refl, refl)

writers :
    (get_writer (codes "redis") [] ≡ err not_supported)
    × (elapse_time_string (pos 50) ≡ codes "Less100ms")
unfolding get_writer bytes_eq elapse_time_string
writers = (refl, refl)
