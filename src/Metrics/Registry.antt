-- ===== src/Metrics/Registry.antt =====
-- metrics/metrics.go and the arbiter of metrics/meter.go: the bus of events, the registry, and the
-- ticks. The registry of go-metrics is a record of operations; the meters that the arbiter ticks
-- are named by their keys. `none` is the panic of a type assertion.
use wqs.Common.{
  ◌≡◌, ℕ, Bool, true, Option, none, some, List, [], ◌∷◌, ◌++◌, Bytes, ltb, if◌then◌else◌, length,
}
use wqs.Common.Int.{ℤ, pos, int64, ◌+ℤ◌}
use wqs.Common.Eq.{bytes_key}
use wqs.Metrics.{
  Floats, Instruments, Metric, counter, gauge, meter, timer, other, new_timer, new_qps_meter,
  update, mark, tick_timer, tick_meter, Timer, QpsMeter,
}

-- `Get`, `Register`, and `Each` in the order of its visit.
pub record Registry (R M : Type 0) : Type 0 where
  pub find : R → Bytes → Option M
  pub put : R → Bytes → M → R
  pub entries : R → List (Bytes × M)

pub record RegistryLaws {R M : Type 0} (reg : Registry R M) : Type 0 where
  pub find-put :
      (r : R) (j k : Bytes) (m : M)
      → reg.find (reg.put r j m) k ≡ (if bytes_key.beq j k then some m else reg.find r k)

pub record InstrumentLaws {C G : Type 0} (i : Instruments C G) : Type 0 where
  pub count-new : i.count_of i.new_counter ≡ pos 0
  pub count-inc : (c : C) (n : ℤ) → i.count_of (i.inc c n) ≡ int64 (i.count_of c +ℤ n)

pub data EventType : Type 0 where
  event_counter event_meter event_timer event_gauge : EventType

pub record Event : Type 0 where
  pub event : EventType
  pub key : Bytes
  pub value : ℤ

abbrev pub event_buffer_size : ℕ
event_buffer_size = 102400

pub record State (R : Type 0) : Type 0 where
  pub event_bus : List Event
  pub registry : R
  pub meters : List Bytes
  pub stopping : Bool
  pub stopped : Bool

-- `AddCounter`, `AddMeter`, `AddTimer` and `AddGauge`: an event is dropped where the bus is full.
unfoldable pub add : {R : Type 0} → EventType → Bytes → ℤ → State R → State R
add kind key value s =
    if ltb (length s.event_bus) event_buffer_size
    then record s {
      event_bus = s.event_bus ++ record { event = kind; key = key; value = value } ∷ [];
    }
    else s

-- `Stop`: the channel is closed once.
unfoldable pub stop : {R : Type 0} → State R → State R
stop s = if s.stopping then s else record s { stopping = true; stopped = true }

module _ {R C G F : Type 0} (f : Floats F) (i : Instruments C G)
    (reg : Registry R (Metric C G F)) where
  -- The metric of a key, made if there is none; `none` where it is of another kind.
  abbrev pub counter_in : Option (Metric C G F) → Option C
  counter_in none = some i.new_counter
  counter_in (some (counter c)) = some c
  counter_in (some m) = none

  abbrev pub gauge_in : Option (Metric C G F) → Option G
  gauge_in none = some i.new_gauge
  gauge_in (some (gauge g)) = some g
  gauge_in (some m) = none

  abbrev pub meter_in : ℤ → Option (Metric C G F) → Option (QpsMeter F)
  meter_in now none = some (new_qps_meter f now)
  meter_in now (some (meter m)) = some m
  meter_in now (some m) = none

  abbrev pub timer_in : Option (Metric C G F) → Option (Timer F)
  timer_in none = some (new_timer f)
  timer_in (some (timer t)) = some t
  timer_in (some m) = none

  -- A new meter or timer goes to the arbiter.
  abbrev pub with_new : Bytes → Option (Metric C G F) → List Bytes → List Bytes
  with_new key none meters = meters ++ key ∷ []
  with_new key (some m) meters = meters

  abbrev put_counter : Bytes → ℤ → State R → Option C → Option (State R)
  put_counter key v s none = none
  put_counter key v s (some c) =
      some (record s { registry = reg.put s.registry key (counter (i.inc c v)) })

  abbrev put_gauge : Bytes → ℤ → State R → Option G → Option (State R)
  put_gauge key v s none = none
  put_gauge key v s (some g) =
      some (record s { registry = reg.put s.registry key (gauge (i.update_gauge g v)) })

  abbrev put_meter : Bytes → ℤ → State R → Option (QpsMeter F) → Option (State R)
  put_meter key v s none = none
  put_meter key v s (some m) = some (record s {
    registry = reg.put s.registry key (meter (mark m v));
    meters = with_new key (reg.find s.registry key) s.meters;
  })

  abbrev put_timer : Bytes → ℤ → State R → Option (Timer F) → Option (State R)
  put_timer key v s none = none
  put_timer key v s (some t) = some (record s {
    registry = reg.put s.registry key (timer (update t v));
    meters = with_new key (reg.find s.registry key) s.meters;
  })

  abbrev process : EventType → Bytes → ℤ → ℤ → State R → Option (State R)
  process event_counter key v now s = put_counter key v s (counter_in (reg.find s.registry key))
  process event_meter key v now s = put_meter key v s (meter_in now (reg.find s.registry key))
  process event_timer key v now s = put_timer key v s (timer_in (reg.find s.registry key))
  process event_gauge key v now s = put_gauge key v s (gauge_in (reg.find s.registry key))

  -- `processEvent`, at a time, which a new meter keeps.
  unfoldable pub process_event : ℤ → Event → State R → Option (State R)
  process_event now e s = process e.event e.key e.value now s

  -- A case of `eventLoop` that receives from the bus.
  abbrev after_event : (State R → Option (State R)) → Option (State R) → Option (State R)
  after_event more none = none
  after_event more (some s) = more s

  unfoldable pub process_events : ℤ → List Event → State R → Option (State R)
  process_events now [] s = some s
  process_events now (e ∷ es) s = after_event (process_events now es) (process_event now e s)

  -- `GetCounter`: a counter that is not there is registered.
  abbrev put_found : Bytes → State R → Option C → Option (ℤ × State R)
  put_found key s none = none
  put_found key s (some c) =
      some (i.count_of c, record s { registry = reg.put s.registry key (counter c) })

  unfoldable pub get_counter : Bytes → State R → Option (ℤ × State R)
  get_counter key s = put_found key s (counter_in (reg.find s.registry key))

  -- The ticks of the arbiter, for each meter and timer.
  abbrev ticked : ℤ → Bytes → R → Option (Metric C G F) → R
  ticked now key r (some (meter m)) = reg.put r key (meter (tick_meter f now m))
  ticked now key r (some (timer t)) = reg.put r key (timer (tick_timer f t))
  ticked now key r m = r

  unfoldable pub tick_keys : ℤ → List Bytes → R → R
  tick_keys now [] r = r
  tick_keys now (key ∷ keys) r = tick_keys now keys (ticked now key r (reg.find r key))

  unfoldable pub tick_meters : ℤ → State R → State R
  unfolding tick_keys
  tick_meters now s = record s { registry = tick_keys now s.meters s.registry }

  -- `snapshot`: the metrics of the kinds that it knows; `none` where there is no element.
  abbrev pub kept : List (Bytes × Metric C G F) → List (Bytes × Metric C G F)
  kept [] = []
  kept ((key, other) ∷ es) = kept es
  kept ((key, m) ∷ es) = (key, m) ∷ kept es

  abbrev snapshot_of : List (Bytes × Metric C G F) → Option (List (Bytes × Metric C G F))
  snapshot_of [] = none
  snapshot_of (e ∷ es) = some (kept (e ∷ es))

  unfoldable pub snapshot : State R → Option (List (Bytes × Metric C G F))
  snapshot s = snapshot_of (reg.entries s.registry)

  -- `sink`: each writer gets the snapshot, in the order of the visit; its error is logged.
  module _ {W : Type 0} (writers : List (List (Bytes × Metric C G F) → W → W)) where
    abbrev write_all :
        List (List (Bytes × Metric C G F) → W → W) → List (Bytes × Metric C G F) → W → W
    write_all [] snap w = w
    write_all (writer ∷ rest) snap w = write_all rest snap (writer snap w)

    abbrev write_snapshot : Option (List (Bytes × Metric C G F)) → W → W
    write_snapshot none w = w
    write_snapshot (some snap) w = write_all writers snap w

    unfoldable pub sink : State R → W → W
    unfolding snapshot
    sink s w = write_snapshot (snapshot s) w
