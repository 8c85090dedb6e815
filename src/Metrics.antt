-- ===== src/Metrics.antt =====
-- metrics/timer.go and metrics/meter.go: the timers and meters of the program. Floating-point
-- numbers are a parameter, and so is what github.com/rcrowley/go-metrics keeps of a counter or a
-- gauge. A method between the lock and the unlock is one step.
pub mod Windows
pub mod Registry
pub mod Counters
pub mod Saved
pub mod Graphite
pub mod Batches
pub mod Merge
pub mod Setup
mod Tests
use wqs.Common.{ℕ, Bool, true, false, Option, none, some, List, [], ◌∷◌, Bytes, if◌then◌else◌}
use wqs.Common.Int.{ℤ, pos, int64, eq_ℤ, ◌+ℤ◌, ◌-ℤ◌}

-- float64: `int_of` is the conversion to int64, `fixed` the verb %.2f, `seconds` the method
-- Seconds of a duration.
pub record Floats (F : Type 0) : Type 0 where
  pub zero_float : F
  pub of_int : ℤ → F
  pub int_of : F → ℤ
  pub plus : F → F → F
  pub times : F → F → F
  pub over : F → F → F
  pub fixed : F → Bytes
  pub seconds : ℤ → F

pub record Timer (F : Type 0) : Type 0 where
  pub sum : ℤ
  pub prev : ℤ
  pub count : ℤ
  pub mean : F

-- `average`
pub record Average (F : Type 0) : Type 0 where
  pub uncounted : ℤ
  pub rate : F

pub record MeterSnapshot (F : Type 0) : Type 0 where
  pub count : ℤ
  pub rate1 : F
  pub rate5 : F
  pub rate15 : F
  pub rate_mean : F

pub record QpsMeter (F : Type 0) : Type 0 where
  pub snapshot : MeterSnapshot F
  pub a1 : Average F
  pub start_time : ℤ

-- Counters and gauges of the package: `Inc` and `Update` of what is kept.
pub record Instruments (C G : Type 0) : Type 0 where
  pub new_counter : C
  pub inc : C → ℤ → C
  pub count_of : C → ℤ
  pub new_gauge : G
  pub update_gauge : G → ℤ → G
  pub value_of : G → ℤ

-- What a registry holds; a histogram by its mean.
pub data Metric (C G F : Type 0) : Type 0 where
  counter : C → Metric C G F
  gauge : G → Metric C G F
  gauge_float : F → Metric C G F
  histogram : F → Metric C G F
  meter : QpsMeter F → Metric C G F
  timer : Timer F → Metric C G F
  other : Metric C G F

module _ {F : Type 0} (f : Floats F) where
  abbrev pub new_timer : Timer F
  new_timer = record { sum = pos 0; prev = pos 0; count = pos 0; mean = f.zero_float }

  -- `timer.tick`
  unfoldable pub tick_timer : Timer F → Timer F
  tick_timer t = if eq_ℤ t.count (pos 0) then t else record t {
    mean = f.over (f.of_int (int64 (t.sum -ℤ t.prev))) (f.of_int t.count);
    prev = t.sum;
    count = pos 0;
  }

  abbrev pub meter_duration : ℤ
  meter_duration = pos 5000000000

  -- `average.tick`
  unfoldable pub tick_average : Average F → Average F
  tick_average a = record a {
    uncounted = int64 (a.uncounted -ℤ a.uncounted);
    rate = f.over (f.of_int a.uncounted) (f.of_int meter_duration);
  }

  -- `average.Rate`
  unfoldable pub rate_of : Average F → F
  rate_of a = f.times a.rate (f.of_int (pos 1000000000))

  -- `qpsMeter.updateSnapshot`, at a time.
  unfoldable pub update_snapshot : ℤ → QpsMeter F → QpsMeter F
  unfolding rate_of
  update_snapshot now m =
      let rate1 = rate_of m.a1 in
      record m {
        snapshot = record m.snapshot {
          rate1 = rate1;
          rate5 = rate1;
          rate15 = rate1;
          rate_mean = f.over (f.of_int m.snapshot.count) (f.seconds (now -ℤ m.start_time));
        };
      }

  -- `qpsMeter.tick`
  unfoldable pub tick_meter : ℤ → QpsMeter F → QpsMeter F
  unfolding tick_average update_snapshot
  tick_meter now m = update_snapshot now (record m { a1 = tick_average m.a1 })

  abbrev pub new_qps_meter : ℤ → QpsMeter F
  new_qps_meter now = record {
    snapshot = record {
      count = pos 0;
      rate1 = f.zero_float;
      rate5 = f.zero_float;
      rate15 = f.zero_float;
      rate_mean = f.zero_float;
    };
    a1 = record { uncounted = pos 0; rate = f.zero_float };
    start_time = now;
  }

-- `timer.Update`
unfoldable pub update : {F : Type 0} → Timer F → ℤ → Timer F
update t d = record t { sum = int64 (t.sum +ℤ d); count = int64 (t.count +ℤ pos 1) }

-- `average.update`
unfoldable pub update_average : {F : Type 0} → Average F → ℤ → Average F
update_average a n = record a { uncounted = int64 (a.uncounted +ℤ n) }

-- `qpsMeter.Mark`
unfoldable pub mark : {F : Type 0} → QpsMeter F → ℤ → QpsMeter F
unfolding update_average
mark m n = record m {
  snapshot = record m.snapshot { count = int64 (m.snapshot.count +ℤ n) };
  a1 = update_average m.a1 n;
}
