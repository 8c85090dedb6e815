-- ===== src/Metrics/Merge.antt =====
-- metrics/graphite.go: mergeDataSet adds the sets up, point by point.
use wqs.Common.{ℕ, Option, none, some, List, [], ◌∷◌, length, get_elem?, ◌==◌, if◌then◌else◌}
use wqs.Common.Int.{pos}
use wqs.Metrics.{Floats}
use wqs.Metrics.Graphite.{Point, add_point}

module _ {F : Type 0} (f : Floats F) where
  abbrev add_some : Point F → Option (Point F) → Point F
  add_some p none = p
  add_some p (some q) = add_point f p q

  -- The sum of the points at one place in the sets that have a length, from the first to the last,
  -- with the time of the last one.
  pub sum_at : ℕ → ℕ → List (List (Point F)) → Point F → Point F
  sum_at n k [] p = p
  sum_at n k (set ∷ sets) p =
      sum_at n k sets (if length set == n then add_some p (get_elem? set k) else p)

  zero_point : Point F
  zero_point = record { time_stamp = pos 0; value = f.zero_float }
