-- ===== src/Metrics/Windows.antt =====
-- metrics/timer.go and metrics/meter.go: what a tick gives for the events since the last one, also
-- when the sums have wrapped around.
use wqs.Common.{◌≡◌, refl, ap, sym, ◌∙◌, ℕ, suc, false, ◌+◌, ◌^◌, ◌<◌, List, [], ◌∷◌, arith, length}
use wqs.Common.Int.{ℤ, pos, ◌+ℤ◌, ◌-ℤ◌, int64, InInt64, int64_of_range, int64-add, eq_ℤ}
use wqs.Common.Wrap.{int64-sub_left, add-sub, total, wrapped, wrapped-total, wrapped-zero}
use wqs.Metrics.{Floats, Timer, update, tick_timer, QpsMeter, mark, tick_meter, meter_duration}

window :
    (p : ℤ) (ds : List ℤ) → InInt64 p → InInt64 (total ds) → int64 (wrapped p ds -ℤ p) ≡ total ds
window p ds hp ht =
    ap (λ n. int64 (wrapped n ds -ℤ p)) (sym (int64_of_range p hp))
    ∙ ap (λ n. int64 (n -ℤ p)) (wrapped-total p ds)
    ∙ int64-sub_left (p +ℤ total ds) p
    ∙ ap int64 (add-sub p (total ds))
    ∙ int64_of_range (total ds) ht

not_zero : (n : ℕ) → eq_ℤ (pos (suc n)) (pos 0) ≡ false
unfolding eq_ℤ
not_zero n = ground arith

module _ {F : Type 0} where
  -- The events between two ticks, in their order.
  pub updates : Timer F → List ℤ → Timer F
  updates t [] = t
  updates t (d ∷ ds) = updates (update t d) ds

  pub marks : QpsMeter F → List ℤ → QpsMeter F
  marks m [] = m
  marks m (n ∷ ns) = marks (mark m n) ns

  -- How a tick leaves a timer.
  pub record IsTicked (t : Timer F) : Type 0 where
    pub even : t.prev ≡ t.sum
    pub empty : t.count ≡ pos 0

  updates-sum : (t : Timer F) (ds : List ℤ) → (updates t ds).sum ≡ wrapped t.sum ds
  unfolding updates update wrapped
  updates-sum t [] = refl
  updates-sum t (d ∷ ds) = updates-sum (update t d) ds

  updates-prev : (t : Timer F) (ds : List ℤ) → (updates t ds).prev ≡ t.prev
  unfolding updates update
  updates-prev t [] = refl
  updates-prev t (d ∷ ds) = updates-prev (update t d) ds

  updates-count :
      (t : Timer F) (ds : List ℤ) (k : ℕ)
      → t.count ≡ pos k
      → k + length ds < 2 ^ 63
      → (updates t ds).count ≡ pos (k + length ds)
  unfolding updates update
  updates-count t [] k e h = e ∙ ap pos (omega arith)
  updates-count t (d ∷ ds) k e h =
      updates-count (update t d) ds (suc k)
        (ap (λ c. int64 (c +ℤ pos 1)) e ∙ int64-add k 1 (omega arith) ∙ ap pos (omega arith))
        (omega arith)
      ∙ ap pos (omega arith)

  -- A timer that was just ticked and then gets some durations has, at the next tick, their mean:
  -- their sum over their number, also if its own sum has wrapped around, as long as the sum of
  -- the durations itself fits in 64 bits; and it is again as a tick leaves it.
  pub tick_timer-mean :
      (f : Floats F) (t : Timer F) (d : ℤ) (ds : List ℤ)
      → IsTicked t
      → InInt64 t.sum
      → InInt64 (total (d ∷ ds))
      → length (d ∷ ds) < 2 ^ 63
      → ((tick_timer f (updates t (d ∷ ds))).mean
          ≡ f.over (f.of_int (total (d ∷ ds))) (f.of_int (pos (length (d ∷ ds)))))
        × IsTicked (tick_timer f (updates t (d ∷ ds)))
  unfolding tick_timer
  tick_timer-mean f t d ds v hs ht n =
      let u = updates t (d ∷ ds) in
      let counted : u.count ≡ pos (suc (length ds)) =
        updates-count t (d ∷ ds) 0 v.empty (omega (arith, n)) ∙ ap pos (omega arith) in
      let summed : int64 (u.sum -ℤ u.prev) ≡ total (d ∷ ds) =
        (λ i. int64 (updates-sum t (d ∷ ds) i -ℤ (updates-prev t (d ∷ ds) ∙ v.even) i))
        ∙ window t.sum (d ∷ ds) hs ht in
      rw (ap (λ c. eq_ℤ c (pos 0)) counted ∙ not_zero (length ds)) (
        (λ i. f.over (f.of_int (summed i)) (f.of_int (counted i))),
        record { even = refl; empty = refl },
      )

  marks-count :
      (m : QpsMeter F) (ns : List ℤ) → (marks m ns).snapshot.count ≡ wrapped m.snapshot.count ns
  unfolding marks mark wrapped
  marks-count m [] = refl
  marks-count m (n ∷ ns) = marks-count (mark m n) ns

  marks-uncounted :
      (m : QpsMeter F) (ns : List ℤ) → (marks m ns).a1.uncounted ≡ wrapped m.a1.uncounted ns
  unfolding marks mark wrapped
  marks-uncounted m [] = refl
  marks-uncounted m (n ∷ ns) = marks-uncounted (mark m n) ns

  -- The rate of a meter after a tick is the number of events since the last tick, over five
  -- seconds, whatever it counted before.
  pub tick_meter-rate :
      (f : Floats F) (now : ℤ) (m : QpsMeter F) (ns : List ℤ)
      → m.a1.uncounted ≡ pos 0
      → InInt64 (total ns)
      → (tick_meter f now (marks m ns)).snapshot.rate1
        ≡ f.times
            (f.over (f.of_int (total ns)) (f.of_int (meter_duration f)))
            (f.of_int (pos 1000000000))
  unfolding tick_meter
  tick_meter-rate f now m ns e h =
      let counted : (marks m ns).a1.uncounted ≡ total ns =
        marks-uncounted m ns
        ∙ ap (λ c. wrapped c ns) e
        ∙ wrapped-zero ns
        ∙ int64_of_range (total ns) h in
      ap
        (λ c.
          f.times (f.over (f.of_int c) (f.of_int (meter_duration f))) (f.of_int (pos 1000000000)))
        counted
