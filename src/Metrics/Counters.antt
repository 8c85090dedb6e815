-- ===== src/Metrics/Counters.antt =====
-- metrics/metrics.go: a counter is the sum of its events.
use wqs.Common.{
  ◌≡◌, refl, ap, ◌∙◌, true, Bool-cases, inl, inr, Option, some, List, [], ◌∷◌, Bytes, if◌then◌else◌,
  All, All-map,
}
use wqs.Common.Int.{ℤ, int64, ◌+ℤ◌}
use wqs.Common.Wrap.{wrapped}
use wqs.Common.Eq.{bytes_key, beq-cases, bytes_eq, bytes_eq_iff}
use wqs.Metrics.{Floats, Instruments, Metric, counter}
use wqs.Metrics.Registry.{
  Registry, RegistryLaws, InstrumentLaws, event_counter, Event, State, process_event,
  process_events, counter_in,
}

-- The values of the events on a key.
unfoldable pub increments : Bytes → List Event → List ℤ
increments key [] = []
increments key (e ∷ es) =
    let rest = increments key es in if bytes_eq e.key key then e.value ∷ rest else rest

wrapped-increments :
    (key : Bytes) (n : ℤ) (e : Event) (es : List Event)
    → wrapped n (increments key (e ∷ es))
      ≡ wrapped (wrapped n (increments key (e ∷ []))) (increments key es)
unfolding wrapped increments
wrapped-increments key n e es = elim (Bool-cases (bytes_eq e.key key)) [
  | inl hit ↦ rw hit refl
  | inr miss ↦ rw miss refl
]

module _ {R C G F : Type 0} (f : Floats F) (i : Instruments C G)
    (reg : Registry R (Metric C G F)) where
  -- A key holds a counter or nothing, with this count.
  pub record Counts (s : State R) (key : Bytes) (n : ℤ) : Type 0 where
    pub held : C
    pub found : counter_in f i reg (reg.find s.registry key) ≡ some held
    pub count : i.count_of held ≡ n

  abbrev pub Processed : State R → List Event → Option (State R) → Type 0
  Processed s es r =
      (s' : State R) × (r ≡ some s')
      × ((key : Bytes) (n : ℤ) → Counts s key n → Counts s' key (wrapped n (increments key es)))

  abbrev IsCounted : State R → Event → Type 0
  IsCounted s e = (e.event ≡ event_counter) × (n : ℤ) × Counts s e.key n

  module _ (laws : RegistryLaws reg) (counts : InstrumentLaws i) (now : ℤ) where
    counted : State R → Event → C → State R
    counted s e c = record s { registry = reg.put s.registry e.key (counter (i.inc c e.value)) }

    process_event-counted :
        (s : State R) (e : Event) (n : ℤ)
        → e.event ≡ event_counter
        → (c : Counts s e.key n) → process_event f i reg now e s ≡ some (counted s e c.held)
    unfolding process_event counted
    process_event-counted s e n kind c = rw (kind, c.found) refl

    counted-Counts :
        (s : State R) (e : Event) (n m : ℤ) (key : Bytes)
        → (c : Counts s e.key m) → Counts s key n
        → Counts (counted s e c.held) key (wrapped n (increments key (e ∷ [])))
    unfolding counted wrapped increments
    counted-Counts s e n m key c d = elim (beq-cases e.key key) [
      | inl same ↦
          let hit : bytes_eq e.key key ≡ true = (bytes_eq_iff e.key key).1 same in
          let held_same : c.held ≡ d.held = cc (c.found, d.found, same) in
          rw hit (record {
            held = i.inc c.held e.value;
            found = ap (counter_in f i reg) (
                laws.find-put s.registry e.key key (counter (i.inc c.held e.value))
                ∙ ap
                    (λ b.
                      if b then some (counter (i.inc c.held e.value)) else reg.find s.registry key)
                    hit);
            count =
                counts.count-inc c.held e.value
                ∙ ap (λ k. int64 (k +ℤ e.value)) (ap i.count_of held_same ∙ d.count);
          })
      | inr (other, _) ↦ rw other (record {
        held = d.held;
        found =
            ap (counter_in f i reg) (
              laws.find-put s.registry e.key key (counter (i.inc c.held e.value))
              ∙ ap
                  (λ b.
                    if b then some (counter (i.inc c.held e.value)) else reg.find s.registry key)
                  other)
            ∙ d.found;
        count = d.count;
      })
    ]

    -- Of events that all add to counters, on keys that hold a counter or nothing, none panics, and
    -- afterwards every key that held a counter or nothing holds its count plus the values of the
    -- events on it, wrapped around to 64 bits.
    pub process_events-Processed :
        (es : List Event) (s : State R)
        → All (IsCounted s) es
        → Processed s es (process_events f i reg now es s)
    unfolding process_events wrapped increments
    process_events-Processed [] s all = (s, refl, λ key n c. c)
    process_events-Processed (e ∷ es) s all =
        let (kind, m, c) = all.0 in
        let s1 = counted s e c.held in
        let (s', done, after) = process_events-Processed es s1 (
          All-map (IsCounted s) (IsCounted s1) es
            (λ x h. (h.0, _, counted-Counts s e h.1 m x.key c h.2)) all.1) in
        rw (process_event-counted s e m kind c) (
          s',
          done,
          λ key n d.
              rw (wrapped-increments key n e es)
                (after key (wrapped n (increments key (e ∷ []))) (counted-Counts s e n m key c d)),
        )
