-- ===== src/Service/Queries.antt =====
-- service/service.go: getMetricsHandler. The query to the metrics, the time, and the texts of fmt
-- and of the errors are parameters.
use wqs.Common.{
  ◌≡◌, refl, ap, sym, ◌∙◌, ℕ, Bool, true, ◌||◌, none, some, Bool-cases, inl, inr, [], ◌∷◌, Bytes,
  codes, arith, if◌then◌else◌,
}
use wqs.Common.Int.{ℤ, pos, ◌-ℤ◌}
use wqs.Common.Eq.{bytes_eq}
use wqs.Go.Strconv.{Parsed, NumError, parse_int}
use wqs.Engine.{Error, Result, ok, err}
use wqs.Queue.Config.{GroupConfig}
use wqs.Service.{Queue, ResponseMessage, response}
use wqs.Metrics.Graphite.{QueryParam}

pub record QueryTexts : Type 0 where
  pub not_support_action : Bytes → Bytes
  pub not_support_type : Bytes → Bytes
  pub number_error : Bytes → NumError → Bytes
  pub error_text : Error → Bytes

-- The request: what the path names, and the form.
pub record MetricsRequest : Type 0 where
  pub queue : Bytes
  pub group : Bytes
  pub action : Bytes
  pub kind : Bytes
  pub start : Bytes
  pub end : Bytes
  pub step : Bytes

abbrev pub known_action : Bytes → Bool
known_action action = bytes_eq action (codes "SET") || bytes_eq action (codes "GET")

abbrev pub known_type : Bytes → Bool
known_type kind =
    bytes_eq kind (codes "qps")
    || (bytes_eq kind (codes "elapsed") || bytes_eq kind (codes "Latency"))

-- A number of the form, or a default where it is not given.
unfoldable pub number_or : ℤ → Bytes → Parsed ℤ
number_or d [] = (d, none)
number_or d (c ∷ s) = parse_int 10 64 (c ∷ s)

abbrev pub param_of : MetricsRequest → ℤ → ℤ → ℤ → QueryParam
param_of r start end step = record {
  host = codes "*";
  queue = r.queue;
  group = r.group;
  action_key = r.action;
  metrics_key = r.kind;
  start_time = start;
  end_time = end;
  step = step;
}

bad_request : ◌≡◌ {A = ℕ} 400 200 → ⊥
bad_request e = omega arith

module _ {S : Type 0} (q : Queue S) (texts : QueryTexts)
    (get_metrics : QueryParam → Result Bytes) where
  abbrev asked : Result Bytes → S → S × ResponseMessage
  asked (ok text) s = response s 200 text
  asked (err e) s = response s 500 (texts.error_text e)

  abbrev pub with_number :
      Bytes → Parsed ℤ → (ℤ → S → S × ResponseMessage) → S → S × ResponseMessage
  with_number text (n, none) more s = more n s
  with_number text (n, some e) more s = response s 400 (texts.number_error text e)

  -- The numbers of the form are read one after the other; the times are in seconds.
  unfoldable pub query : MetricsRequest → ℤ → S → S × ResponseMessage
  unfolding number_or
  query r now = with_number r.start (number_or (now -ℤ pos 14400) r.start) λ start.
      with_number r.end (number_or now r.end) λ end.
        with_number r.step (number_or (pos 240) r.step)
          λ step. asked (get_metrics (param_of r start end step))

  abbrev of_group : MetricsRequest → ℤ → S × Result GroupConfig → S × ResponseMessage
  of_group r now (s, err e) = response s 404 (texts.error_text e)
  of_group r now (s, ok g) = query r now s

  unfoldable pub get_metrics_handler : MetricsRequest → ℤ → S → S × ResponseMessage
  unfolding query
  get_metrics_handler r now s =
      if known_action r.action
      then (if known_type r.kind
          then of_group r now (q.get_single_group r.group r.queue s)
          else response s 400 (texts.not_support_type r.kind))
      else response s 400 (texts.not_support_action r.action)

  asked-read :
      (r : Result Bytes) (s : S)
      → (asked r s).1.code ≡ 200
      → (text : Bytes) × (r ≡ ok text) × ((asked r s).1.message ≡ text)
  asked-read (ok text) s h = (text, refl, refl)
  asked-read (err e) s h = absurd (omega (arith, h))

  with_number-good :
      (text : Bytes) (p : Parsed ℤ) (more : ℤ → S → S × ResponseMessage) (s : S)
      → (with_number text p more s).1.code ≡ 200
      → (p.1 ≡ none) × (with_number text p more s ≡ more p.0 s)
  with_number-good text (n, none) more s h = (refl, refl)
  with_number-good text (n, some e) more s h = absurd (omega (arith, h))

  -- What an answer with status 200 and a message goes back to.
  pub record IsAnswered (r : MetricsRequest) (now : ℤ) (message : Bytes) : Type 0 where
    pub start : (number_or (now -ℤ pos 14400) r.start).1 ≡ none
    pub end : (number_or now r.end).1 ≡ none
    pub step : (number_or (pos 240) r.step).1 ≡ none
    pub read :
        get_metrics (
          param_of r
            (number_or (now -ℤ pos 14400) r.start).0
            (number_or now r.end).0
            (number_or (pos 240) r.step).0)
        ≡ ok message

  query-IsAnswered :
      (r : MetricsRequest) (now : ℤ) (s : S)
      → (query r now s).1.code ≡ 200
      → IsAnswered r now (query r now s).1.message
  unfolding query
  query-IsAnswered r now s h =
      let code = λ (a : S × ResponseMessage). a.1.code in
      let (start, e1) = with_number-good r.start (number_or (now -ℤ pos 14400) r.start) _ s h in
      let h1 = sym (ap code e1) ∙ h in
      let (end, e2) = with_number-good r.end (number_or now r.end) _ s h1 in
      let h2 = sym (ap code e2) ∙ h1 in
      let (step, e3) = with_number-good r.step (number_or (pos 240) r.step) _ s h2 in
      let (text, read, shown) = asked-read _ s (sym (ap code e3) ∙ h2) in
      record {
        start = start;
        end = end;
        step = step;
        read =
            read
            ∙ ap ok (sym (ap (λ (a : S × ResponseMessage). a.1.message) (e1 ∙ e2 ∙ e3) ∙ shown));
      }

  of_group-good :
      (r : MetricsRequest) (now : ℤ) (p : S × Result GroupConfig)
      → (of_group r now p).1.code ≡ 200
      → ((g : GroupConfig) × (p.1 ≡ ok g)) × IsAnswered r now (of_group r now p).1.message
  of_group-good r now (s, err e) h = absurd (omega (arith, h))
  of_group-good r now (s, ok g) h = ((g, refl), query-IsAnswered r now s h)

  -- getMetricsHandler answers 200 only for a known action and type, a group that the queue knows,
  -- and numbers that parse, and with what GetMetrics gave for just these.
  pub get_metrics_handler-IsAnswered :
      (r : MetricsRequest) (now : ℤ) (s : S)
      → (get_metrics_handler r now s).1.code ≡ 200
      → (known_action r.action ≡ true)
        × (known_type r.kind ≡ true)
        × ((g : GroupConfig) × ((q.get_single_group r.group r.queue s).1 ≡ ok g))
        × IsAnswered r now (get_metrics_handler r now s).1.message
  unfolding get_metrics_handler
  get_metrics_handler-IsAnswered r now s h = elim (Bool-cases (known_action r.action)) [
    | inl action ↦ elim (Bool-cases (known_type r.kind)) [
      | inl kind ↦
          let (group, answered) =
            of_group-good r now (q.get_single_group r.group r.queue s) (rw (action, kind) at h) in
          rw (action, kind) (refl, refl, group, answered)
      | inr other ↦ absurd (bad_request (rw (action, other) at h))
    ]
    | inr other ↦ absurd (bad_request (rw other at h))
  ]
