-- ===== src/Metrics/Saved.antt =====
-- metrics/data.go: the counters that are kept from one run of the program to the next. The JSON of
-- a map is a parameter.
use wqs.Common.{◌≡◌, ◌<◌, Option, none, some, List, [], ◌∷◌, Bytes, length}
use wqs.Common.Int.{ℤ}
use wqs.Common.Eq.{bytes_key}
use wqs.Common.Dict.{Dict, insert, lookup}
use wqs.Engine.{Result, ok, err}
use wqs.Metrics.{Floats, Instruments, Metric, counter}
use wqs.Metrics.Registry.{Registry, event_counter, Event, State, add, snapshot}

-- `json.Marshal` and `json.Unmarshal` of a map; the loops over it visit the entries in the order
-- of the list.
pub record CountsJson : Type 0 where
  pub marshal : Dict Bytes ℤ → Bytes
  pub unmarshal : Bytes → Result (Dict Bytes ℤ)

module _ {C G F : Type 0} (i : Instruments C G) where
  abbrev save_metric : Bytes → Metric C G F → Dict Bytes ℤ → Dict Bytes ℤ
  save_metric key (counter c) save = insert save key (i.count_of c)
  save_metric key m save = save

  unfoldable pub save_counters : List (Bytes × Metric C G F) → Dict Bytes ℤ → Dict Bytes ℤ
  save_counters [] save = save
  save_counters ((key, m) ∷ es) save = save_counters es (save_metric key m save)

  abbrev saved_text : CountsJson → Option (List (Bytes × Metric C G F)) → Bytes
  saved_text json none = []
  saved_text json (some snap) = json.marshal (save_counters snap [])

-- `SaveDataToString`
unfoldable pub save_data :
    {R C G F : Type 0}
    → Floats F
    → Instruments C G
    → Registry R (Metric C G F)
    → CountsJson
    → State R
    → Bytes
unfolding save_counters
save_data f i reg json s = saved_text i json (snapshot f i reg s)

unfoldable pub add_counters : {R : Type 0} → Dict Bytes ℤ → State R → State R
unfolding add
add_counters [] s = s
add_counters ((key, value) ∷ counters) s = add_counters counters (add event_counter key value s)

abbrev loaded : {R : Type 0} → Result (Dict Bytes ℤ) → State R → State R × Result (Unit {0})
loaded (ok counters) s = (add_counters counters s, ok tt)
loaded (err e) s = (s, err e)

-- `LoadDataFromBytes`
unfoldable pub load_data : {R : Type 0} → CountsJson → Bytes → State R → State R × Result (Unit {0})
unfolding add_counters
load_data json [] s = (s, ok tt)
load_data json (c ∷ text) s = loaded (json.unmarshal (c ∷ text)) s

-- The text of a map is not empty and is read back as it was written.
pub record IsReadBack (json : CountsJson) (d : Dict Bytes ℤ) : Type 0 where
  pub unmarshal-marshal : json.unmarshal (json.marshal d) ≡ ok d
  pub marshal_some : 0 < length (json.marshal d)

-- No key stands twice.
abbrev pub Distinct : Dict Bytes ℤ → Type 0
Distinct [] = Unit
Distinct ((key, value) ∷ d) = (lookup d key ≡ none) × Distinct d

-- The events of a map of counts.
events_of : Dict Bytes ℤ → List Event
events_of [] = []
events_of ((key, value) ∷ d) =
    record { event = event_counter; key = key; value = value } ∷ events_of d

singly : Option ℤ → List ℤ
singly none = []
singly (some v) = v ∷ []
