-- ===== src/Metrics/Batches.antt =====
-- metrics/graphite.go: how genGraphiteMessages spreads the segments over the messages.
use wqs.Common.{
  ◌≡◌, refl, ap, sym, ◌∙◌, ℕ, ◌+◌, ◌≤◌, false, Bool-cases, Option-cases, inl, inr, ◌⊎◌, Option,
  none, some, List, [], ◌∷◌, ◌++◌, Bytes, arith, All, All-append, map, length, length-append, ltb,
}
use mathlib.Core.List.{append_assoc, append-nil, map-append}
use mathlib.Core.Path.{subst}
use wqs.Metrics.Graphite.{
  no_batch, message_max_len, join_lines, print_message, Batch, add_segment, add_segments,
  gen_graphite_messages,
}

abbrev pub with_some : Option Bytes → List Bytes → List Bytes
with_some none ss = ss
with_some (some s) ss = s ∷ ss

-- The segments of a snapshot, in its order.
pub filter_map : {A : Type 0} → (A → Option Bytes) → List A → List Bytes
filter_map print [] = []
filter_map print (a ∷ as') = with_some (print a) (filter_map print as')

pub concat : List (List Bytes) → List Bytes
concat [] = []
concat (g ∷ gs) = g ++ concat gs

pub size : List Bytes → ℕ
size [] = 0
size (s ∷ ss) = length s + size ss

-- The segments of a message have no more bytes than the limit, or there is just one.
abbrev pub Fits : List Bytes → Type 0
Fits g = (size g ≤ message_max_len) ⊎ (length g ≡ 1)

-- The messages are those of groups of segments, which are the segments in their order.
pub record IsSpread (segments messages : List Bytes) : Type 0 where
  pub groups : List (List Bytes)
  pub printed : messages ≡ map print_message groups
  pub all : concat groups ≡ segments
  pub fit : All Fits groups

-- The loop, after some segments.
record IsBatch (seen : List Bytes) (b : Batch) : Type 0 where
  groups : List (List Bytes)
  printed : b.messages ≡ map print_message groups
  all : concat groups ++ b.segments ≡ seen
  fit : All Fits groups
  last : Fits b.segments
  measured : b.segments_length ≡ size b.segments

concat-append : (gs hs : List (List Bytes)) → concat (gs ++ hs) ≡ concat gs ++ concat hs
unfolding concat
concat-append [] hs = refl
concat-append (g ∷ gs) hs =
    ap (◌++◌ g) (concat-append gs hs) ∙ sym (append_assoc g (concat gs) (concat hs))

concat_one : (gs : List (List Bytes)) (g : List Bytes) → concat (gs ++ g ∷ []) ≡ concat gs ++ g
unfolding concat
concat_one gs g = concat-append gs (g ∷ []) ∙ ap (◌++◌ (concat gs)) (append-nil g)

size-append : (g h : List Bytes) → size (g ++ h) ≡ size g + size h
unfolding size
size-append [] h = omega arith
size-append (s ∷ g) h = omega (arith, size-append g h)

size_one : (s : Bytes) → length s ≡ size (s ∷ [])
unfolding size
size_one s = omega arith

printed_one :
    (messages : List Bytes) (groups : List (List Bytes)) (g : List Bytes)
    → messages ≡ map print_message groups
    → messages ++ print_message g ∷ [] ≡ map print_message (groups ++ g ∷ [])
printed_one messages groups g e =
    ap (λ x. x ++ print_message g ∷ []) e ∙ sym (map-append print_message groups (g ∷ []))

le_of_not_ltb : (a b : ℕ) → ltb a b ≡ false → b ≤ a
le_of_not_ltb a b h = ground arith

add_segment-IsBatch :
    (s : Bytes) (b : Batch) (seen : List Bytes)
    → IsBatch seen b
    → IsBatch (seen ++ s ∷ []) (add_segment s b)
unfolding add_segment
add_segment-IsBatch s b seen v =
    elim (Bool-cases (ltb message_max_len (b.segments_length + length s))) [
      | inl full ↦ rw full (record {
        groups = v.groups ++ b.segments ∷ [];
        printed = printed_one b.messages v.groups b.segments v.printed;
        all = ap (λ x. x ++ s ∷ []) (concat_one v.groups b.segments ∙ v.all);
        fit = All-append Fits v.groups (b.segments ∷ []) v.fit (v.last, tt);
        last = inr refl;
        measured = size_one s;
      })
      | inr room ↦ rw room (record {
        groups = v.groups;
        printed = v.printed;
        all =
            sym (append_assoc (concat v.groups) b.segments (s ∷ [])) ∙ ap (λ x. x ++ s ∷ []) v.all;
        fit = v.fit;
        last = inl omega (
          arith,
          le_of_not_ltb message_max_len (b.segments_length + length s) room,
          v.measured,
          size-append b.segments (s ∷ []),
          size_one s,
        );
        measured =
            ap (λ n. n + length s) v.measured
            ∙ ap (λ n. size b.segments + n) (size_one s)
            ∙ sym (size-append b.segments (s ∷ []));
      })
    ]

module _ {A : Type 0} (print : A → Option Bytes) where
  add_segments-IsBatch :
      (snap : List A) (b : Batch) (seen : List Bytes)
      → IsBatch seen b
      → IsBatch (seen ++ filter_map print snap) (add_segments print snap b)
  unfolding add_segments filter_map
  add_segments-IsBatch [] b seen v = subst (λ x. IsBatch x b) (sym (append-nil seen)) v
  add_segments-IsBatch (a ∷ as') b seen v = elim (Option-cases (print a)) [
    | inl skipped ↦ rw skipped (add_segments-IsBatch as' b seen v)
    | inr (s, printed) ↦ rw printed (
        subst (λ x. IsBatch x (add_segments print as' (add_segment s b)))
          (append_assoc seen (s ∷ []) (filter_map print as'))
          (add_segments-IsBatch as' (add_segment s b) (seen ++ s ∷ [])
            (add_segment-IsBatch s b seen v)))
  ]

  -- The segments of a snapshot go into the messages once each and in their order, and those of a
  -- message have, without its ends of lines, no more bytes than the limit, unless it is just one.
  pub gen_graphite_messages-IsSpread :
      (snap : List A) → IsSpread (filter_map print snap) (gen_graphite_messages print snap)
  unfolding gen_graphite_messages concat size
  gen_graphite_messages-IsSpread snap =
      let b = add_segments print snap no_batch in
      let v = add_segments-IsBatch snap no_batch [] first in
      record {
        groups = v.groups ++ b.segments ∷ [];
        printed = printed_one b.messages v.groups b.segments v.printed;
        all = concat_one v.groups b.segments ∙ v.all;
        fit = All-append Fits v.groups (b.segments ∷ []) v.fit (v.last, tt);
      }
    where
      first : IsBatch [] no_batch
      first = record {
        groups = [];
        printed = refl;
        all = refl;
        fit = tt;
        last = inl (omega arith);
        measured = refl;
      }

-- The ends of lines come on top: a message has a byte more for each of its segments.
pub length-print_message :
    (s : Bytes) (ss : List Bytes)
    → length (print_message (s ∷ ss)) ≡ size (s ∷ ss) + length (s ∷ ss)
unfolding join_lines size
length-print_message s [] = rw (length-append s (10 ∷ [])) (omega arith)
length-print_message s (t ∷ ss) =
    let rest = join_lines (t ∷ ss) in
    omega (
      arith,
      length-print_message t ss,
      length-append (s ++ (10 ∷ rest)) (10 ∷ []),
      length-append s (10 ∷ rest),
      length-append rest (10 ∷ []),
    )
