-- ===== src/Queue/IdGenerator.antt =====
-- engine/queue/message_id.go: `idGenerator`. What `Get` finds in the ticker's channel, the times in
-- milliseconds since the base time, is an argument. The fields of the id do not overlap, so that
-- `|` is `+` and `<<` is a multiplication, modulo 2 ^ 64.
use wqs.Common.{ℕ, suc, ◌+◌, ◌*◌, ◌%◌, ◌^◌, ◌<◌, ◌≤◌, ◌≡◌, sym, List, [], ◌∷◌, All, arith}

pub record IdGenerator : Type 0 where
  pub t : ℕ
  pub sequence : ℕ
  pub id : ℕ

abbrev base_time : ℕ
base_time = 40 * 365 * 24 * 3600 * 1000

-- Each time that waits in the channel is taken, the last one stays.
unfoldable pub take_ticks : IdGenerator → List ℕ → IdGenerator
take_ticks i [] = i
take_ticks i (t ∷ ts) = take_ticks (record i { t = t; sequence = 0 }) ts

abbrev pub id_of : IdGenerator → ℕ
id_of i = i.t * 2 ^ 24 % 2 ^ 64 + i.id % 2 ^ 10 * 2 ^ 14 + i.sequence % 2 ^ 14

abbrev take_id : IdGenerator → IdGenerator × ℕ
take_id i = (record i { sequence = suc i.sequence % 2 ^ 64 }, id_of i)

unfoldable pub get : IdGenerator → List ℕ → IdGenerator × ℕ
get i ticks = take_id (take_ticks i ticks)

-- `Get` called again and again: what it finds in the channel each time, and the ids it gives.
unfoldable pub get_all : IdGenerator → List (List ℕ) → List ℕ
get_all i [] = []
get_all i (ticks ∷ calls) = let (i', id) = get i ticks in id ∷ get_all i' calls

-- Each number is above the one before it; the first is `low` at least.
unfoldable pub Rising : ℕ → List ℕ → Type 0
Rising low [] = Unit
Rising low (x ∷ xs) = (low ≤ x) × Rising (suc x) xs

-- Every tick is later than the time before and below 2 ^ 40 ms, and fewer than 2 ^ 14 ids are taken
-- between two ticks.
unfoldable pub Paced : IdGenerator → List (List ℕ) → Type 0
Paced i [] = Unit
Paced i (ticks ∷ calls) =
    Rising (suc i.t) ticks
    × All (λ t. t < 2 ^ 40) ticks
    × ((take_ticks i ticks).sequence < 2 ^ 14)
    × Paced (get i ticks).0 calls

-- The least id that the generator can still give.
abbrev least : IdGenerator → ℕ
least i = i.t * 2 ^ 24 + i.id % 2 ^ 10 * 2 ^ 14 + i.sequence

record InRange (i : IdGenerator) : Type 0 where
  time : i.t < 2 ^ 40
  room : i.sequence ≤ 2 ^ 14

take_ticks-InRange :
    (i : IdGenerator) (ts : List ℕ)
    → InRange i
    → All (λ t. t < 2 ^ 40) ts
    → InRange (take_ticks i ts)
unfolding take_ticks
take_ticks-InRange i [] r below = r
take_ticks-InRange i (t ∷ ts) r below =
    take_ticks-InRange (record i { t = t; sequence = 0 }) ts
      (record { time = below.0; room = omega arith }) below.1

take_ticks-least :
    (i : IdGenerator) (ts : List ℕ)
    → i.sequence ≤ 2 ^ 14
    → Rising (suc i.t) ts
    → least i ≤ least (take_ticks i ts)
unfolding take_ticks Rising
take_ticks-least i [] room rising = omega arith
take_ticks-least i (t ∷ ts) room rising =
    let rest = take_ticks-least (record i { t = t; sequence = 0 }) ts (omega arith) rising.1 in
    omega (arith, rest, rising.0)

-- The ids that a generator gives rise strictly, whatever is found in the ticker's channel, as long
-- as the ticks are later and later and below 2 ^ 40 ms, and fewer than 2 ^ 14 ids are taken between
-- two ticks.
pub get_all-Rising :
    (i : IdGenerator) (calls : List (List ℕ))
    → i.t < 2 ^ 40
    → i.sequence ≤ 2 ^ 14
    → Paced i calls
    → Rising (least i) (get_all i calls)
unfolding get_all get Paced Rising
get_all-Rising i [] time room paced = tt
get_all-Rising i (ticks ∷ calls) time room (rising, below, few, paced) =
    let r = take_ticks-InRange i ticks (record { time = time; room = room }) below in
    let start = take_ticks-least i ticks room rising in
    let i' = take_ticks i ticks in
    let rest =
      get_all-Rising (record i' { sequence = suc i'.sequence % 2 ^ 64 }) calls r.time (omega arith)
        paced in
    let next : least (record i' { sequence = suc i'.sequence % 2 ^ 64 }) ≡ suc (id_of i') =
      omega (arith, few, r.time) in
    (omega (arith, start, few, r.time), rw (sym next) rest)
