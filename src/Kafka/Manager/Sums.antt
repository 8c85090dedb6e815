-- ===== src/Kafka/Manager/Sums.antt =====
-- engine/kafka/manager.go: the sums of Accumulation.
use wqs.Common.{ℕ, ◌+◌, [], ◌∷◌}
use wqs.Common.Int.{pos, pos_part, ◌≤ℤ◌}
use wqs.Common.Eq.{int_key}
use wqs.Common.Dict.{lookup}
use wqs.Kafka.Manager.Offsets.{Offsets, offset_or_zero}

-- No offset is negative, and no group is ahead of its topic.
unfoldable pub Behind : Offsets → Offsets → Type 0
Behind group [] = Unit
Behind group ((p, offset) ∷ topic) =
    (pos 0 ≤ℤ offset) × (offset_or_zero (lookup group p) ≤ℤ offset) × Behind group topic

unfoldable pub sum_of : Offsets → ℕ
sum_of [] = 0
sum_of ((p, offset) ∷ topic) = pos_part offset + sum_of topic
