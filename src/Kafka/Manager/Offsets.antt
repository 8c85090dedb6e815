-- ===== src/Kafka/Manager/Offsets.antt =====
-- engine/kafka/manager.go: the offsets of topics and groups, and Accumulation. A map that a loop
-- visits is visited in the order of the list.
use wqs.Common.{ℕ, not, Option, none, some, List, [], ◌∷◌, Bytes, if◌then◌else◌, length, ◌==◌}
use wqs.Common.Int.{ℤ, pos, negsuc, ltb_ℤ, eq_ℤ, int64, ◌+ℤ◌}
use wqs.Common.Eq.{int_key}
use wqs.Common.Dict.{Dict, lookup, insert}
use wqs.Engine.{
  Error, client, incomplete_response, Result, ok, err, Io, Done, ◌>>=◌, ◌>>◌, pure, throw, throw_if,
}
use wqs.Kafka.Manager.{Sarama, OffsetBlock}

abbrev pub Offsets : Type 0
Offsets = Dict ℤ ℤ

-- `sarama.OffsetNewest`
abbrev pub offset_newest : ℤ
offset_newest = negsuc 0

-- The blocks of an OffsetCommitRequest: the offsets above -1.
unfoldable pub committed : Offsets → List (ℤ × ℤ)
committed [] = []
committed ((partition, offset) ∷ offsets) =
    let rest = committed offsets in
    if ltb_ℤ (negsuc 0) offset then (partition, offset) ∷ rest else rest

-- The first code that is an error.
unfoldable pub first_error : List ℤ → Option Error
first_error [] = none
first_error (code ∷ codes) =
    let rest = first_error codes in if eq_ℤ code (pos 0) then rest else some (client code)

abbrev pub block_offset : Option OffsetBlock → Result ℤ
block_offset none = err incomplete_response
block_offset (some b) = if eq_ℤ b.code (pos 0) then ok b.offset else err (client b.code)

-- Every partition of the topic needs a block without an error.
unfoldable pub group_offsets : (ℤ → Option OffsetBlock) → List ℤ → Offsets → Result Offsets
group_offsets blocks [] offsets = ok offsets
group_offsets blocks (p ∷ ps) offsets = elim (block_offset (blocks p)) [
  | ok offset ↦ group_offsets blocks ps (insert offsets p offset)
  | err e ↦ err e
]

-- `groupOffsets[partition]`, zero where there is none.
abbrev pub offset_or_zero : Option ℤ → ℤ
offset_or_zero none = pos 0
offset_or_zero (some offset) = offset

abbrev pub add_consumed : ℤ → ℤ → ℤ
add_consumed sum consumed = if ltb_ℤ (pos 0) consumed then int64 (sum +ℤ consumed) else sum

-- The two sums of Accumulation, over the partitions of the topic.
unfoldable pub accumulated : Offsets → Offsets → ℤ → ℤ → ℤ × ℤ
accumulated group [] total consumed = (total, consumed)
accumulated group ((p, offset) ∷ topic) total consumed =
    accumulated group topic (int64 (total +ℤ offset))
      (add_consumed consumed (offset_or_zero (lookup group p)))

module _ {W : Type 0} (kafka : Sarama W) where
  abbrev pub closed_on_error : {A : Type 0} → ℕ → W × Result A → W × Result A
  closed_on_error broker (w, ok a) = (w, ok a)
  closed_on_error broker (w, err e) = (kafka.close_broker broker w, err e)

  abbrev pub coordinator_of : Bytes → Io W ℕ
  coordinator_of group w = kafka.coordinator group (kafka.refresh_coordinator group w)

  abbrev pub throw_first : Option Error → Done W
  throw_first none = pure tt
  throw_first (some e) = throw e

  unfoldable pub commit_offset : Bytes → Bytes → Offsets → Done W
  commit_offset topic group offsets = do
    broker ← coordinator_of group
    response ←
        (λ w. closed_on_error broker (kafka.commit_offset broker group topic (committed offsets) w))
    throw_first (first_error response)

  unfoldable pub topic_offsets : Bytes → ℤ → List ℤ → Offsets → Io W Offsets
  topic_offsets topic time [] offsets = pure offsets
  topic_offsets topic time (p ∷ ps) offsets = do
    offset ← kafka.get_offset topic p time
    topic_offsets topic time ps (insert offsets p offset)

  unfoldable pub fetch_topic_offsets : Bytes → ℤ → Io W Offsets
  fetch_topic_offsets topic time = do
    partitions ← kafka.partitions topic
    topic_offsets topic time partitions []

  abbrev pub lift : {A : Type 0} → Result A → Io W A
  lift r w = (w, r)

  unfoldable pub fetch_group_offsets : Bytes → Bytes → Io W Offsets
  fetch_group_offsets topic group = do
    partitions ← kafka.partitions topic
    broker ← coordinator_of group
    blocks ← (λ w. closed_on_error broker (kafka.fetch_offset broker group topic partitions w))
    lift (group_offsets blocks partitions [])

  unfoldable pub accumulation : Bytes → Bytes → Io W (ℤ × ℤ)
  accumulation topic group = do
    topics ← fetch_topic_offsets topic offset_newest
    groups ← fetch_group_offsets topic group
    throw_if (not (length topics == length groups)) Error.plain
    pure (accumulated groups topics (pos 0) (pos 0))
