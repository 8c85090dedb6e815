-- ===== src/Utils/Tests.antt =====
-- Lines, fields and bytes at concrete inputs, and the theorems on them.
use wqs.Common.{◌≡◌, refl, none, some, List, [], ◌∷◌, ◌++◌, codes, arith}
use wqs.Go.Strings.{cut}
use wqs.Utils.Fields.{fields, fields_loop}
use wqs.Utils.Lines.{index_byte, locate_in, locate_line_idx}
use wqs.Utils.Buffer.{BufferedLineReader, read_line_from_buffer}
use wqs.Common.Int.{pos, int64}
use wqs.Utils.Listener.{Step, accepts, closes, listen, accept, close, run, IsCounted, run-IsCounted}
use wqs.Utils.Bytes.{bytes_to_uint64}

fields-codes : fields (codes " a  bc ") ≡ codes "a" ∷ codes "bc" ∷ []
unfolding fields fields_loop cut
fields-codes = refl

-- The end of line across the boundary is found.
found_across : locate_line_idx (codes "ab" ++ 13 ∷ []) (10 ∷ []) ≡ some 2
unfolding locate_line_idx locate_in index_byte
found_across = refl

-- Only the first byte 13 is looked at: the end of this line is missed.
missed : locate_line_idx [] (13 ∷ 65 ∷ 13 ∷ 10 ∷ []) ≡ none
unfolding locate_line_idx locate_in index_byte
missed = refl

-- The last byte is taken twice, which a slice of fewer than eight bytes shows.
one_byte : bytes_to_uint64 (1 ∷ []) ≡ 257
unfolding bytes_to_uint64
one_byte = refl

abbrev reader : BufferedLineReader
reader = record { buff = codes "get a" ++ 13 ∷ 10 ∷ 66 ∷ []; r = 0; w = 8; start = 0 }

one_line : read_line_from_buffer reader ≡ (record reader { r = 7; start = 7 }, some (codes "get a"))
unfolding read_line_from_buffer locate_line_idx locate_in index_byte
one_line = refl

abbrev visits : List Step
visits = accepts ∷ accepts ∷ closes 0 ∷ closes 0 ∷ closes 5 ∷ []

remains : (run visits listen).count ≡ pos 1
unfolding run accept close int64
remains = refl

run-IsCounted_example : IsCounted (run visits listen)
run-IsCounted_example = run-IsCounted visits (omega arith)
