-- ===== src/Utils/Fields.antt =====
-- utils/linereader.go: `Fields`.
use wqs.Common.{ℕ, zero, suc, Option, none, some, List, [], ◌∷◌, Bytes, length}
use wqs.Go.Strings.{cut}

-- An empty piece, between two spaces, is left out.
abbrev pub keep : Bytes → List Bytes → List Bytes
keep [] fs = fs
keep (c ∷ s) fs = (c ∷ s) ∷ fs

abbrev pub after_cut : (Bytes → List Bytes) → Bytes → Option (Bytes × Bytes) → List Bytes
after_cut more text none = keep text []
after_cut more text (some (a, b)) = keep a (more b)

-- One round for each space; `text` is what starts at `start`.
unfoldable pub fields_loop : ℕ → Bytes → List Bytes
fields_loop zero text = []
fields_loop (suc fuel) text = after_cut (λ b. fields_loop fuel b) text (cut 32 text)

unfoldable pub fields : Bytes → List Bytes
fields text = fields_loop (suc (length text)) text

-- The pieces of a split that are not empty.
unfoldable pub non_empty : List Bytes → List Bytes
non_empty [] = []
non_empty (s ∷ ss) = keep s (non_empty ss)
