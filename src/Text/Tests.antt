-- ===== src/Text/Tests.antt =====
-- Texts, paths, slices, ciphers and bit counts at concrete inputs.
use wasigoc.Common.{ℕ, ◌≡◌, List, codes}
use wasigoc.Text.Find.{index, index-IsFirst, IsFirst, index_bytes}
use wasigoc.Text.Pieces.{join, split}
use wasigoc.Text.Bytes.{join_bytes}
use wasigoc.Text.Laws.{join-split}
use wasigoc.Text.Buffers.{Reader}

abbrev words : List ℕ
words = codes "a,bc,d"

abbrev comma : List ℕ
comma = codes ","

index-IsFirst_example : IsFirst words comma (index words comma)
index-IsFirst_example = index-IsFirst words comma

join-split_example :
    (join (split index words comma) comma ≡ words)
    × (join_bytes (split index_bytes words comma) comma ≡ words)
join-split_example = join-split words comma

abbrev reader : Reader
reader = record { s = words; i = 2 }
