-- ===== src/Regexp/Tests.antt =====
-- Expressions at concrete texts.
use wasigoc.Common.{◌≢◌, none, some, codes, All}
use wasigoc.Common.Outcome.{panic, Returns}
use wasigoc.Regexp.{Node, char, star, concat, cons, nil}
use wasigoc.Regexp.Find.{find_at, find_all_string, split}
use wasigoc.Regexp.Find.Laws.{IsLeftmost, find_at-IsLeftmost}
use wasigoc.Regexp.Find.Loops.{IsMatchText, find_all_string-Returns}
use wasigoc.Regexp.Find.Split.{Pieces, split-Pieces}
use wasigoc.Regexp.Parse.{compile}
use wasigoc.Regexp.Parse.Ends.{compile-total}

-- `ab*`
abbrev a_bs : Node
a_bs = concat (cons (char 97) (cons (star (char 98)) nil))

find_at-IsLeftmost_example : IsLeftmost a_bs (codes "xxabbc") 1 (find_at a_bs (codes "xxabbc") 1)
find_at-IsLeftmost_example = find_at-IsLeftmost a_bs (codes "xxabbc") 1

find_all_string-Returns_example :
    Returns (All (IsMatchText a_bs (codes "abab"))) (find_all_string a_bs (codes "abab") none)
find_all_string-Returns_example = find_all_string-Returns a_bs (codes "abab") none

split-Pieces_example :
    Returns
      (Pieces (char 44) (codes "a,b,c") (some 2) 0 0)
      (split (char 44) (codes "a,b,c") (some 2))
split-Pieces_example = split-Pieces (char 44) (codes "a,b,c") (some 2)

compile-total_example : compile (codes "a(b|c)*[^d-f]") ≢ panic
compile-total_example = compile-total (codes "a(b|c)*[^d-f]")
