-- ===== src/Mime/Tests.antt =====
-- Texts at concrete bytes.
use wasigoc.Common.{ℕ, ◌≡◌, arith, List, codes}
use wasigoc.Mime.Quoted.{new_writer, write, close, decode_all}
use wasigoc.Mime.Quoted.RoundTrip.{line_text, decode_all-write}
use wasigoc.Mime.Quoted.Width.{Narrow, write-Narrow}

abbrev two_lines : List ℕ
two_lines = codes "a=b \n\tc"

decode_all-write_example :
    decode_all ((close (write new_writer two_lines)).taken) ≡ line_text two_lines
decode_all-write_example = decode_all-write two_lines (omega arith)

write-Narrow_example : Narrow 0 ((close (write new_writer two_lines)).taken)
write-Narrow_example = write-Narrow two_lines (omega arith)
