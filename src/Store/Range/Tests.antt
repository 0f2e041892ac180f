-- ===== src/Store/Range/Tests.antt =====
-- Ranges at concrete inputs.
use tg_files.Common.{Text, codes, ◌≡◌, refl, ok, err, [], ◌∷◌, List, arith, take, drop}
use tg_files.Common.{text_eq}
use tg_files.Golang.Int64.{pos, add64, sub64}
use tg_files.Golang.Strings.{has_prefix, trim_prefix, contains_byte, cut}
use tg_files.Golang.Strconv.{parse_int}
use tg_files.Store.Types.{invalid_range}
use tg_files.Store.Range.{parse_range, ChunkRef, select_chunks_for_range, copy_all}
use tg_files.Store.Range.Parsing.{WithinObject, parse_range-WithinObject}
use tg_files.Store.Range.Specs.{suffix, print_header, meaning, parse_range-print_header}
use tg_files.Store.Range.Reassembly.{copy_all-select_chunks_for_range, object_bytes}

middle : parse_range (codes "bytes=2-40") (pos 10) ≡ ok (record { start = pos 2; end = pos 9 })
unfolding parse_range text_eq has_prefix trim_prefix contains_byte cut parse_int sub64
middle = refl

last_three : parse_range (codes "bytes=-3") (pos 10) ≡ ok (record { start = pos 7; end = pos 9 })
unfolding parse_range text_eq has_prefix trim_prefix contains_byte cut parse_int sub64
last_three = refl

refused :
    (parse_range (codes "bytes=5-4") (pos 10) ≡ err invalid_range)
    × (parse_range (codes "bytes=10-") (pos 10) ≡ err invalid_range)
    × (parse_range (codes "bytes=0-1,3-4") (pos 10) ≡ err invalid_range)
    × (parse_range (codes "items=0-1") (pos 10) ≡ err invalid_range)
    × (parse_range (codes "bytes=0-99999999999999999999") (pos 10) ≡ err invalid_range)
    × (parse_range [] (pos 0) ≡ err invalid_range)
unfolding parse_range text_eq has_prefix trim_prefix contains_byte cut parse_int sub64
refused = (refl, refl, refl, refl, refl, refl)

parse_range-WithinObject_example : WithinObject (record { start = pos 2; end = pos 9 }) 10
parse_range-WithinObject_example =
    parse_range-WithinObject (codes "bytes=2-40") (pos 10) (record { start = pos 2; end = pos 9 })
      (omega arith) middle

parse_range-print_header_example :
    parse_range (print_header (suffix 3)) (pos 10) ≡ meaning (suffix 3) 10
parse_range-print_header_example =
    parse_range-print_header (suffix 3) 10 (omega arith) (omega arith)

-- Two files, "abcd" and "efg", in one object.
abbrev file_content : Text → Text
file_content [] = codes "abcd"
file_content (c ∷ id) = codes "efg"

abbrev two_chunks : List ChunkRef
two_chunks =
    record { part = pos 1; file_id = []; offset = pos 0; size = pos 4 }
    ∷ record { part = pos 2; file_id = codes "b"; offset = pos 4; size = pos 3 }
    ∷ []

across :
    copy_all file_content
      (select_chunks_for_range two_chunks (record { start = pos 2; end = pos 5 }))
    ≡ codes "cdef"
unfolding select_chunks_for_range copy_all add64 sub64
across = refl

copy_all-select_chunks_for_range_example :
    copy_all file_content
      (select_chunks_for_range two_chunks (record { start = pos 2; end = pos 5 }))
    ≡ take 4 (drop 2 (object_bytes file_content two_chunks))
copy_all-select_chunks_for_range_example =
    copy_all-select_chunks_for_range file_content two_chunks 2 5 (omega arith) (omega arith)
      (omega arith) (refl, refl, (refl, refl, tt))
