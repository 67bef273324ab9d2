-- ===== src/Tests/Places.antt =====
-- Places as the user writes them.
use godbg.Common.{◌≡◌, refl, ◌↔◌}
use godbg.Common.Bytes.{codes}
use godbg.Common.Int.{pos, negsuc}
use godbg.Common.Result.{wrong_loc, ok, err}
use godbg.Location.{parse_loc}
use godbg.Location.Reads.{IsPlace, parse_loc-IsPlace}

place : parse_loc (codes "t.go:12") ≡ ok (codes "t.go", pos 12)
unfolding parse_loc
place = refl

two_colons : parse_loc (codes "a:b:1") ≡ err wrong_loc
unfolding parse_loc
two_colons = refl

too_large : parse_loc (codes "t:9223372036854775808") ≡ err wrong_loc
unfolding parse_loc
too_large = refl

parse_loc-IsPlace_example :
    (parse_loc (codes "t.go:-3") ≡ ok (codes "t.go", negsuc 2))
    ↔ IsPlace (codes "t.go:-3") (codes "t.go") (negsuc 2)
parse_loc-IsPlace_example = parse_loc-IsPlace (codes "t.go:-3") (codes "t.go") (negsuc 2)
