-- ===== src/Trace/Split/Tests.antt =====
-- Two bursts of the server around one of the client.
use csbu_flo.Base.{◌≡◌, List, [], ◌∷◌, map}
use csbu_flo.Base.Int.{pos, negsuc}
use csbu_flo.Trace.{StPair}
use csbu_flo.Trace.Split.{split_loop, start}
use csbu_flo.Trace.Split.Awaited.{noted, awaited, split_loop-noted}

abbrev trace : List StPair
trace =
    record { size = pos 500; time = pos 10; sprob = 0; expected = 0 }
    ∷ record { size = pos 700; time = pos 90; sprob = 1; expected = 0 }
    ∷ record { size = negsuc 299; time = pos 120; sprob = 2; expected = 0 }
    ∷ record { size = pos 100; time = pos 150; sprob = 0; expected = 0 }
    ∷ []

split_loop-noted_example :
    map noted (split_loop 4 0 (start trace)).pairs
    ≡ (pos 500, 0) ∷ (pos 700, 0) ∷ (negsuc 299, 1200) ∷ (pos 100, 300) ∷ []
unfolding awaited
split_loop-noted_example = split_loop-noted trace
