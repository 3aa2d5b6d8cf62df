-- ===== src/Trace/Tests.antt =====
-- A burst of the server and one of the client.
use csbu_flo.Base.{ℕ, ◌≡◌, refl, List, [], ◌∷◌, length, arith}
use csbu_flo.Base.Int.{pos, negsuc}
use csbu_flo.Trace.{StPair, absorb, ends_burst, merged, emptied, refresh_trace}
use csbu_flo.Trace.Bursts.{down_total, up_total, refresh_trace-totals}

abbrev trace : List StPair
trace =
    record { size = pos 500; time = pos 0; sprob = 0; expected = 0 }
    ∷ record { size = pos 700; time = pos 90; sprob = 1; expected = 0 }
    ∷ record { size = negsuc 299; time = pos 120; sprob = 2; expected = 0 }
    ∷ []

refresh_trace_test :
    refresh_trace trace
    ≡ record { size = pos 1200; time = pos 90; sprob = 1; expected = 0 }
      ∷ record { size = pos 0; time = pos 0; sprob = 0; expected = 0 }
      ∷ record { size = negsuc 299; time = pos 120; sprob = 2; expected = 0 }
      ∷ []
unfolding refresh_trace absorb ends_burst merged emptied csbu_flo.Base.Int.◌+ℤ◌
refresh_trace_test = refl

refresh_trace-totals_example :
    (down_total (refresh_trace trace) ≡ 1200)
    × (up_total (refresh_trace trace) ≡ 300)
    × (length (refresh_trace trace) ≡ 3)
refresh_trace-totals_example =
    refresh_trace-totals trace (omega arith, (omega arith, (omega arith, tt)))
