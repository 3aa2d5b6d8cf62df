-- ===== src/Trace.antt =====
-- load_st.c: a supertrace, the packets that a page load of its cluster is made to look like.
-- A positive size is a packet from the server, a negative one a packet from the client.
mod Bursts
pub mod Split
pub mod Load
mod Tests
use csbu_flo.Base.{ℕ, Bool, ◌&&◌, ◌||◌, List, [], ◌∷◌, leb, if◌then◌else◌, sub64}
use csbu_flo.Base.Int.{ℤ, pos, ◌+ℤ◌, ◌-ℤ◌, ltb_ℤ, to_u64}

-- `STPAIR`
pub record StPair : Type 0 where
  pub size : ℤ
  pub time : ℤ
  pub sprob : ℕ
  pub expected : ℕ

-- `ST`: `tracelen` is the length of `pairs`.
pub record St : Type 0 where
  pub clusterid : ℤ
  pub pairs : List StPair

-- The packet `e` ends the burst that a packet of size `ssize` at time `stime` began. The times are
-- compared as `unsigned long long`.
pub ends_burst : ℕ → ℤ → StPair → Bool
ends_burst stime ssize e =
    ltb_ℤ e.size (pos 0) && ltb_ℤ (pos 0) ssize
    || ltb_ℤ (pos 0) e.size && ltb_ℤ ssize (pos 0)
    || leb 200000 (sub64 (to_u64 e.time) stime)

pub merged : StPair → StPair → StPair
merged s e = record s { size = s.size +ℤ e.size; time = e.time; sprob = e.sprob }

pub emptied : StPair → StPair
emptied e = record e { size = pos 0; time = pos 0; sprob = 0 }

-- The inner loop from the packet behind `s` on, and the rounds of the outer loop after it. The
-- result is the final value at `s` and what stands behind it.
pub absorb : StPair → ℕ → ℤ → List StPair → StPair × List StPair
absorb s stime ssize [] = (s, [])
absorb s stime ssize (e ∷ rest) =
    let next_burst = absorb e (to_u64 e.time) e.size rest in
    let same_burst = absorb (merged s e) stime ssize rest in
    if ends_burst stime ssize e
    then (s, next_burst.0 ∷ next_burst.1)
    else (same_burst.0, emptied e ∷ same_burst.1)

pub refresh_trace : List StPair → List StPair
refresh_trace [] = []
refresh_trace (s ∷ rest) = let (s', rest') = absorb s (to_u64 s.time) s.size rest in s' ∷ rest'

abbrev first_time : List StPair → ℤ
first_time [] = pos 0
first_time (p ∷ ps) = p.time

-- The loop goes backwards, so that every packet is taken relative to the old time of the first.
pub relative_to : ℤ → List StPair → List StPair
relative_to t0 [] = []
relative_to t0 (p ∷ ps) = record p { time = p.time -ℤ t0 } ∷ relative_to t0 ps

pub change_to_relative_time : List St → List St
change_to_relative_time [] = []
change_to_relative_time (t ∷ ts) =
    record t { pairs = refresh_trace (relative_to (first_time t.pairs) t.pairs) }
    ∷ change_to_relative_time ts
