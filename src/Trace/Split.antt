-- ===== src/Trace/Split.antt =====
-- load_st.c: `split`, which turns the times of a trace into waiting times and notes at each change of
-- direction how many bytes the other side sends before it.
pub mod Awaited
mod Tests
use csbu_flo.Base.{
  ℕ, zero, suc, ◌+◌, ◌-◌, Bool, true, false, ◌&&◌, Option, none, some, List, [], ◌∷◌, length,
  get_or, set, if◌then◌else◌, Outcome, ok, stop, spin, ◌>>=◌, add64,
}
use csbu_flo.Base.Int.{ℤ, pos, negsuc, ◌-ℤ◌, ltb_ℤ, pos_part, neg_part}
use csbu_flo.Trace.{StPair, St}

-- A write before the start of an array.
pub data Underrun : Type 0 where
  underrun : Underrun

-- The array and the local variables; `none` is the index -1.
pub record Splitting : Type 0 where
  pub pairs : List StPair
  pub pos_pre_index : Option ℕ
  pub neg_pre_index : Option ℕ
  pub pre_valid_index : Option ℕ
  pub sum : ℕ

abbrev no_pair : StPair
no_pair = record { size = pos 0; time = pos 0; sprob = 0; expected = 0 }

abbrev pub pair_at : List StPair → ℕ → StPair
pair_at pairs i = get_or pairs i no_pair

abbrev pub set_time : List StPair → ℕ → ℤ → List StPair
set_time pairs i time = set pairs i (record (pair_at pairs i) { time = time })

abbrev pub set_expected : List StPair → ℕ → ℕ → List StPair
set_expected pairs i sum = set pairs i (record (pair_at pairs i) { expected = sum })

-- The last packet of the direction waits until the current one.
pub close_wait : Option ℕ → ℤ → List StPair → List StPair
close_wait none curtime pairs = pairs
close_wait (some i) curtime pairs = set_time pairs i (curtime -ℤ (pair_at pairs i).time)

abbrev pub previous_size : Option ℕ → List StPair → ℤ
previous_size none pairs = pos 0
previous_size (some i) pairs = (pair_at pairs i).size

-- A packet of `n` bytes; `turns` says whether the one before it went the other way.
pub count_bytes : Bool → ℕ → ℕ → Splitting → Splitting
count_bytes turns j n s =
    if turns
    then record s { pairs = set_expected s.pairs j s.sum; sum = n; pre_valid_index = some j }
    else record s { sum = add64 s.sum n; pre_valid_index = some j }

pub split_step : ℕ → Splitting → Splitting
split_step j s =
    let cur = pair_at s.pairs j in
    let down = record s {
      pairs = close_wait s.pos_pre_index cur.time s.pairs;
      pos_pre_index = some j;
    } in
    let up = record s {
      pairs = close_wait s.neg_pre_index cur.time s.pairs;
      neg_pre_index = some j;
    } in
    if ltb_ℤ (pos 0) cur.size
    then count_bytes (ltb_ℤ (previous_size s.pre_valid_index down.pairs) (pos 0)) j
        (pos_part cur.size) down
    else if ltb_ℤ cur.size (pos 0)
    then count_bytes (ltb_ℤ (pos 0) (previous_size s.pre_valid_index up.pairs)) j
        (neg_part cur.size) up
    else s

-- `n` rounds from `j` on.
pub split_loop : ℕ → ℕ → Splitting → Splitting
split_loop zero j s = s
split_loop (suc n) j s = split_loop n (suc j) (split_step j s)

-- The time of the last packet that has one; the value before, if none has.
pub last_valid : ℕ → List StPair → ℕ
last_valid last [] = last
last_valid last (p ∷ ps) =
    let here = if ltb_ℤ (pos 0) p.time then pos_part p.time else last in last_valid here ps

abbrev pub start : List StPair → Splitting
start pairs = record {
  pairs = pairs;
  pos_pre_index = none;
  neg_pre_index = none;
  pre_valid_index = none;
  sum = 0;
}

-- One cluster: the array and `last_valid_time` after it.
pub split_trace : ℕ → List StPair → Outcome Underrun (ℕ × List StPair)
split_trace last pairs =
    let s = split_loop (length pairs) 0 (start pairs) in
    let last' = last_valid last s.pairs in
    elim s.pos_pre_index [
      | none ↦ stop underrun
      | some i ↦
          let pairs' = set_time s.pairs i (pos last' -ℤ (pair_at s.pairs i).time) in
          elim s.neg_pre_index [
            | none ↦ stop underrun
            | some k ↦ ok (last', set_time pairs' k (pos last' -ℤ (pair_at pairs' k).time))
          ]
    ]

pub split_from : ℕ → List St → Outcome Underrun (List St)
split_from last [] = ok []
split_from last (t ∷ ts) = split_trace last t.pairs >>= λ r.
    split_from r.0 ts >>= λ rest. ok (record t { pairs = r.1 } ∷ rest)

pub split : List St → Outcome Underrun (List St)
split straces = split_from 0 straces
