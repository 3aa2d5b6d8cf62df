-- ===== src/Cursor.antt =====
-- misc.c: the position in the supertrace of the current page, one packet after the other.
pub mod Walk
mod Tests
use csbu_flo.Base.{
  ℕ, zero, suc, ◌+◌, ◌-◌, ◌%◌, Bool, true, false, ◌&&◌, ◌||◌, List, [], ◌∷◌, ltb, leb, ◌==◌,
  if◌then◌else◌, Option, none, some, length, drop, get_elem?,
}
use csbu_flo.Base.Int.{ℤ, pos, negsuc, ltb_ℤ, leb_ℤ, ◌==ℤ◌, pos_part}
use csbu_flo.Trace.{StPair}

-- `cluster_id`, `st_index`, `cur_item` and the flags of misc.c that go with them. `cur_item` points
-- into the trace, which nothing changes any more: it is the packet that it points to.
pub record Cursor : Type 0 where
  pub cluster_id : ℤ
  pub st_index : ℤ
  pub cur_item : Option StPair
  pub transcript_end : Bool
  pub first_sent : Bool
  pub first_expected : ℕ

-- `while(i < tracelen && p(cur[i])) i++`; the list is the trace from `i` on.
unfoldable pub skip : (StPair → Bool) → ℕ → List StPair → ℕ
skip p i [] = i
skip p i (x ∷ xs) = let further = skip p (i + 1) xs in if p x then further else i

abbrev pub is_positive : StPair → Bool
is_positive p = ltb_ℤ (pos 0) p.size

abbrev pub is_negative : StPair → Bool
is_negative p = ltb_ℤ p.size (pos 0)

-- The sizes that the search for the next packet passes over.
abbrev pub passes : ℤ → StPair → Bool
passes is_pos p = if ltb_ℤ (pos 0) is_pos then leb_ℤ p.size (pos 0) else leb_ℤ (pos 0) p.size

abbrev lost : Cursor → Cursor
lost c = record c { cur_item = none; st_index = negsuc 0 }

abbrev pub outside : List StPair → ℤ → Bool
outside pairs i = ltb_ℤ i (pos 0) || leb_ℤ (pos (length pairs)) i

-- From here on `pairs` is `straces[cluster_id]->pairs`.
unfoldable pub move_to_next_st_item : List StPair → ℤ → Cursor → Cursor
move_to_next_st_item pairs is_pos c =
    if ltb_ℤ c.cluster_id (pos 0)
    then c
    else if outside pairs c.st_index
    then lost c
    else let i = skip (passes is_pos) (pos_part c.st_index) (drop (pos_part c.st_index) pairs) in
      elim (get_elem? pairs i) [
        | some p ↦ record c { cur_item = some p; st_index = pos (i + 1) }
        | none ↦ lost c
      ]

unfoldable pub should_jump_trans_end : ℕ → Cursor → Bool × Cursor
should_jump_trans_end rand c = if ltb_ℤ c.cluster_id (pos 0) then (true, c) else elim c.cur_item [
  | none ↦ (true, c)
  | some item ↦
      if c.transcript_end
      then (true, c)
      else if ltb (rand % 100) item.sprob
      then (true, lost c)
      else (false, c)
]

-- Server only: the data that the client is to send before the server's first packet.
pub set_first_sent : List StPair → Cursor → Cursor
set_first_sent pairs c =
    if c.cluster_id ==ℤ negsuc 0
    then c
    else if outside pairs c.st_index
    then c
    else let i = skip is_positive (pos_part c.st_index) (drop (pos_part c.st_index) pairs) in
      let j = skip is_negative i (drop i pairs) in
      elim (get_elem? pairs j) [
        | none ↦ c
        | some p ↦ record c {
          first_expected = p.expected;
          first_sent = if leb 1 j then true else c.first_sent;
        }
      ]
