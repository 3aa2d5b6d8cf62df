-- ===== src/Cursor/Tests.antt =====
-- A trace of four packets, one of size 0, the cursor behind the first.
use csbu_flo.Base.{ℕ, refl, false, some, List, [], ◌∷◌}
use csbu_flo.Base.Int.{pos, negsuc}
use csbu_flo.Trace.{StPair}
use csbu_flo.Cursor.{Cursor, move_to_next_st_item}
use csbu_flo.Cursor.Walk.{Moves, to_come, kept, goes, move_to_next_st_item-Moves}

abbrev server : ℕ → StPair
server n = record { size = pos n; time = pos 0; sprob = 30; expected = 0 }

abbrev client : ℕ → StPair
client n = record { size = negsuc n; time = pos 0; sprob = 30; expected = 0 }

abbrev pairs : List StPair
pairs = server 9 ∷ client 8 ∷ server 0 ∷ server 6 ∷ []

abbrev cursor : Cursor
cursor = record {
  cluster_id = pos 1;
  st_index = pos 1;
  cur_item = some (server 9);
  transcript_end = false;
  first_sent = false;
  first_expected = 0;
}

move_to_next_st_item_example :
    Moves pairs (pos 1) cursor (server 6 ∷ []) (move_to_next_st_item pairs (pos 1) cursor)
unfolding to_come kept goes
move_to_next_st_item_example = move_to_next_st_item-Moves pairs (pos 1) cursor refl
