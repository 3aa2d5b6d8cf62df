-- ===== src/Trace/Load/Tests.antt =====
-- Files of two clusters.
use mathlib.Core.Option
use csbu_flo.Trace.Load.Text.{file_text, header_text, lines_text}
use csbu_flo.Base.Int.{pos, negsuc}
use csbu_flo.Trace.Load.{
  Array, load_st, past_end, load_rounds, scan_header, scan_int, scan_signed, skip_space, is_space,
  with_sign, scan_natural, is_digit, second_number, scan_digits, read_pairs, read_items, skip_char,
  end_of_header, pairs_from, pass_comma,
}
use csbu_flo.Trace.Load.Whole.{IsTrace, load_st-file_text, load_st-overrun}
use csbu_flo.Trace.{St}
use csbu_flo.Base.{arith, some, ◌∷◌, [], refl, ◌≡◌, ok, length, none, stop, get_or}

abbrev first : St
first = record {
  clusterid = pos 2;
  pairs =
      record { size = pos 15; time = pos 0; sprob = 0; expected = 0 }
      ∷ record { size = negsuc 6; time = pos 120; sprob = 100; expected = 0 }
      ∷ [];
}

abbrev second : St
second = record {
  clusterid = pos 1;
  pairs = record { size = pos 300; time = pos 4; sprob = 50; expected = 0 } ∷ [];
}

first-IsTrace : IsTrace first
first-IsTrace = record {
  positive = omega arith;
  has_packets = omega arith;
  writable = ((omega arith, refl), ((omega arith, refl), tt));
}

second-IsTrace : IsTrace second
second-IsTrace = record {
  positive = omega arith;
  has_packets = omega arith;
  writable = ((omega arith, refl), tt);
}

load_st-file_text_example :
    (a : Array) × (load_st (some (file_text (first ∷ second ∷ []) [])) 2 ≡ ok (some a))
    × (length a ≡ 3)
    × (get_or a 1 none ≡ some second)
load_st-file_text_example =
    load_st-file_text (first ∷ second ∷ []) 1 second
      ((first-IsTrace, omega arith), ((second-IsTrace, omega arith), tt))
      ((omega arith, tt), (tt, tt)) refl

load_st-overrun_example :
    load_st
      (some (
        file_text
          (second ∷ [])
          (header_text (record first { clusterid = pos 9 }) (lines_text (first.pairs) []))))
      2
    ≡ stop past_end
load_st-overrun_example =
    load_st-overrun (second ∷ []) (record first { clusterid = pos 9 }) 2 []
      ((second-IsTrace, omega arith), tt)
      (record {
        positive = omega arith;
        has_packets = omega arith;
        writable = first-IsTrace.writable;
      })
      (omega arith) (omega arith)

-- "1,0," and three empty lines, then the trace of cluster 2: the format of the header skips the empty
-- lines as well, and the three `%c` take the first characters of the next header, which is then refused.
empty_shifts :
    load_st
      (some (
        b'1' ∷ b',' ∷ b'0' ∷ b',' ∷ b'\n' ∷ b'\n' ∷ b'\n' ∷ b'\n' ∷ b'2' ∷ b',' ∷ b'1' ∷ b','
        ∷ b'\n' ∷ b'5' ∷ b',' ∷ b'\n' ∷ b'0' ∷ b',' ∷ b'\n' ∷ b'0' ∷ b',' ∷ b'\n' ∷ []))
      2
    ≡ ok (some (none ∷ some (record { clusterid = pos 1; pairs = [] }) ∷ none ∷ []))
unfolding load_st load_rounds scan_header Option.bind scan_int scan_signed skip_space is_space
    with_sign scan_natural is_digit second_number scan_digits read_pairs read_items skip_char
    end_of_header pairs_from pass_comma
empty_shifts = refl
