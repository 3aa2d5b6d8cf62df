-- ===== src/Trace/Load/Text.antt =====
-- The file of the supertraces, as the tool that makes it writes it: for each trace its cluster and its
-- length, and one line each of sizes, times and probabilities.
use mathlib.Core.Option
use csbu_flo.Trace.Load.Numbers.{int_text, Ends, scan_int-int_text, skip_space-int_text}
use csbu_flo.Base.Int.{ℤ, pos}
use csbu_flo.Trace.Load.{
  pairs_from, read_items, read_pairs, scan_digits, is_digit, skip_char, pass_comma, scan_header,
  skip_space, second_number, end_of_header, is_space,
}
use csbu_flo.Trace.{St, StPair}
use csbu_flo.Base.{
  arith, ℕ, List, All, ◌<◌, ◌∷◌, [], length, map, ◌++◌, ◌^◌, ◌≡◌, refl, some, ap, ap₂, sym,
  length-map, ◌∙◌,
}

-- Each number with a comma behind it, and what follows the line.
pub items_text : List ℤ → List ℕ → List ℕ
items_text [] rest = rest
items_text (v ∷ vs) rest = int_text v ++ b',' ∷ items_text vs rest

abbrev pub sizes : List StPair → List ℤ
sizes pairs = map (λ (p : StPair). p.size) pairs

abbrev pub times : List StPair → List ℤ
times pairs = map (λ (p : StPair). p.time) pairs

abbrev pub probs : List StPair → List ℤ
probs pairs = map (λ (p : StPair). pos p.sprob) pairs

pub lines_text : List StPair → List ℕ → List ℕ
lines_text pairs rest =
    items_text (sizes pairs)
      (b'\n' ∷ items_text (times pairs) (b'\n' ∷ items_text (probs pairs) (b'\n' ∷ rest)))

pub header_text : St → List ℕ → List ℕ
header_text t rest =
    int_text t.clusterid ++ b',' ∷ (int_text (pos (length t.pairs)) ++ b',' ∷ b'\n' ∷ rest)

-- The file, with `rest` behind it.
unfoldable pub file_text : List St → List ℕ → List ℕ
file_text [] rest = rest
file_text (t ∷ ts) rest = header_text t (lines_text t.pairs (file_text ts rest))

pub comma-Ends : (rest : List ℕ) → Ends (b',' ∷ rest)
unfolding scan_digits is_digit
comma-Ends rest acc = refl

-- The loop reads as many numbers as were written.
pub read_items-items_text :
    (vs : List ℤ) (rest : List ℕ) → read_items (length vs) (items_text vs rest) ≡ some (vs, rest)
unfolding read_items items_text pass_comma Option.bind
read_items-items_text [] rest = refl
read_items-items_text (v ∷ vs) rest =
    rw
      (
        scan_int-int_text v (b',' ∷ items_text vs rest) (comma-Ends (items_text vs rest)),
        read_items-items_text vs rest,
      )
      refl

-- A packet that the file can hold: the probability is a number that `%d` reads.
abbrev pub IsWritable : StPair → Type 0
IsWritable p = (p.sprob < 2 ^ 31) × (p.expected ≡ 0)

pairs_from-parts :
    (pairs : List StPair)
    → All IsWritable pairs
    → pairs_from (sizes pairs) (times pairs) (probs pairs) ≡ pairs
unfolding pairs_from
pairs_from-parts [] h = refl
pairs_from-parts (p ∷ ps) ((small, none_yet), h) =
    ap₂ (λ q qs. q ∷ qs)
      (ap₂ (λ (b e : ℕ). record p { sprob = b; expected = e }) (omega (arith, small))
        (sym none_yet))
      (pairs_from-parts ps h)

read_mapped :
    (f : StPair → ℤ) (pairs : List StPair) (rest : List ℕ)
    → read_items (length pairs) (items_text (map f pairs) rest) ≡ some (map f pairs, rest)
read_mapped f pairs rest =
    ap (λ n. read_items n (items_text (map f pairs) rest)) (sym (length-map pairs f))
    ∙ read_items-items_text (map f pairs) rest

pub read_pairs-lines_text :
    (pairs : List StPair) (rest : List ℕ)
    → All IsWritable pairs
    → read_pairs (length pairs) (lines_text pairs rest) ≡ some (pairs, rest)
unfolding read_pairs lines_text skip_char Option.bind
read_pairs-lines_text pairs rest h =
    let behind_probs = b'\n' ∷ rest in
    let behind_times = b'\n' ∷ items_text (probs pairs) behind_probs in
    let behind_sizes = b'\n' ∷ items_text (times pairs) behind_times in
    rw
      (
        read_mapped (λ (p : StPair). p.size) pairs behind_sizes,
        read_mapped (λ (p : StPair). p.time) pairs behind_times,
        read_mapped (λ (p : StPair). pos p.sprob) pairs behind_probs,
        pairs_from-parts pairs h,
      )
      refl

-- The blanks that the header's format skips end where the sizes begin, if there are any.
skip_space-lines_text :
    (pairs : List StPair) (rest : List ℕ)
    → 0 < length pairs
    → skip_space (lines_text pairs rest) ≡ lines_text pairs rest
unfolding lines_text items_text
skip_space-lines_text [] rest h = absurd (omega arith)
skip_space-lines_text (p ∷ ps) rest h = skip_space-int_text p.size _

skip_newline : (rest : List ℕ) → skip_space (b'\n' ∷ rest) ≡ skip_space rest
unfolding skip_space is_space
skip_newline rest = refl

pub scan_header-header_text :
    (t : St) (rest : List ℕ)
    → 0 < length t.pairs
    → scan_header (header_text t (lines_text t.pairs rest))
      ≡ some ((t.clusterid, pos (length t.pairs)), lines_text t.pairs rest)
unfolding scan_header second_number header_text end_of_header Option.bind
scan_header-header_text t rest h =
    let lines = lines_text t.pairs rest in
    let number = int_text (pos (length t.pairs)) ++ b',' ∷ b'\n' ∷ lines in
    let newline : skip_space (b'\n' ∷ lines) ≡ lines =
      skip_newline lines ∙ skip_space-lines_text t.pairs rest h in
    rw
      (
        scan_int-int_text t.clusterid (b',' ∷ number) (comma-Ends number),
        scan_int-int_text (pos (length t.pairs)) (b',' ∷ b'\n' ∷ lines)
            (comma-Ends (b'\n' ∷ lines)),
        newline,
      )
      refl
