-- ===== src/Trace/Split/Awaited.antt =====
-- What `split` notes in the array is what one pass over the packets notes.
use mathlib.Core.List.{append_assoc}
use csbu_flo.Base.{
  ℕ, zero, suc, ◌+◌, ◌≡◌, refl, sym, ap, ap₂, ◌∙◌, inl, inr, Bool, true, false, Option, none, some,
  List, [], ◌∷◌, ◌++◌, map, length, get_or, set, if◌then◌else◌, arith, Bool-cases, add64,
  length-append, length-map,
}
use csbu_flo.Base.Int.{ℤ, pos, ltb_ℤ, pos_part, neg_part}
use csbu_flo.Trace.{StPair}
use csbu_flo.Trace.Split.{
  Splitting, pair_at, set_time, set_expected, close_wait, previous_size, count_bytes, split_step,
  split_loop, start,
}

-- The size of a packet and what is awaited before it.
abbrev pub Noted : Type 0
Noted = ℤ × ℕ

abbrev pub noted : StPair → Noted
noted p = (p.size, p.expected)

-- The packets in turn, after one of size `prev` and `sum` bytes of its direction: at a change of
-- direction the sum is noted and a new one starts.
unfoldable pub awaited : ℤ → ℕ → List Noted → List Noted
awaited prev sum [] = []
awaited prev sum ((size, old) ∷ ps) =
    let n = pos_part size + neg_part size in
    let turn = (size, sum) ∷ awaited size n ps in
    let same = (size, old) ∷ awaited size (add64 sum n) ps in
    let nothing = (size, old) ∷ awaited prev sum ps in
    if ltb_ℤ (pos 0) size
    then (if ltb_ℤ prev (pos 0) then turn else same)
    else if ltb_ℤ size (pos 0)
    then (if ltb_ℤ (pos 0) prev then turn else same)
    else nothing

noted-set_time :
    (pairs : List StPair) (i : ℕ) (t : ℤ) → map noted (set_time pairs i t) ≡ map noted pairs
noted-set_time [] i t = refl
noted-set_time (p ∷ ps) zero t = refl
noted-set_time (p ∷ ps) (suc i) t = ap (λ r. noted p ∷ r) (noted-set_time ps i t)

noted-close_wait :
    (o : Option ℕ) (t : ℤ) (pairs : List StPair)
    → map noted (close_wait o t pairs) ≡ map noted pairs
unfolding close_wait
noted-close_wait none t pairs = refl
noted-close_wait (some i) t pairs = noted-set_time pairs i _

noted-set_expected :
    (pairs : List StPair) (i sum : ℕ)
    → map noted (set_expected pairs i sum) ≡ set (map noted pairs) i ((pair_at pairs i).size, sum)
noted-set_expected [] i sum = refl
noted-set_expected (p ∷ ps) zero sum = refl
noted-set_expected (p ∷ ps) (suc i) sum = ap (λ r. noted p ∷ r) (noted-set_expected ps i sum)

noted-pair_at :
    (pairs : List StPair) (i : ℕ) → noted (pair_at pairs i) ≡ get_or (map noted pairs) i (pos 0, 0)
noted-pair_at [] i = refl
noted-pair_at (p ∷ ps) zero = refl
noted-pair_at (p ∷ ps) (suc i) = noted-pair_at ps i

-- The place behind `d`.
at_end :
    (d : List Noted) (x y : Noted) (v : List Noted)
    → (get_or (d ++ x ∷ v) (length d) (pos 0, 0) ≡ x) × (set (d ++ x ∷ v) (length d) y ≡ d ++ y ∷ v)
at_end [] x y v = (refl, refl)
at_end (c ∷ d) x y v = ((at_end d x y v).0, ap (λ r. c ∷ r) (at_end d x y v).1)

-- Only the sizes and what is awaited count for the size of a packet.
previous_size-noted :
    (o : Option ℕ) (ps qs : List StPair)
    → map noted ps ≡ map noted qs
    → previous_size o ps ≡ previous_size o qs
previous_size-noted none ps qs e = refl
previous_size-noted (some i) ps qs e =
    ap (λ n. n.0)
      (noted-pair_at ps i ∙ ap (λ l. get_or l i (pos 0, 0)) e ∙ sym (noted-pair_at qs i))

-- Before round `j`: `d` is done, `v` to come, and the last packet had the size `prev`.
record At (j : ℕ) (d v : List Noted) (prev : ℤ) (s : Splitting) : Type 0 where
  placed : map noted s.pairs ≡ d ++ v
  behind : length d ≡ j
  last : previous_size s.pre_valid_index s.pairs ≡ prev

current :
    (j : ℕ) (d v : List Noted) (x : Noted) (pairs : List StPair)
    → map noted pairs ≡ d ++ x ∷ v
    → length d ≡ j
    → noted (pair_at pairs j) ≡ x
current j d v x pairs placed behind =
    noted-pair_at pairs j
    ∙ ap₂ (λ (l : List Noted) (k : ℕ). get_or l k (pos 0, 0)) placed (sym behind)
    ∙ (at_end d x x v).0

count_bytes-At :
    (turns : Bool) (j n : ℕ) (d v : List Noted) (size : ℤ) (old : ℕ) (s : Splitting)
    → map noted s.pairs ≡ d ++ (size, old) ∷ v
    → length d ≡ j
    → (At (suc j) (d ++ (size, if turns then s.sum else old) ∷ []) v size (count_bytes turns j n s))
      × ((count_bytes turns j n s).sum ≡ (if turns then n else add64 s.sum n))
unfolding count_bytes
count_bytes-At false j n d v size old s placed behind = (
  record {
    placed = placed ∙ sym (append_assoc d ((size, old) ∷ []) v);
    behind = omega (arith, length-append d ((size, old) ∷ []));
    last = ap (λ x. x.0) (current j d v (size, old) s.pairs placed behind);
  },
  refl,
)
count_bytes-At true j n d v size old s placed behind =
    let same_size : (pair_at s.pairs j).size ≡ size =
      ap (λ x. x.0) (current j d v (size, old) s.pairs placed behind) in
    let put : map noted (set_expected s.pairs j s.sum) ≡ d ++ (size, s.sum) ∷ v =
      noted-set_expected s.pairs j s.sum
      ∙ ap₂ (λ (l : List Noted) (k : ℕ). set l k ((pair_at s.pairs j).size, s.sum)) placed
          (sym behind)
      ∙ (at_end d (size, old) ((pair_at s.pairs j).size, s.sum) v).1
      ∙ ap (λ z. d ++ (z, s.sum) ∷ v) same_size in
    (
      record {
        placed = put ∙ sym (append_assoc d ((size, s.sum) ∷ []) v);
        behind = omega (arith, length-append d ((size, s.sum) ∷ []));
        last =
            ap (λ x. x.0) (current j d v (size, s.sum) (set_expected s.pairs j s.sum) put behind);
      },
      refl,
    )

-- One round, and what stands in the array behind it.
record Round (j : ℕ) (d v : List Noted) (whole : List Noted) (s : Splitting) : Type 0 where
  here : Noted
  size : ℤ
  next : At (suc j) (d ++ here ∷ []) v size s
  rest : here ∷ awaited size s.sum v ≡ whole

counted-Round :
    (turns : Bool) (j n m : ℕ) (d v : List Noted) (size : ℤ) (old sum : ℕ) (s : Splitting)
    → map noted s.pairs ≡ d ++ (size, old) ∷ v
    → length d ≡ j
    → s.sum ≡ sum
    → n ≡ m
    → Round j d v
        (if turns
          then (size, sum) ∷ awaited size m v
          else (size, old) ∷ awaited size (add64 sum m) v)
        (count_bytes turns j n s)
counted-Round true j n m d v size old sum s placed behind total amount =
    let (at, e) = count_bytes-At true j n d v size old s placed behind in
    record {
      here = (size, s.sum);
      size = size;
      next = at;
      rest = ap₂ (λ (x y : ℕ). (size, x) ∷ awaited size y v) total (e ∙ amount);
    }
counted-Round false j n m d v size old sum s placed behind total amount =
    let (at, e) = count_bytes-At false j n d v size old s placed behind in
    record {
      here = (size, old);
      size = size;
      next = at;
      rest = ap (λ y. (size, old) ∷ awaited size y v) (e ∙ ap₂ add64 total amount);
    }

split_step-Round :
    (j : ℕ) (d v : List Noted) (size prev : ℤ) (old : ℕ) (s : Splitting)
    → At j d ((size, old) ∷ v) prev s
    → Round j d v (awaited prev s.sum ((size, old) ∷ v)) (split_step j s)
unfolding split_step awaited
split_step-Round j d v size prev old s a = elim (Bool-cases (ltb_ℤ (pos 0) size)) [
  | inl down ↦
      let amount : pos_part (pair_at s.pairs j).size ≡ pos_part size + neg_part size =
        ap pos_part same ∙ ground arith in
      let before =
        previous (close_wait s.pos_pre_index (pair_at s.pairs j).time s.pairs)
          (noted-close_wait s.pos_pre_index (pair_at s.pairs j).time s.pairs) in
      rw (ap (ltb_ℤ (pos 0)) same ∙ down, down, ap (λ z. ltb_ℤ z (pos 0)) before)
        (counted-Round (ltb_ℤ prev (pos 0)) j _ _ d v size old s.sum _
          (noted-close_wait s.pos_pre_index (pair_at s.pairs j).time s.pairs ∙ a.placed) a.behind
          refl amount)
  | inr not_down ↦ elim (Bool-cases (ltb_ℤ size (pos 0))) [
    | inl up ↦
        let amount : neg_part (pair_at s.pairs j).size ≡ pos_part size + neg_part size =
          ap neg_part same ∙ ground arith in
        let before =
          previous (close_wait s.neg_pre_index (pair_at s.pairs j).time s.pairs)
            (noted-close_wait s.neg_pre_index (pair_at s.pairs j).time s.pairs) in
        rw
          (
            ap (ltb_ℤ (pos 0)) same ∙ not_down,
            not_down,
            ap (λ z. ltb_ℤ z (pos 0)) same ∙ up,
            up,
            ap (ltb_ℤ (pos 0)) before,
          )
          (counted-Round (ltb_ℤ (pos 0) prev) j _ _ d v size old s.sum _
            (noted-close_wait s.neg_pre_index (pair_at s.pairs j).time s.pairs ∙ a.placed) a.behind
            refl amount)
    | inr not_up ↦
        rw
          (
            ap (ltb_ℤ (pos 0)) same ∙ not_down,
            not_down,
            ap (λ z. ltb_ℤ z (pos 0)) same ∙ not_up,
            not_up,
          )
          (record {
            here = (size, old);
            size = prev;
            next = record {
              placed = a.placed ∙ sym (append_assoc d ((size, old) ∷ []) v);
              behind = omega (arith, length-append d ((size, old) ∷ []), a.behind);
              last = a.last;
            };
            rest = refl;
          })
  ]
]
  where
    same : (pair_at s.pairs j).size ≡ size
    same = ap (λ x. x.0) (current j d v (size, old) s.pairs a.placed a.behind)

    previous :
        (pairs : List StPair)
        → map noted pairs ≡ map noted s.pairs
        → previous_size s.pre_valid_index pairs ≡ prev
    previous pairs e = previous_size-noted s.pre_valid_index pairs s.pairs e ∙ a.last

-- The array after the rounds that are left.
split_loop-awaited :
    (v d : List Noted) (j : ℕ) (prev : ℤ) (s : Splitting)
    → At j d v prev s
    → map noted (split_loop (length v) j s).pairs ≡ d ++ awaited prev s.sum v
unfolding split_loop awaited
split_loop-awaited [] d j prev s a = a.placed
split_loop-awaited ((size, old) ∷ v) d j prev s a =
    let r = split_step-Round j d v size prev old s a in
    split_loop-awaited v (d ++ r.here ∷ []) (suc j) r.size (split_step j s) r.next
    ∙ append_assoc d (r.here ∷ []) (awaited r.size (split_step j s).sum v)
    ∙ ap (λ l. d ++ l) r.rest

-- The loop of `split` over any trace, which writes into the array through its indices, leaves the
-- sizes, and notes what one pass over the packets notes: where the direction differs from that of the
-- last packet with bytes, the bytes since the direction last changed (modulo 2 ^ 64), and elsewhere
-- what was there.
pub split_loop-noted :
    (pairs : List StPair)
    → map noted (split_loop (length pairs) 0 (start pairs)).pairs
      ≡ awaited (pos 0) 0 (map noted pairs)
split_loop-noted pairs =
    ap (λ n. map noted (split_loop n 0 (start pairs)).pairs) (sym (length-map pairs noted))
    ∙ split_loop-awaited (map noted pairs) [] 0 (pos 0) (start pairs)
        (record { placed = refl; behind = refl; last = refl })
