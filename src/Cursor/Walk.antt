-- ===== src/Cursor/Walk.antt =====
-- `move_to_next_st_item` visits the packets of one direction, in the order of the trace.
use csbu_flo.Base.{
  ℕ, suc, ◌+◌, ◌≡◌, refl, ap, ◌∙◌, inl, inr, Bool, true, false, leb, Option, List, [], ◌∷◌,
  if◌then◌else◌, none, some, drop, get_elem?, drop-cons, get_elem?-drop_nil, drop_at, arith,
  Bool-cases, drop_all, not, subst, sym, fun_ext,
}
use csbu_flo.Base.Int.{ℤ, pos, negsuc, ◌==ℤ◌, ltb_ℤ, pos_part}
use csbu_flo.Trace.{StPair}
use csbu_flo.Cursor.{Cursor, skip, passes, outside, lost, move_to_next_st_item, set_first_sent}

-- The elements that do not pass.
unfoldable pub kept {ℓ} : {A : Type ℓ} → (A → Bool) → List A → List A
kept p [] = []
kept p (x ∷ xs) = if p x then kept p xs else x ∷ kept p xs

-- A search that starts at `i` stops at the first element that does not pass, or at the end.
abbrev Stops : (StPair → Bool) → List StPair → ℕ → List StPair → Type 0
Stops p pairs j [] = get_elem? pairs j ≡ none
Stops p pairs j (x ∷ xs) = (get_elem? pairs j ≡ some x) × (kept p (drop (suc j) pairs) ≡ xs)

pub skip-Stops :
    (p : StPair → Bool) (pairs : List StPair) (i : ℕ) (l : List StPair)
    → drop i pairs ≡ l
    → Stops p pairs (skip p i l) (kept p l)
unfolding skip kept
skip-Stops p pairs i [] e = get_elem?-drop_nil i pairs e
skip-Stops p pairs i (x ∷ l) e =
    let (here, rest) = drop-cons i pairs x l e in
    elim (Bool-cases (p x)) [
      | inl pass ↦
          rw pass
            (skip-Stops p pairs (i + 1) l (drop_at pairs (i + 1) (suc i) (omega arith) ∙ rest))
      | inr stop ↦ rw stop (here, ap (kept p) rest)
    ]

-- A packet of the direction: of a size above 0 where `is_pos` is, and otherwise of one below 0.
unfoldable pub goes : ℤ → StPair → Bool
goes is_pos p = if ltb_ℤ (pos 0) is_pos then ltb_ℤ (pos 0) p.size else ltb_ℤ p.size (pos 0)

passes-goes : (is_pos : ℤ) (p : StPair) → passes is_pos p ≡ not (goes is_pos p)
unfolding goes
passes-goes is_pos p = ground arith

-- The packets of the direction that are still to come.
unfoldable pub to_come : List StPair → ℤ → Cursor → List StPair
to_come pairs is_pos c =
    if outside pairs c.st_index
    then []
    else kept (λ p. not (goes is_pos p)) (drop (pos_part c.st_index) pairs)

come_at :
    (pairs : List StPair) (is_pos : ℤ) (c : Cursor) (x : StPair) (i : ℕ)
    → to_come pairs is_pos (record c { cur_item = some x; st_index = pos i })
      ≡ kept (λ p. not (goes is_pos p)) (drop i pairs)
unfolding to_come kept
come_at pairs is_pos c x i = elim (Bool-cases (outside pairs (pos i))) [
  | inl out ↦ rw (out, drop_all pairs i (ground arith)) refl
  | inr within ↦ rw within refl
]

abbrev pub Moves : List StPair → ℤ → Cursor → List StPair → Cursor → Type 0
Moves pairs is_pos c [] c' = c' ≡ lost c
Moves pairs is_pos c (x ∷ xs) c' =
    (c'.cur_item ≡ some x)
    × (to_come pairs is_pos c' ≡ xs)
    × (c'.cluster_id ≡ c.cluster_id)
    × (c'.transcript_end ≡ c.transcript_end)

moved_on :
    (pairs : List StPair) (is_pos : ℤ) (c : Cursor) (j : ℕ) (l : List StPair)
    → Stops (λ p. not (goes is_pos p)) pairs j l
    → Moves pairs is_pos c l (elim (get_elem? pairs j) [
      | some p ↦ record c { cur_item = some p; st_index = pos (j + 1) }
      | none ↦ lost c
    ])
moved_on pairs is_pos c j [] s = rw s refl
moved_on pairs is_pos c j (x ∷ xs) s = rw s.0 (
  refl,
  come_at pairs is_pos c x (j + 1)
      ∙ ap (kept (λ p. not (goes is_pos p))) (drop_at pairs (j + 1) (suc j) (omega arith))
      ∙ s.1,
  refl,
  refl,
)

-- In a supertrace (the cluster is known), a step takes the first packet of the direction that is
-- still to come, which the others then follow; with none left the cursor is lost: no packet, index -1.
-- The packets of the direction are those of a size above 0 where `is_pos` is above 0, and otherwise
-- those of a size below 0; one of size 0 is of neither.
pub move_to_next_st_item-Moves :
    (pairs : List StPair) (is_pos : ℤ) (c : Cursor)
    → ltb_ℤ c.cluster_id (pos 0) ≡ false
    → Moves pairs is_pos c (to_come pairs is_pos c) (move_to_next_st_item pairs is_pos c)
unfolding move_to_next_st_item to_come
move_to_next_st_item-Moves pairs is_pos c known =
    let rest = drop (pos_part c.st_index) pairs in
    elim (Bool-cases (outside pairs c.st_index)) [
      | inl out ↦ rw (known, out) refl
      | inr within ↦
          rw (known, within)
            (moved_on pairs is_pos c _ _ (
              subst
                (λ q.
                  Stops (λ p. not (goes is_pos p)) pairs (skip q (pos_part c.st_index) rest)
                    (kept (λ p. not (goes is_pos p)) rest))
                (sym (fun_ext (passes-goes is_pos)))
                (skip-Stops (λ p. not (goes is_pos p)) pairs (pos_part c.st_index) _ refl)))
    ]

found_same :
    (c : Cursor) (i : ℕ) (o : Option StPair)
    → let c' : Cursor = elim o [
      | none ↦ c
      | some p ↦ record c {
        first_expected = p.expected;
        first_sent = if leb 1 i then true else c.first_sent;
      }
    ] in
      (c'.cluster_id ≡ c.cluster_id)
      × (c'.st_index ≡ c.st_index)
      × (c'.transcript_end ≡ c.transcript_end)
found_same c i none = (refl, refl, refl)
found_same c i (some p) = (refl, refl, refl)

-- The server's look ahead moves nothing.
pub set_first_sent_same :
    (pairs : List StPair) (c : Cursor)
    → ((set_first_sent pairs c).cluster_id ≡ c.cluster_id)
      × ((set_first_sent pairs c).st_index ≡ c.st_index)
      × ((set_first_sent pairs c).transcript_end ≡ c.transcript_end)
unfolding set_first_sent
set_first_sent_same pairs c = elim (Bool-cases (c.cluster_id ==ℤ negsuc 0)) [
  | inl unknown ↦ rw unknown (refl, refl, refl)
  | inr known ↦ elim (Bool-cases (outside pairs c.st_index)) [
    | inl out ↦ rw (known, out) (refl, refl, refl)
    | inr within ↦ rw (known, within) (found_same c _ _)
  ]
]
