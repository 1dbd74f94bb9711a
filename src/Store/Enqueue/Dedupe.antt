-- ===== src/Store/Enqueue/Dedupe.antt =====
-- internal/store/queue.go: `dedupeQueueItems` against a specification that looks at one key at a time.
use league_of_legends.Prelude.{
  ◌≡◌, refl, sym, ◌∙◌, true, false, List, [], ◌∷◌, Option, none, some, All, Bool-cases, inl, inr,
  ◌⊎◌, if◌then◌else◌, ℤ, ltb_ℤ, str_eq, eq_iff, arith, eq_of_parts,
}
use league_of_legends.Store.Row.{QueueItem, stored}
use league_of_legends.Store.Enqueue.{same_key, absorb, dedupe_from, dedupe_queue_items}

-- The lower of two priority values; `none` where there is none.
abbrev pub lower : Option ℤ → Option ℤ → Option ℤ
lower none b = b
lower (some a) none = some a
lower (some a) (some b) = some (if ltb_ℤ b a then b else a)

-- The priority that a batch gives to the key of `k`.
unfoldable pub priority_of : QueueItem → List QueueItem → Option ℤ
priority_of k [] = none
priority_of k (i ∷ is) = if same_key k i then some i.priority else priority_of k is

-- What the batch should give: the lowest value among the items with the key of `k` and a match id.
unfoldable pub lowest : QueueItem → List QueueItem → Option ℤ
lowest k [] = none
lowest k (i ∷ is) =
    let rest = lowest k is in
    if str_eq i.match_id ""
    then rest
    else if same_key k i
    then lower (some i.priority) rest
    else rest

lower_assoc : (a b c : Option ℤ) → lower (lower a b) c ≡ lower a (lower b c)
lower_assoc none b c = refl
lower_assoc (some a) none c = refl
lower_assoc (some a) (some b) none = refl
lower_assoc (some a) (some b) (some c) =
    ground (arith, eq_of_parts a b, eq_of_parts b c, eq_of_parts a c)

same_key-eq :
    (i j : QueueItem)
    → same_key i j ≡ true
    → (i.match_id ≡ j.match_id) × (stored i.kind ≡ stored j.kind)
unfolding same_key
same_key-eq i j h = ground (arith, eq_iff i.match_id j.match_id)

same_key-sym : (i j : QueueItem) → same_key i j ≡ same_key j i
unfolding same_key
same_key-sym i j = ground (arith, eq_iff i.match_id j.match_id, eq_iff j.match_id i.match_id)

same_key_right : (k i j : QueueItem) → same_key i j ≡ true → same_key k i ≡ same_key k j
unfolding same_key
same_key_right k i j h = let (m, s) = same_key-eq i j h in rw (m, s)

same_key_update : (k j : QueueItem) (p : ℤ) → same_key k (record j { priority = p }) ≡ same_key k j
unfolding same_key
same_key_update k j p = refl

priority_of-absorb :
    (k i : QueueItem) (out : List QueueItem)
    → priority_of k (absorb i out)
      ≡ (if same_key k i then lower (priority_of k out) (some i.priority) else priority_of k out)
unfolding priority_of absorb
priority_of-absorb k i [] = refl
priority_of-absorb k i (j ∷ js) = elim (Bool-cases (same_key i j)) [
  | inl hit ↦ elim (Bool-cases (same_key k j)) [
    | inl mine ↦ elim (Bool-cases (ltb_ℤ i.priority j.priority)) [
      | inl less ↦
          rw (hit, same_key_right k i j hit, mine, less, same_key_update k j i.priority, mine)
      | inr more ↦ rw (hit, same_key_right k i j hit, mine, more, mine)
    ]
    | inr other ↦ elim (Bool-cases (ltb_ℤ i.priority j.priority)) [
      | inl less ↦
          rw (hit, same_key_right k i j hit, other, less, same_key_update k j i.priority, other)
      | inr more ↦ rw (hit, same_key_right k i j hit, other, more, other)
    ]
  ]
  | inr miss ↦ elim (Bool-cases (same_key k j)) [
    | inl mine ↦
        let apart : same_key k i ≡ false = same_key-sym k i ∙ same_key_right i k j mine ∙ miss in
        rw (miss, mine, apart)
    | inr other ↦ rw (miss, other) (priority_of-absorb k i js)
  ]
]

lower-none : (a : Option ℤ) → lower a none ≡ a
lower-none none = refl
lower-none (some a) = refl

priority_of-dedupe_from :
    (k : QueueItem) (out items : List QueueItem)
    → priority_of k (dedupe_from out items) ≡ lower (priority_of k out) (lowest k items)
unfolding dedupe_from lowest
priority_of-dedupe_from k out [] = sym (lower-none (priority_of k out))
priority_of-dedupe_from k out (i ∷ is) = elim (Bool-cases (str_eq i.match_id "")) [
  | inl blank ↦ rw blank (priority_of-dedupe_from k out is)
  | inr named ↦
      rw named (priority_of-dedupe_from k (absorb i out) is ∙ absorbed (Bool-cases (same_key k i)))
]
  where
    absorbed :
        (same_key k i ≡ true) ⊎ (same_key k i ≡ false)
        → lower (priority_of k (absorb i out)) (lowest k is)
          ≡ lower
              (priority_of k out)
              (if same_key k i then lower (some i.priority) (lowest k is) else lowest k is)
    absorbed (inl mine) =
        rw (priority_of-absorb k i out, mine)
          (lower_assoc (priority_of k out) (some i.priority) (lowest k is))
    absorbed (inr other) = rw (priority_of-absorb k i out, other)

-- For every key, the deduplicated batch holds the lowest priority value that the batch gives to it, and
-- holds it exactly if the batch has an item of that key with a match id.
pub priority_of-dedupe :
    (k : QueueItem) (items : List QueueItem)
    → priority_of k (dedupe_queue_items items) ≡ lowest k items
unfolding dedupe_queue_items priority_of
priority_of-dedupe k items = priority_of-dedupe_from k [] items

-- No two items ask for the same payload.
abbrev pub NoRepeats : List QueueItem → Type 0
NoRepeats [] = Unit
NoRepeats (i ∷ is) = All (λ j. same_key i j ≡ false) is × NoRepeats is

same_key_update_left :
    (i j : QueueItem) (p : ℤ) → same_key (record i { priority = p }) j ≡ same_key i j
unfolding same_key
same_key_update_left i j p = refl

absorb-apart :
    (i j : QueueItem) (out : List QueueItem)
    → same_key j i ≡ false
    → All (λ s. same_key j s ≡ false) out
    → All (λ s. same_key j s ≡ false) (absorb i out)
unfolding absorb
absorb-apart i j [] h a = (h, tt)
absorb-apart i j (s ∷ out) h a = elim (Bool-cases (same_key i s)) [
  | inl hit ↦ elim (Bool-cases (ltb_ℤ i.priority s.priority)) [
    | inl less ↦ rw (hit, less) (same_key_update j s i.priority ∙ a.0, a.1)
    | inr more ↦ rw (hit, more) a
  ]
  | inr miss ↦ rw miss (a.0, absorb-apart i j out h a.1)
]

absorb-NoRepeats : (i : QueueItem) (out : List QueueItem) → NoRepeats out → NoRepeats (absorb i out)
unfolding absorb
absorb-NoRepeats i [] n = (tt, tt)
absorb-NoRepeats i (s ∷ out) n = elim (Bool-cases (same_key i s)) [
  | inl hit ↦ elim (Bool-cases (ltb_ℤ i.priority s.priority)) [
    | inl less ↦ rw (hit, less) (unfold same_key in n)
    | inr more ↦ rw (hit, more) n
  ]
  | inr miss ↦
      rw miss (absorb-apart i s out (same_key-sym s i ∙ miss) n.0, absorb-NoRepeats i out n.1)
]

dedupe_from-NoRepeats :
    (out items : List QueueItem) → NoRepeats out → NoRepeats (dedupe_from out items)
unfolding dedupe_from
dedupe_from-NoRepeats out [] n = n
dedupe_from-NoRepeats out (i ∷ is) n = elim (Bool-cases (str_eq i.match_id "")) [
  | inl blank ↦ rw blank (dedupe_from-NoRepeats out is n)
  | inr named ↦ rw named (dedupe_from-NoRepeats (absorb i out) is (absorb-NoRepeats i out n))
]

-- So one statement never inserts a key twice.
pub dedupe-NoRepeats : (items : List QueueItem) → NoRepeats (dedupe_queue_items items)
unfolding dedupe_queue_items
dedupe-NoRepeats items = dedupe_from-NoRepeats [] items tt
