-- ===== src/Kernel/Coverage/Laws.antt =====
-- The loop of `_union_covers` ends, and decides whether every day of the target lies in some interval.
use Prim.Native.Nat.{zero}
use orgmetra.Kernel.Intervals.Laws.{contains_iff, EndsAfter, Covers}
use mathlib.Core.List.{Memᴰ}
use native.Mathlib.Decide.{dec_lt}
use orgmetra.Base.{
  ◌≢◌, ◌↔◌, Option-cases, inr, ap, true, false, inl, Bool-cases, suc, mem-cons_cases, [], ◌<◌, Bool,
  arith, length, none, some, if◌then◌else◌, ◌≤◌, ◌≡◌,
}
use orgmetra.Kernel.Coverage.{
  contains, before_end, ◌∷◌, Option, DateInterval, ℕ, List, covering_at, cover_from, union_covers,
}

pub covering_at-some :
    (intervals : List DateInterval) (cursor : ℕ) (i : DateInterval)
    → covering_at intervals cursor ≡ some i
    → Memᴰ i intervals × Covers i cursor
unfolding covering_at
covering_at-some [] cursor i h = cc
covering_at-some (j ∷ intervals) cursor i h = elim (Bool-cases (contains j cursor)) [
  | inl e ↦
      let same : i ≡ j = ground arith in (Memᴰ.head same, rw same ((contains_iff j cursor).0 e))
  | inr e ↦ let r = covering_at-some intervals cursor i (ground arith) in (Memᴰ.tail r.0, r.1)
]

covering_at-none :
    (intervals : List DateInterval) (cursor : ℕ)
    → covering_at intervals cursor ≡ none
    → (i : DateInterval) → Memᴰ i intervals
    → ¬ Covers i cursor
unfolding covering_at
covering_at-none [] cursor h i m c = elim m [ ]
covering_at-none (j ∷ intervals) cursor h i m c = elim (Bool-cases (contains j cursor)) [
  | inl e ↦ ground arith
  | inr e ↦ elim (mem-cons_cases m) [
    | inl here ↦ ground (arith, (contains_iff j cursor).1 (rw here at c))
    | inr n ↦ covering_at-none intervals cursor (ground arith) i n c
  ]
]

-- The intervals that end after the cursor, which are those that a later round can still use.
ahead : List DateInterval → ℕ → ℕ
ahead [] cursor = 0
ahead (i ∷ intervals) cursor =
    if before_end cursor i.end then suc (ahead intervals cursor) else ahead intervals cursor

ahead-le_length :
    (intervals : List DateInterval) (cursor : ℕ) → ahead intervals cursor ≤ length intervals
unfolding ahead
ahead-le_length [] cursor = omega arith
ahead-le_length (i ∷ intervals) cursor = ground (arith, ahead-le_length intervals cursor)

ahead_mono :
    (intervals : List DateInterval) (a b : ℕ) → a ≤ b → ahead intervals b ≤ ahead intervals a
unfolding ahead
ahead_mono [] a b h = omega arith
ahead_mono (i ∷ intervals) a b h = ground (arith, ahead_mono intervals a b h)

ahead_falls :
    (intervals : List DateInterval) (a b : ℕ) (i : DateInterval)
    → Memᴰ i intervals
    → i.end ≡ some b
    → a < b
    → ahead intervals b < ahead intervals a
unfolding ahead
ahead_falls [] a b i m e h = elim m [ ]
ahead_falls (j ∷ intervals) a b i m e h = elim (mem-cons_cases m) [
  | inl here ↦ ground (arith, ahead_mono intervals a b, ap (λ (z : DateInterval). z.end) here)
  | inr n ↦ ground (arith, ahead_falls intervals a b i n e h)
]

past :
    (cursor day : ℕ) (e : Option ℕ)
    → cursor ≤ day
    → before_end cursor e ≡ false
    → EndsAfter day e
    → ⊥
past cursor day none le d a = cc
past cursor day (some e) le d a = ground arith

EndsAfter-of_before : (day : ℕ) (e : Option ℕ) → before_end day e ≡ true → EndsAfter day e
EndsAfter-of_before day none h = tt
EndsAfter-of_before day (some e) h = ground arith

EndsAfter-none : (day : ℕ) (e : Option ℕ) → e ≡ none → EndsAfter day e
EndsAfter-none day none h = tt
EndsAfter-none day (some e) h = cc

EndsAfter-some : (day : ℕ) (e : Option ℕ) (next : ℕ) → e ≡ some next → EndsAfter day e → day < next
EndsAfter-some day none next h a = cc
EndsAfter-some day (some e) next h a = ground arith

EndsAfter-before :
    (day : ℕ) (e : Option ℕ) (next : ℕ) → e ≡ some next → day < next → EndsAfter day e
EndsAfter-before day none next h a = tt
EndsAfter-before day (some e) next h a = ground arith

-- What an answer of the loop says of the days from the cursor on.
abbrev Answers : List DateInterval → ℕ → Option ℕ → Bool → Type 0
Answers intervals cursor end true =
    (day : ℕ)
    → cursor ≤ day
    → EndsAfter day end
    → (i : DateInterval) × Memᴰ i intervals × Covers i day
Answers intervals cursor end false =
    (day : ℕ) × (cursor ≤ day)
    × EndsAfter day end
    × ((i : DateInterval) → Memᴰ i intervals → ¬ Covers i day)

-- An answer from the end of the covering interval is one from the cursor.
extend :
    {intervals : List DateInterval} (cursor : ℕ) (end : Option ℕ) (i : DateInterval)
    → Memᴰ i intervals
    → Covers i cursor
    → (next : ℕ) → i.end ≡ some next
    → cursor < next
    → (b : Bool) → Answers intervals next end b
    → Answers intervals cursor end b
extend cursor end i m held next e later true answers = λ day le after. elim (dec_lt day next) [
  | yes early ↦ (i, m, (omega (arith, held.0), EndsAfter-before day i.end next e early))
  | no late ↦ answers day (omega arith) after
]
extend cursor end i m held next e later false (day, le, after, missed) =
    (day, omega arith, after, missed)

-- With more fuel than intervals ahead the loop returns, and its answer is right.
cover_from_lem :
    (fuel : ℕ) (intervals : List DateInterval) (cursor : ℕ) (end : Option ℕ)
    → ahead intervals cursor < fuel
    → (b : Bool) × (cover_from fuel intervals cursor end ≡ some b) × Answers intervals cursor end b
unfolding cover_from
cover_from_lem zero intervals cursor end h = elim h [ ]
cover_from_lem (suc fuel) intervals cursor end h = elim (Bool-cases (before_end cursor end)) [
  | inr done ↦ (true, ground arith, λ day le after. absurd (past cursor day end le done after))
  | inl more ↦ elim (Option-cases (covering_at intervals cursor)) [
    | inl gap ↦ (
      false,
      ground arith,
      (
        cursor,
        omega arith,
        EndsAfter-of_before cursor end more,
        covering_at-none intervals cursor gap,
      ),
    )
    | inr (i, found) ↦
        let (m, held) = covering_at-some intervals cursor i found in
        elim (Option-cases (i.end)) [
          | inl endless ↦ (
            true,
            ground arith,
            λ day le after. (i, m, (omega (arith, held.0), EndsAfter-none day i.end endless)),
          )
          | inr (next, e) ↦
              let later : cursor < next = EndsAfter-some cursor i.end next e held.1 in
              let (b, run, answers) =
                cover_from_lem fuel intervals next end
                  (omega (arith, ahead_falls intervals cursor next i m e later)) in
              (b, ground arith, extend cursor end i m held next e later b answers)
        ]
  ]
]

-- The loop of `_union_covers` ends on every input: one round more than the intervals is enough.
pub union_covers_terminates :
    (intervals : List DateInterval) (cursor : ℕ) (end : Option ℕ) (fuel : ℕ)
    → length intervals < fuel
    → cover_from fuel intervals cursor end ≢ none
union_covers_terminates intervals cursor end fuel h stuck =
    let (b, run, answers) =
      cover_from_lem fuel intervals cursor end (omega (arith, ahead-le_length intervals cursor)) in
    cc

-- The merged intervals cover the target exactly when each of its days lies in one of them.
pub union_covers_iff :
    (intervals : List DateInterval) (target : DateInterval)
    → (union_covers intervals target ≡ true)
      ↔ ((day : ℕ) → Covers target day → (i : DateInterval) × Memᴰ i intervals × Covers i day)
unfolding union_covers
union_covers_iff intervals target =
    let (b, run, answers) =
      cover_from_lem (suc (length intervals)) intervals target.start target.end
        (omega (arith, ahead-le_length intervals target.start)) in
    decided b run answers
  where
    decided :
        (b : Bool)
        → cover_from (suc (length intervals)) intervals target.start target.end ≡ some b
        → Answers intervals target.start target.end b
        → (union_covers intervals target ≡ true)
          ↔ ((day : ℕ) → Covers target day → (i : DateInterval) × Memᴰ i intervals × Covers i day)
    decided true run answers = (λ h day c. answers day c.0 c.1, λ h. ground arith)
    decided false run (day, le, after, missed) = (
      λ h. absurd (ground arith),
      λ h. let (i, m, c) = h day (le, after) in absurd (missed i m c),
    )
