-- ===== src/Async/Queue/Oldest.antt =====
-- What `find_oldest_with_priority` of src/asyncx.cpp finds, and what an erasure leaves.
use toolx_cpp.Prelude.{
  ℕ, zero, suc, ◌+◌, ◌≤◌, ◌<◌, ◌≡◌, refl, arith, Bool, true, false, ◌&&◌, List, [], ◌∷◌, ◌++◌,
  Option, none, some, Bool-cases, inl, inr, ◌⊎◌, ltb, ◌==◌, if◌then◌else◌, get_elem?,
}
use toolx_cpp.Async.Types.{TaskPriority, same_priority}
use toolx_cpp.Async.Queue.{QueuedTask, Place, erase_at, is_older, oldest_loop, oldest}

-- How many entries pass a test.
unfoldable pub tally : (QueuedTask → Bool) → List QueuedTask → ℕ
tally f [] = 0
tally f (e ∷ q) = if f e then suc (tally f q) else tally f q

pub tally-append :
    (f : QueuedTask → Bool) (q r : List QueuedTask) → tally f (q ++ r) ≡ tally f q + tally f r
unfolding tally
tally-append f [] r = omega arith
tally-append f (e ∷ q) r = ground (arith, tally-append f q r)

pub tally-erase_at :
    (f : QueuedTask → Bool) (q : List QueuedTask) (i : ℕ) (e : QueuedTask)
    → get_elem? q i ≡ some e
    → tally f (erase_at i q) + tally f (e ∷ []) ≡ tally f q
unfolding tally erase_at
tally-erase_at f [] i e h = ground arith
tally-erase_at f (d ∷ q) zero e h = ground arith
tally-erase_at f (d ∷ q) (suc i) e h = ground (arith, tally-erase_at f q i e h)

abbrev pub Stands : List QueuedTask → Place → Type 0
Stands q b = get_elem? q b.position ≡ some b.entry

abbrev pub IsPlaceOf : TaskPriority → List QueuedTask → Option Place → Type 0
IsPlaceOf p q none = Unit {0}
IsPlaceOf p q (some b) = Stands q b × (same_priority b.entry.priority p ≡ true)

IsPlaceOf-if :
    (p : TaskPriority) (q : List QueuedTask) (b : Bool) (c d : Option Place)
    → (b ≡ true → IsPlaceOf p q c)
    → IsPlaceOf p q d
    → IsPlaceOf p q (if b then c else d)
IsPlaceOf-if p q true c d h k = h refl
IsPlaceOf-if p q false c d h k = k

and-left : (a b : Bool) → (a && b) ≡ true → a ≡ true
and-left true b h = refl
and-left false b h = absurd (cc h)

oldest_loop-IsPlaceOf :
    (p : TaskPriority) (all : List QueuedTask) (i : ℕ) (chosen : Option Place) (q : List QueuedTask)
    → ((j : ℕ) (e : QueuedTask) → get_elem? q j ≡ some e → get_elem? all (i + j) ≡ some e)
    → IsPlaceOf p all chosen
    → IsPlaceOf p all (oldest_loop p i chosen q)
unfolding oldest_loop
oldest_loop-IsPlaceOf p all i chosen [] sub h = h
oldest_loop-IsPlaceOf p all i chosen (e ∷ q) sub h =
    oldest_loop-IsPlaceOf p all (suc i) _ q
      (λ j f k. let same : suc i + j ≡ i + suc j = omega arith in rw same (sub (suc j) f k))
      (IsPlaceOf-if p all (same_priority e.priority p && is_older e chosen)
        (some (record { position = i; entry = e })) chosen
        (λ t. (
          let same : i + 0 ≡ i = omega arith in rw same at (sub 0 e refl),
          and-left (same_priority e.priority p) (is_older e chosen) t,
        ))
        h)

-- An entry with this priority and this number.
abbrev pub is_entry : TaskPriority → ℕ → QueuedTask → Bool
is_entry p s e = same_priority e.priority p && (e.sequence == s)

-- An entry with this priority and a smaller number.
abbrev pub is_before : TaskPriority → ℕ → QueuedTask → Bool
is_before p s e = same_priority e.priority p && ltb e.sequence s

abbrev pub AtMost : ℕ → Option Place → Type 0
AtMost s none = ⊥
AtMost s (some b) = b.entry.sequence ≤ s

oldest_loop-AtMost :
    (p : TaskPriority) (s i : ℕ) (chosen : Option Place) (q : List QueuedTask)
    → (0 < tally (is_entry p s) q) ⊎ AtMost s chosen
    → AtMost s (oldest_loop p i chosen q)
unfolding oldest_loop tally
oldest_loop-AtMost p s i chosen [] (inl h) = absurd (omega arith)
oldest_loop-AtMost p s i chosen [] (inr h) = h
oldest_loop-AtMost p s i chosen (e ∷ q) h =
    oldest_loop-AtMost p s (suc i) _ q (step (same_priority e.priority p) chosen h)
  where
    step :
        (same : Bool) (c : Option Place)
        → (0 < (
            if same && (e.sequence == s)
            then suc (tally (is_entry p s) q)
            else tally (is_entry p s) q))
          ⊎ AtMost s c
        → (0 < tally (is_entry p s) q)
          ⊎ AtMost s (if same && is_older e c then some (record { position = i; entry = e }) else c)
    step false c h = h
    step true none (inl h) = elim (Bool-cases (e.sequence == s)) [
      | inl hit ↦ inr (ground arith)
      | inr miss ↦ inl (ground arith)
    ]
    step true none (inr h) = absurd h
    step true (some b) (inl h) = elim (Bool-cases (e.sequence == s)) [
      | inr miss ↦ inl (ground arith)
      | inl hit ↦ inr (ground arith)
    ]
    step true (some b) (inr h) = inr (ground arith)

-- Where an entry with the priority waits, one is found that is no younger.
pub oldest-AtMost :
    (p : TaskPriority) (s : ℕ) (q : List QueuedTask)
    → 0 < tally (is_entry p s) q
    → AtMost s (oldest p q)
unfolding oldest
oldest-AtMost p s q h = oldest_loop-AtMost p s 0 none q (inl h)

-- It stands in the queue and has the priority.
pub oldest-IsPlaceOf : (p : TaskPriority) (q : List QueuedTask) → IsPlaceOf p q (oldest p q)
unfolding oldest
oldest-IsPlaceOf p q =
    oldest_loop-IsPlaceOf p q 0 none q (λ j e h. let same : 0 + j ≡ j = omega arith in rw same h) tt
