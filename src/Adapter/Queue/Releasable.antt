-- ===== src/Adapter/Queue/Releasable.antt =====
-- Which events `publishQueuedBlockEvents` of pkg/adapter/adapter.go takes: those up to the last that
-- may be published.
use ev_abci.Prelude.{
  ==_iff, Bool, Bool-cases, List, [], arith, false, inl, inr, length, refl, suc, true, zero, ℕ,
  ◌==◌, ◌∷◌, ◌≡◌, ◌≢◌, ◌≤◌,
}
use ev_abci.Adapter.Queue.{StackedEvent, drop, released}

abbrev pub take {ℓ} : {A : Type ℓ} → ℕ → List A → List A
take zero xs = []
take (suc n) [] = []
take (suc n) (x ∷ xs) = x ∷ take n xs

-- No event may be published.
abbrev pub IsHeld : (StackedEvent → Bool) → List StackedEvent → Type 0
IsHeld test [] = Unit
IsHeld test (event ∷ events) = (test event ≡ false) × IsHeld test events

-- The last event may be published.
abbrev pub EndsReleased : (StackedEvent → Bool) → List StackedEvent → Type 0
EndsReleased test [] = Unit
EndsReleased test (event ∷ []) = test event ≡ true
EndsReleased test (event ∷ (next ∷ events)) = EndsReleased test (next ∷ events)

pub none_released :
    (test : StackedEvent → Bool) (queue : List StackedEvent)
    → released test queue ≡ 0
    → IsHeld test queue
unfolding released
none_released test [] h = tt
none_released test (e ∷ es) h = elim (Bool-cases (released test es == 0)) [
  | inl none_later ↦ elim (Bool-cases (test e)) [
    | inl hit ↦ absurd (omega (arith, rw (none_later, hit) at h))
    | inr miss ↦ (miss, none_released test es ((==_iff _ 0).0 none_later))
  ]
  | inr later ↦ absurd (omega (arith, rw later at h))
]

pub released-le :
    (test : StackedEvent → Bool) (queue : List StackedEvent) → released test queue ≤ length queue
unfolding released
released-le test [] = omega arith
released-le test (e ∷ es) = ground (arith, released-le test es)

ends_cons :
    (test : StackedEvent → Bool) (e : StackedEvent) (es : List StackedEvent) (n : ℕ)
    → n ≢ 0
    → n ≤ length es
    → EndsReleased test (take n es)
    → EndsReleased test (e ∷ take n es)
ends_cons test e es zero some_n short ends = absurd (some_n refl)
ends_cons test e [] (suc n) some_n short ends = absurd (omega arith)
ends_cons test e (x ∷ es) (suc n) some_n short ends = ends

pub released-split :
    (test : StackedEvent → Bool) (queue : List StackedEvent)
    → IsHeld test (drop (released test queue) queue)
      × EndsReleased test (take (released test queue) queue)
unfolding released
released-split test [] = (tt, tt)
released-split test (e ∷ es) = elim (Bool-cases (released test es == 0)) [
  | inl none_later ↦ elim (Bool-cases (test e)) [
    | inl hit ↦ rw (none_later, hit) (none_released test es ((==_iff _ 0).0 none_later), hit)
    | inr miss ↦
        rw (none_later, miss) ((miss, none_released test es ((==_iff _ 0).0 none_later)), tt)
  ]
  | inr later ↦
      let (held, ends) = released-split test es in
      rw later
        (held, ends_cons test e es (released test es) (ground arith) (released-le test es) ends)
]
