-- ===== src/Kernel/Script.antt =====
-- A kernel that can be run: each read meets the next event of a script, and each write the next
-- quota. It meets the promises that `IsReliable` records.
use twebs.Prelude.{
  ℕ, zero, suc, ◌+◌, ◌≤◌, ◌<◌, ◌≡◌, refl, Option, none, some, Bytes, List, [], ◌∷◌, ◌++◌, length,
  take, drop, min, arith, take-append-drop, append_assoc, length-take,
}
use twebs.Kernel.{Kernel, Ghost, IsReliable, eintr}

pub data Event : Type 0 where
  deliver : ℕ → Bytes → Event
  interrupt : Event

pub record Script : Type 0 where
  pub events : List Event
  pub quotas : List (Option ℕ)
  pub out : Bytes

-- What a read leaves of a delivery goes back in front.
requeue : Bytes → List Event → List Event
requeue [] es = es
requeue (b ∷ bs) es = deliver b bs ∷ es

next : ℕ → List Event → Option Bytes × List Event
unfolding requeue
next n [] = (some [], [])
next n (interrupt ∷ es) = (none, es)
next zero (deliver b bs ∷ es) = (some [], deliver b bs ∷ es)
next (suc n) (deliver b bs ∷ es) = (some (b ∷ take n bs), requeue (drop n bs) es)

accept : Bytes → List (Option ℕ) → Option ℕ × List (Option ℕ)
accept bs [] = (some (length bs), [])
accept bs (none ∷ qs) = (none, qs)
accept bs (some q ∷ qs) = (some (min (suc q) (length bs)), qs)

written : Option ℕ → Bytes → Bytes → Bytes
written none bs out = out
written (some n) bs out = out ++ take n bs

unfoldable pub script : Kernel Script
unfolding next accept written
script = record {
  read = λ n s. let (r, es) = next n s.events in (r, record s { events = es });
  write = λ bs s.
      let (r, qs) = accept bs s.quotas in (r, record s { quotas = qs; out = written r bs s.out });
  errno = λ s. eintr;
}

abbrev coming : List Event → Bytes
coming [] = []
coming (interrupt ∷ es) = coming es
coming (deliver b bs ∷ es) = (b ∷ bs) ++ coming es

abbrev interrupts : List Event → ℕ
interrupts [] = 0
interrupts (interrupt ∷ es) = suc (interrupts es)
interrupts (deliver b bs ∷ es) = interrupts es

abbrev refusals : List (Option ℕ) → ℕ
refusals [] = 0
refusals (none ∷ qs) = suc (refusals qs)
refusals (some q ∷ qs) = refusals qs

abbrev pub script_ghost : Ghost Script
script_ghost = record {
  pending = λ s. coming s.events;
  sent = λ s. s.out;
  patience = λ s. interrupts s.events + refusals s.quotas;
}

coming-requeue : (bs : Bytes) (es : List Event) → coming (requeue bs es) ≡ bs ++ coming es
unfolding requeue
coming-requeue [] es = refl
coming-requeue (b ∷ bs) es = refl

interrupts-requeue : (bs : Bytes) (es : List Event) → interrupts (requeue bs es) ≡ interrupts es
unfolding requeue
interrupts-requeue [] es = refl
interrupts-requeue (b ∷ bs) es = refl

next-some :
    (n : ℕ) (es : List Event) (bs : Bytes) (es' : List Event)
    → next n es ≡ (some bs, es')
    → (length bs ≤ n) × (coming es ≡ bs ++ coming es') × (interrupts es' ≤ interrupts es)
unfolding next
next-some n [] bs es' e = ground arith
next-some n (interrupt ∷ es) bs es' e = ground arith
next-some zero (deliver b cs ∷ es) bs es' e = ground arith
next-some (suc n) (deliver b cs ∷ es) bs es' e = ground (
  arith,
  coming-requeue (drop n cs) es,
  interrupts-requeue (drop n cs) es,
  length-take n cs,
  take-append-drop n cs,
  append_assoc (take n cs) (drop n cs) (coming es),
)

next_eof : (n : ℕ) (es es' : List Event) → 0 < n → next n es ≡ (some [], es') → coming es ≡ []
unfolding next
next_eof n [] es' h e = refl
next_eof n (interrupt ∷ es) es' h e = ground arith
next_eof zero (deliver b cs ∷ es) es' h e = absurd (omega arith)
next_eof (suc n) (deliver b cs ∷ es) es' h e = ground arith

next-none :
    (n : ℕ) (es es' : List Event)
    → next n es ≡ (none, es')
    → (coming es' ≡ coming es) × (interrupts es' < interrupts es)
unfolding next
next-none n [] es' e = ground arith
next-none n (interrupt ∷ es) es' e = ground arith
next-none zero (deliver b cs ∷ es) es' e = ground arith
next-none (suc n) (deliver b cs ∷ es) es' e = ground arith

accept-some :
    (bs : Bytes) (qs : List (Option ℕ)) (n : ℕ) (qs' : List (Option ℕ))
    → accept bs qs ≡ (some n, qs')
    → (n ≤ length bs) × (refusals qs' ≤ refusals qs) × (0 < length bs → 0 < n)
unfolding accept
accept-some bs [] n qs' e = ground arith
accept-some bs (none ∷ qs) n qs' e = ground arith
accept-some bs (some q ∷ qs) n qs' e = ground arith

accept-none :
    (bs : Bytes) (qs qs' : List (Option ℕ))
    → accept bs qs ≡ (none, qs')
    → refusals qs' < refusals qs
unfolding accept
accept-none bs [] qs' e = ground arith
accept-none bs (none ∷ qs) qs' e = ground arith
accept-none bs (some q ∷ qs) qs' e = ground arith

pub script-IsReliable : IsReliable script script_ghost
unfolding script written
script-IsReliable = record {
  read_some = λ n s bs s' e. ground (arith, next-some n s.events bs s'.events);
  read_eof = λ n s s' h e. ground (arith, next_eof n s.events s'.events);
  read_none = λ n s s' e. ground (arith, next-none n s.events s'.events);
  write_some = λ bs s n s' e. ground (arith, accept-some bs s.quotas n s'.quotas);
  write_pos = λ bs s n s' h e. ground (arith, accept-some bs s.quotas n s'.quotas);
  write_none = λ bs s s' e. ground (arith, accept-none bs s.quotas s'.quotas);
}
