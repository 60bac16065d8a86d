-- ===== src/ProcessPool/Turns.antt =====
-- ss/ww/process_pool.hpp: which child the parent tells of a connection.
use twebs.Prelude.{
  ℕ, zero, suc, ◌+◌, ◌-◌, ◌%◌, ◌≤◌, ◌<◌, ◌≡◌, ◌≢◌, true, false, Option, none, some, List, [], ◌∷◌,
  ◌++◌, length, ◌==◌, arith, ◌∙◌, ap, sym, inl, inr, Bool-cases, ltb,
}
use native.Mathlib.Nat.{mod-eq_of_lt, mod-add-mod, mod-eq-sub-mod}
use twebs.Outcome.{done}
use twebs.ProcessPool.{
  Parent, process_number, pid_at, find_child, notify, process_new_conn_in_parent,
}

-- The child that is `j` behind `i`, in the round of `n` children.
abbrev pub behind : ℕ → ℕ → ℕ → ℕ
behind n i j = (i + j) % n

behind-suc : (n i j : ℕ) → (behind n i j + 1) % n ≡ behind n i (suc j)
behind-suc n i j = mod-add-mod (i + j) n 1 ∙ ap (λ k. k % n) (omega arith)

pub behind-zero : (n i : ℕ) → i < n → behind n i 0 ≡ i
behind-zero n i l = ap (λ k. k % n) (omega arith) ∙ mod-eq_of_lt l

-- No child but the last is reached again within a round.
behind-ne : (n i j : ℕ) → i < n → 0 < j → j < n → behind n i j ≢ i
behind-ne n i j l p q e = elim (Bool-cases (ltb (i + j) n)) [
  | inl y ↦ let h : i + j < n = ground arith in let m = mod-eq_of_lt h in ground arith
  | inr z ↦
      let h : n ≤ i + j = ground arith in
      let h' : i + j - n < n = ground arith in
      let m = mod-eq-sub-mod h in let m' = mod-eq_of_lt h' in ground arith
]

behind-full : (n i : ℕ) → i < n → behind n i n ≡ i
behind-full n i l =
    let h : n ≤ i + n = omega arith in
    mod-eq-sub-mod h ∙ ap (λ k. k % n) (omega arith) ∙ mod-eq_of_lt l

module _ (pids : List (Option ℕ)) (i : ℕ) (l : i < length pids) where
  -- The children behind `i`, up to the `k`th, are gone.
  abbrev pub AreGone : ℕ → Type 0
  AreGone k = (j : ℕ) → j < k → pid_at (behind (length pids) i j) pids ≡ none

  find_child-live :
      (k f j d pid : ℕ)
      → j + d ≡ k
      → k < length pids
      → d < f
      → AreGone k
      → pid_at (behind (length pids) i k) pids ≡ some pid
      → find_child f pids i (behind (length pids) i j) ≡ done (behind (length pids) i k)
  unfolding find_child
  find_child-live k zero j d pid s m h g e = absurd (omega arith)
  find_child-live k (suc f) j zero pid s m h g e =
      let same : j ≡ k = omega arith in
      let here : pid_at (behind (length pids) i j) pids ≡ some pid = rw same e in
      rw (find_child, here) (ap (λ x. done (behind (length pids) i x)) same)
  find_child-live k (suc f) j (suc d) pid s m h g e =
      let gone = g j (omega arith) in
      let next = behind-suc (length pids) i j in
      let other : ((behind (length pids) i j + 1) % length pids == i) ≡ false =
        let ne = behind-ne (length pids) i (suc j) l (omega arith) (omega arith) in ground arith in
      rw (find_child, gone, other)
        (ap (find_child f pids i) next
          ∙ find_child-live k f (suc j) d pid (omega arith) m (omega arith) g e)

  find_child-gone :
      (f j d : ℕ)
      → j + suc d ≡ length pids
      → d < f
      → AreGone (length pids)
      → find_child f pids i (behind (length pids) i j) ≡ done i
  unfolding find_child
  find_child-gone zero j d s h g = absurd (omega arith)
  find_child-gone (suc f) j zero s h g =
      let gone = g j (omega arith) in
      let n : suc j ≡ length pids = omega arith in
      let next : (behind (length pids) i j + 1) % length pids ≡ i =
        behind-suc (length pids) i j
        ∙ ap (behind (length pids) i) n
        ∙ behind-full (length pids) i l in
      let back : ((behind (length pids) i j + 1) % length pids == i) ≡ true = ground arith in
      rw (find_child, gone, back) (ap done next)
  find_child-gone (suc f) j (suc d) s h g =
      let gone = g j (omega arith) in
      let next = behind-suc (length pids) i j in
      let other : ((behind (length pids) i j + 1) % length pids == i) ≡ false =
        let ne = behind-ne (length pids) i (suc j) l (omega arith) (omega arith) in ground arith in
      rw (find_child, gone, other)
        (ap (find_child f pids i) next ∙ find_child-gone f (suc j) d (omega arith) (omega arith) g)

-- The parent tells the first child that is not gone, looking from the one that is next in turn and
-- once round; the child behind that one is next in turn then.
pub process_new_conn_in_parent-live :
    (p : Parent) (k pid : ℕ)
    → let n = process_number p in
      let i = p.sub_process_counter in
      i < n
      → k < n
      → ((j : ℕ) → j < k → pid_at (behind n i j) p.sub_process ≡ none)
      → pid_at (behind n i k) p.sub_process ≡ some pid
      → process_new_conn_in_parent p
        ≡ done (record p {
          sub_process_counter = behind n i (suc k);
          notified = p.notified ++ behind n i k ∷ [];
        })
unfolding process_new_conn_in_parent
process_new_conn_in_parent-live p k pid l m g e =
    let n = process_number p in
    let i = p.sub_process_counter in
    let found : find_child n p.sub_process i i ≡ done (behind n i k) =
      ap (find_child n p.sub_process i) (sym (behind-zero n i l))
      ∙ find_child-live p.sub_process i l k n 0 k pid (omega arith) m m g e in
    rw (process_new_conn_in_parent, found, notify, e)
      (ap
        (λ x.
          done (record p { sub_process_counter = x; notified = p.notified ++ behind n i k ∷ [] }))
        (behind-suc n i k))

-- Where all the children are gone, the parent tells none and stops.
pub process_new_conn_in_parent-gone :
    (p : Parent)
    → let n = process_number p in
      let i = p.sub_process_counter in
      i < n
      → ((j : ℕ) → j < n → pid_at (behind n i j) p.sub_process ≡ none)
      → process_new_conn_in_parent p ≡ done (record p { stop = true })
unfolding process_new_conn_in_parent
process_new_conn_in_parent-gone p l g =
    let n = process_number p in
    let i = p.sub_process_counter in
    let d : 0 + suc (n - 1) ≡ n = omega arith in
    let d' : n - 1 < n = omega arith in
    let found : find_child n p.sub_process i i ≡ done i =
      ap (find_child n p.sub_process i) (sym (behind-zero n i l))
      ∙ find_child-gone p.sub_process i l n 0 (n - 1) d d' g in
    let here : pid_at i p.sub_process ≡ none =
      ap (λ x. pid_at x p.sub_process) (sym (behind-zero n i l)) ∙ g 0 (omega arith) in
    rw (process_new_conn_in_parent, found, notify, here)
