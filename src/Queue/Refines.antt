-- ===== src/Queue/Refines.antt =====
-- The heaps of service/queue.go as they are stored do what the heaps of the model do.
use minijob.Prelude.{
  ℕ, zero, suc, ◌+◌, ◌≤◌, Bool, true, ◌≡◌, refl, sym, ap, ◌∙◌, inl, inr, Option-cases, some, List,
  [], ◌∷◌, ◌++◌, get_last?, one_if, nat_eq_iff, string_Eq, arith,
}
use mathlib.Core.Path.{subst}
use minijob.Prelude.Arrays.{
  get_elem?, drop_last, count_by, count_by-append, count_by-drop_last, count_by-get_elem?,
  count_by-found, get_last?-get_elem?,
}
use minijob.Queue.{
  QueueEntry, less, JobHeap, heap_push, heap_remove, pop_up_to, push_all, first_of_heap,
}
use minijob.Queue.Order.{
  IsOrdered, count_job, heap_push-IsOrdered, heap_remove-IsOrdered, count_job-heap_push,
  count_job-heap_remove,
}
use minijob.Queue.First.{pop_up_to-append, first_of_heap_lem}
use minijob.Queue.Array.{
  empty_heap, ArrayHeap, push, pop, swaps, Container, IsContainer, push_entry, pop_entry,
  remove_entry, pop_entries, push_entries, first_entries,
}
use minijob.Queue.Positions.{
  HasPositions, SameEntries, of_job, count_by-count_job, swaps-HasPositions, swaps-SameEntries,
  push-HasPositions, drop_last-HasPositions,
}
use minijob.Queue.Entries.{
  same_entry, same_entry_self, count_by-heap_push, empty, count_job-append, count_by-empty, besides,
  count_by-heap_remove, count_by-besides, least-first,
}

pop-some :
    (h : ArrayHeap) (e : QueueEntry)
    → get_last? h.entries ≡ some e
    → pop h ≡ some (e, record h { entries = drop_last h.entries })
unfolding pop
pop-some h e q = ground (arith, q)

module _ (c : Container) (Valid : List QueueEntry → Type 0) (g : IsContainer c Valid) where
  -- The slice holds the entries of a heap of the model.
  pub record Represents (a : JobHeap) (h : ArrayHeap) : Type 0 where
    pub positions : HasPositions h
    pub valid : Valid h.entries
    pub ordered : IsOrdered a
    pub once : (k : ℕ) → count_job k a ≤ 1
    pub same : SameEntries h.entries a

  pub push_entry-Represents :
      (e : QueueEntry) (a : JobHeap) (h : ArrayHeap)
      → count_job e.job a ≡ 0
      → Represents a h
      → Represents (heap_push e a) (push_entry c e h)
  unfolding push_entry
  push_entry-Represents e a h new r =
      let s = c.push_swaps (push e h).entries in
      record {
        positions = swaps-HasPositions s (push e h) (
            push-HasPositions e h (r.same (of_job e.job) ∙ count_by-count_job e.job a ∙ new)
              r.positions);
        valid = g.push_valid e h r.valid;
        ordered = heap_push-IsOrdered e a new r.ordered;
        once = λ k. ground (arith, r.once k, new, count_job-heap_push k e a, nat_eq_iff e.job k);
        same = λ p. swaps-SameEntries s (push e h) p ∙ pushed p;
      }
    where
      pushed : (p : QueueEntry → Bool) → count_by p (push e h).entries ≡ count_by p (heap_push e a)
      pushed p = omega (arith, count_by-append p h.entries e, r.same p, count_by-heap_push p e a)

  -- What is left of a slice whose last entry is taken.
  taken :
      (s : List (ℕ × ℕ)) (a : JobHeap) (h : ArrayHeap) (e : QueueEntry)
      → Represents a h
      → get_last? (swaps s h).entries ≡ some e
      → (p : QueueEntry → Bool)
      → count_by p (drop_last (swaps s h).entries) + one_if (p e) ≡ count_by p a
  taken s a h e r last p =
      count_by-drop_last p (swaps s h).entries e last ∙ swaps-SameEntries s h p ∙ r.same p

  left-HasPositions :
      (s : List (ℕ × ℕ)) (h : ArrayHeap)
      → HasPositions h
      → HasPositions (record (swaps s h) { entries = drop_last (swaps s h).entries })
  left-HasPositions s h p = drop_last-HasPositions (swaps s h) (swaps-HasPositions s h p)

  -- An index of the entry of a job of the heap.
  index_of :
      (id : ℕ) (a : JobHeap) (h : ArrayHeap)
      → count_job id a ≡ 1
      → Represents a h
      → (e : QueueEntry) × (e.job ≡ id) × (get_elem? h.entries (h.pos id) ≡ some e)
  index_of id a h one r =
      let n = r.same (of_job id) ∙ count_by-count_job id a ∙ one in
      let (i, e, at, is) = count_by-found (of_job id) h.entries (omega (arith, n)) in
      let job = (nat_eq_iff e.job id).0 is in
      (e, job, ap (get_elem? h.entries) (ap h.pos (sym job) ∙ r.positions i e at) ∙ at)

  pub remove_entry-Represents :
      (id : ℕ) (a : JobHeap) (h : ArrayHeap)
      → count_job id a ≡ 1
      → Represents a h
      → (e : QueueEntry) × (h' : ArrayHeap) × (remove_entry c id h ≡ some (e, h'))
        × (e.job ≡ id)
        × Represents (heap_remove id a) h'
  unfolding remove_entry pop
  remove_entry-Represents id a h one r =
      let (e, job, at) = index_of id a h one r in
      let s = c.remove_swaps (h.pos id) h.entries in
      let last = g.remove_found (h.pos id) h e r.valid at in
      (
        e,
        record (swaps s h) { entries = drop_last (swaps s h).entries },
        pop-some (swaps s h) e last,
        job,
        record {
          positions = left-HasPositions s h r.positions;
          valid = g.remove_valid (h.pos id) h r.valid;
          ordered = heap_remove-IsOrdered id a r.ordered;
          once = λ k. ground (arith, r.once k, count_job-heap_remove k id a);
          same = λ p.
              let rest = drop_last (swaps s h).entries in
              let gone : count_by (of_job id) rest ≡ 0 = ground (
                arith,
                taken s a h e r last (of_job id),
                count_by-count_job id a,
                one,
                job,
                nat_eq_iff e.job id,
              ) in
              ground (
                arith,
                taken s a h e r last (besides p id),
                count_by-heap_remove p id a,
                count_by-besides p id rest gone,
                job,
                nat_eq_iff e.job id,
              );
        },
      )

  -- Pop hands out the first entry of the heap of the model.
  pop_entry-Represents :
      (x : QueueEntry) (a : JobHeap) (h : ArrayHeap)
      → Represents (x ∷ a) h
      → (h' : ArrayHeap) × (pop_entry c h ≡ some (x, h')) × Represents a h'
  unfolding pop_entry pop
  pop_entry-Represents x a h r =
      let s = c.pop_swaps h.entries in
      let rest = drop_last (swaps s h).entries in
      elim (Option-cases (get_last? (swaps s h).entries)) [
        | inl q ↦ absurd (
            omega (
              arith,
              count_by-empty (λ y. true) (swaps s h).entries q,
              swaps-SameEntries s h (λ y. true),
              r.same (λ y. true),
            ))
        | inr (e, q) ↦
            let (i, at) = get_last?-get_elem? (swaps s h).entries e q in
            let there : 1 ≤ count_by (same_entry e) (x ∷ a) = omega (
              arith,
              count_by-get_elem? (same_entry e) (swaps s h).entries i e at,
              ap one_if (same_entry_self e),
              swaps-SameEntries s h (same_entry e),
              r.same (same_entry e),
            ) in
            let least = sym (r.same (λ y. less y e)) ∙ g.pop_least h e r.valid q in
            let is = least-first x e a r.ordered there least in
            (
              record (swaps s h) { entries = rest },
              pop-some (swaps s h) e q
                  ∙ ap (λ y. some (y, record (swaps s h) { entries = rest })) (sym is),
              record {
                positions = left-HasPositions s h r.positions;
                valid = g.pop_valid h r.valid;
                ordered = r.ordered.1;
                once = λ k. omega (arith, r.once k);
                same = λ p. omega (arith, taken s (x ∷ a) h e r q p, ap (λ y. one_if (p y)) is);
              },
            )
      ]

  pop_entries-Represents :
      (n : ℕ) (a : JobHeap) (h : ArrayHeap)
      → Represents a h
      → (h' : ArrayHeap) × (pop_entries c n h ≡ some ((pop_up_to n a).0, h'))
        × Represents (pop_up_to n a).1 h'
  unfolding pop_entries pop_up_to
  pop_entries-Represents zero a h r = (h, refl, r)
  pop_entries-Represents (suc n) [] h r =
      (h, ground (arith, empty h.entries (r.same (λ y. true))), r)
  pop_entries-Represents (suc n) (x ∷ a) h r =
      let (h', popped, r') = pop_entry-Represents x a h r in
      let (h'', rest, r'') = pop_entries-Represents n a h' r' in
      (h'', ground (arith, popped, rest, r.same (λ y. true)), r'')

  push_entries-Represents :
      (es : List QueueEntry) (b : JobHeap) (h : ArrayHeap)
      → ((k : ℕ) → count_job k (es ++ b) ≤ 1)
      → Represents b h
      → Represents (push_all es b) (push_entries c es h)
  unfolding push_entries push_all
  push_entries-Represents [] b h once r = r
  push_entries-Represents (e ∷ es) b h once r =
      push_entries-Represents es (heap_push e b) (push_entry c e h)
        (λ k. omega (
          arith,
          once k,
          count_job-append k es b,
          count_job-append k es (heap_push e b),
          count_job-heap_push k e b,
        ))
        (push_entry-Represents e b h
          (ground (arith, once e.job, count_job-append e.job es b, nat_eq_iff e.job e.job)) r)

  pub first_entries-Represents :
      (n : ℕ) (a : JobHeap) (h : ArrayHeap)
      → Represents a h
      → (h' : ArrayHeap) × (first_entries c n h ≡ some ((first_of_heap n a).0, h'))
        × Represents a h'
  unfolding first_entries first_of_heap
  first_entries-Represents n a h r =
      let (h', popped, r') = pop_entries-Represents n a h r in
      let es = (pop_up_to n a).0 in
      let once : (k : ℕ) → count_job k (es ++ (pop_up_to n a).1) ≤ 1 =
        λ k. rw (pop_up_to-append n a) (r.once k) in
      let whole : push_all es (pop_up_to n a).1 ≡ a =
        ap (λ (x : List ℕ × JobHeap). x.1) (first_of_heap_lem n a r.ordered) in
      (
        push_entries c es h',
        ground (arith, popped),
        subst (λ b. Represents b (push_entries c es h')) whole
            (push_entries-Represents es (pop_up_to n a).1 h' once r'),
      )

  pub empty-Represents : Represents [] empty_heap
  empty-Represents = record {
    positions = λ i e q. cc;
    valid = g.empty_valid;
    ordered = tt;
    once = λ k. omega arith;
    same = λ p. refl;
  }
