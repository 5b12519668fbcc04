-- ===== src/Process/Laws/Top/Ranked.antt =====
-- The processes that the top list leaves out are ranked below those it has.
use elastic_agent_system_met.Base.{
  ℕ, zero, suc, ◌+◌, ◌≤◌, Bool, true, false, List, [], ◌∷◌, ◌≡◌, refl, sym, ap, ◌⊎◌, inl, inr, ltb,
  length, take, All, Bool-cases, arith, subst,
}
use elastic_agent_system_met.Base.Int.{pos}
use elastic_agent_system_met.Process.Types.{Deps}
use elastic_agent_system_met.Process.Top.{
  is_process_in_slice, more_cpu, more_memory, first, add_new, top_cpu, top_memory,
  include_top_processes,
}
use elastic_agent_system_met.Process.Laws.Top.{
  Proc, In, Distinct, Ordered, IsOrder, SortLaws, In-first, length-first, In-add_new,
  length-add_new, Distinct-add_new, Distinct-first, is_process_in_slice-add_new,
  is_process_in_slice_self, is_process_in_slice-added,
}

module _ (d : Deps) where
  -- `n` processes of the list whose ids `result` has, none of them below `p`.
  pub record Above (less : Proc d → Proc d → Bool) (n : ℕ) (result : List (Proc d)) (p : Proc d)
      : Type 0 where
    pub top : List (Proc d)
    pub count : length top ≡ n
    pub reported : All (λ q. is_process_in_slice d result q ≡ true) top
    pub not_below : All (λ q. less p q ≡ false) top

  -- Every process of the list is in `result` by its id, or `n` that are not below it are.
  abbrev pub Ranked : (Proc d → Proc d → Bool) → ℕ → List (Proc d) → List (Proc d) → Type 0
  Ranked less n ps result =
      (p : Proc d) → In d p ps → (is_process_in_slice d result p ≡ true) ⊎ Above less n result p

  -- What the top list of `n` processes by CPU and `m` by memory is.
  pub record IsTop (n m : ℕ) (ps result : List (Proc d)) : Type 0 where
    pub members : (p : Proc d) → In d p result → In d p ps
    pub distinct : Distinct d result
    pub bounded : length result ≤ n + m
    pub by_cpu : Ranked (more_cpu d) n ps result
    pub by_memory : Ranked (more_memory d) m ps result

  split-Ordered :
      (less : Proc d → Proc d → Bool) (n : ℕ) (ps : List (Proc d)) (p : Proc d)
      → Ordered d less ps
      → In d p ps
      → In d p (take n ps) ⊎ (All (λ q. less p q ≡ false) (take n ps) × (length (take n ps) ≡ n))
  split-Ordered less zero ps p o h = inr (tt, refl)
  split-Ordered less (suc n) [] p o h = absurd h
  split-Ordered less (suc n) (q ∷ ps) p o (inl e) = inl (inl e)
  split-Ordered less (suc n) (q ∷ ps) p (a, o) (inr h) = elim (split-Ordered less n ps p o h) [
    | inl x ↦ inl (inr x)
    | inr (b, l) ↦ inr ((at ps a h, b), ap suc l)
  ]
    where
      at : (rs : List (Proc d)) → All (λ r. less r q ≡ false) rs → In d p rs → less p q ≡ false
      at [] x k = absurd k
      at (r ∷ rs) (x, xs) (inl e) = subst (λ y. less y q ≡ false) (sym e) x
      at (r ∷ rs) (x, xs) (inr k) = at rs xs k

  All-reported :
      (result ps : List (Proc d))
      → ((p : Proc d) → In d p ps → is_process_in_slice d result p ≡ true)
      → All (λ q. is_process_in_slice d result q ≡ true) ps
  All-reported result [] h = tt
  All-reported result (p ∷ ps) h = (h p (inl refl), All-reported result ps (λ q k. h q (inr k)))

  In-take_length : (ps : List (Proc d)) (p : Proc d) → In d p ps → In d p (take (length ps) ps)
  In-take_length [] p h = h
  In-take_length (q ∷ ps) p (inl e) = inl e
  In-take_length (q ∷ ps) p (inr h) = inr (In-take_length ps p h)

  -- If a result has all of the first processes of the sorted list, the others are below them.
  Ranked-first :
      (less : Proc d → Proc d → Bool) (n : ℕ) (ps result : List (Proc d))
      → Ordered d less ps
      → ((p : Proc d) → In d p (first d n ps) → is_process_in_slice d result p ≡ true)
      → Ranked less n ps result
  unfolding first
  Ranked-first less n ps result o h p k = elim (Bool-cases (ltb (length ps) n)) [
    | inl short ↦ inl (h p (rw short (In-take_length ps p k)))
    | inr long ↦
        let in_result : (q : Proc d) → In d q (take n ps) → is_process_in_slice d result q ≡ true =
          λ q x. h q (rw long x) in
        elim (split-Ordered less n ps p o k) [
          | inl x ↦ inl (in_result p x)
          | inr (b, l) ↦ inr (record {
            top = take n ps;
            count = l;
            reported = All-reported result (take n ps) in_result;
            not_below = b;
          })
        ]
  ]

  module _ (sort_slice : (Proc d → Proc d → Bool) → List (Proc d) → List (Proc d))
      (s : SortLaws d sort_slice) where
    abbrev pub sorted_cpu : List (Proc d) → List (Proc d)
    sorted_cpu ps = sort_slice (more_cpu d) ps

    abbrev pub sorted_memory : List (Proc d) → List (Proc d)
    sorted_memory ps = sort_slice (more_memory d) (sorted_cpu ps)

    more_memory-IsOrder : (ps : List (Proc d)) → IsOrder d (more_memory d) ps
    unfolding more_memory
    more_memory-IsOrder ps = record {
      asymmetric = λ p q x y h. ground arith;
      negative = λ p q r x y z h k. ground arith;
    }

    module _ (n m : ℕ) (ps : List (Proc d)) where
      abbrev chosen : List (Proc d)
      chosen = first d (suc n) (sorted_cpu ps)

      abbrev result : List (Proc d)
      result = add_new d chosen (first d (suc m) (sorted_memory ps))

    of_cpu : (ps : List (Proc d)) (p : Proc d) → In d p (sorted_cpu ps) → In d p ps
    of_cpu ps p h = (s.same_elements (more_cpu d) ps p).0 h

    of_memory : (ps : List (Proc d)) (p : Proc d) → In d p (sorted_memory ps) → In d p ps
    of_memory ps p h = of_cpu ps p ((s.same_elements (more_memory d) (sorted_cpu ps) p).0 h)

    result-IsTop :
        (n m : ℕ) (ps : List (Proc d))
        → Distinct d ps
        → IsOrder d (more_cpu d) ps
        → IsTop (suc n) (suc m) ps (result n m ps)
    result-IsTop n m ps distinct order = record {
      members = λ p h.
          elim (In-add_new d (chosen n m ps) (first d (suc m) (sorted_memory ps)) p h) [
            | inl x ↦ of_cpu ps p (In-first d (suc n) (sorted_cpu ps) p x)
            | inr x ↦ of_memory ps p (In-first d (suc m) (sorted_memory ps) p x)
          ];
      distinct =
          Distinct-add_new d (chosen n m ps) (first d (suc m) (sorted_memory ps))
            (Distinct-first d (suc n) (sorted_cpu ps) (s.distinct (more_cpu d) ps distinct));
      bounded = omega (
        arith,
        length-add_new d (chosen n m ps) (first d (suc m) (sorted_memory ps)),
        length-first d (suc n) (sorted_cpu ps),
        length-first d (suc m) (sorted_memory ps),
      );
      by_cpu = λ p h.
          Ranked-first (more_cpu d) (suc n) (sorted_cpu ps) (result n m ps)
            (s.ordered (more_cpu d) ps order)
            (λ q x.
              is_process_in_slice-add_new d (chosen n m ps) (first d (suc m) (sorted_memory ps)) q
                (is_process_in_slice_self d q (chosen n m ps) x))
            p ((s.same_elements (more_cpu d) ps p).1 h);
      by_memory = λ p h.
          Ranked-first (more_memory d) (suc m) (sorted_memory ps) (result n m ps)
            (s.ordered (more_memory d) (sorted_cpu ps) (more_memory-IsOrder (sorted_cpu ps)))
            (λ q x.
              is_process_in_slice-added d (chosen n m ps) (first d (suc m) (sorted_memory ps)) q x)
            p
            ((s.same_elements (more_memory d) (sorted_cpu ps) p).1
              ((s.same_elements (more_cpu d) ps p).1 h));
    }

    include_top_processes-result :
        (n m : ℕ) (ps : List (Proc d))
        → include_top_processes d sort_slice
            (record { enabled = true; by_cpu = pos (suc n); by_memory = pos (suc m) })
            ps
          ≡ result n m ps
    unfolding include_top_processes top_memory top_cpu
    include_top_processes-result n m ps = ground arith

    -- With both limits set, the top list of processes with distinct ids is of the given processes,
    -- has no id twice and at most as many entries as the limits say together, and a process that it
    -- leaves out uses no more CPU than as many of its entries as the CPU limit says, and no more
    -- memory than as many as the memory limit says. The CPU shares have to be ordered by `<`.
    pub include_top_processes-IsTop :
        (n m : ℕ) (ps : List (Proc d))
        → Distinct d ps
        → IsOrder d (more_cpu d) ps
        → IsTop (suc n) (suc m) ps (
            include_top_processes d sort_slice
              (record { enabled = true; by_cpu = pos (suc n); by_memory = pos (suc m) })
              ps)
    include_top_processes-IsTop n m ps distinct order =
        subst (λ r. IsTop (suc n) (suc m) ps r) (sym (include_top_processes-result n m ps))
          (result-IsTop n m ps distinct order)
