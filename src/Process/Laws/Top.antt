-- ===== src/Process/Laws/Top.antt =====
-- Which processes `includeTopProcesses` reports.
pub mod Ranked
use elastic_agent_system_met.Base.{
  ℕ, zero, suc, ◌+◌, ◌≤◌, ◌<◌, Bool, true, false, not, ◌||◌, ◌&&◌, if◌then◌else◌, List, [], ◌∷◌,
  ◌++◌, ◌≡◌, refl, sym, ◌∙◌, ap, ◌≢◌, ◌⊎◌, inl, inr, ◌↔◌, ltb, length, take, length-append,
  length-take, All, All-append, Bool-cases, arith, subst,
}
use elastic_agent_system_met.Base.Int.{ℤ, pos, int_eq}
use elastic_agent_system_met.Process.Types.{Deps, ProcState}
use elastic_agent_system_met.Process.Top.{
  IncludeTopConfig, is_process_in_slice, more_cpu, more_memory, first, add_new, top_cpu, top_memory,
  include_top_processes,
}

module _ (d : Deps) where
  abbrev pub Proc : Type 0
  Proc = ProcState d

  abbrev pub In : Proc → List Proc → Type 0
  In p [] = ⊥
  In p (q ∷ qs) = (p ≡ q) ⊎ In p qs

  -- No two processes of the list have the same id.
  abbrev pub Distinct : List Proc → Type 0
  Distinct [] = Unit
  Distinct (p ∷ ps) = (is_process_in_slice d ps p ≡ false) × Distinct ps

  -- No process of the list is before an earlier one.
  abbrev pub Ordered : (Proc → Proc → Bool) → List Proc → Type 0
  Ordered less [] = Unit
  Ordered less (p ∷ ps) = All (λ q. less q p ≡ false) ps × Ordered less ps

  -- `less` is a strict weak order on the elements of the list.
  pub record IsOrder (less : Proc → Proc → Bool) (ps : List Proc) : Type 0 where
    pub asymmetric : (p q : Proc) → In p ps → In q ps → less p q ≡ true → less q p ≡ false
    pub negative :
        (p q r : Proc)
        → In p ps
        → In q ps
        → In r ps
        → less q p ≡ false
        → less r q ≡ false
        → less r p ≡ false

  -- The documentation of `sort.Slice`: it reorders the slice, and it sorts it if `less` is a strict
  -- weak order on its elements.
  pub record SortLaws (sort_slice : (Proc → Proc → Bool) → List Proc → List Proc) : Type 0 where
    pub same_length :
        (less : Proc → Proc → Bool) (ps : List Proc) → length (sort_slice less ps) ≡ length ps
    pub same_elements :
        (less : Proc → Proc → Bool) (ps : List Proc) (p : Proc)
        → In p (sort_slice less ps) ↔ In p ps
    pub distinct :
        (less : Proc → Proc → Bool) (ps : List Proc) → Distinct ps → Distinct (sort_slice less ps)
    pub ordered :
        (less : Proc → Proc → Bool) (ps : List Proc)
        → IsOrder less ps
        → Ordered less (sort_slice less ps)

  In-take : (n : ℕ) (ps : List Proc) (p : Proc) → In p (take n ps) → In p ps
  In-take zero ps p h = absurd h
  In-take (suc n) [] p h = absurd h
  In-take (suc n) (q ∷ ps) p (inl e) = inl e
  In-take (suc n) (q ∷ ps) p (inr h) = inr (In-take n ps p h)

  pub In-first : (n : ℕ) (ps : List Proc) (p : Proc) → In p (first d n ps) → In p ps
  unfolding first
  In-first n ps p h = elim (Bool-cases (ltb (length ps) n)) [
    | inl short ↦ In-take (length ps) ps p (rw short at h)
    | inr long ↦ In-take n ps p (rw long at h)
  ]

  pub length-first : (n : ℕ) (ps : List Proc) → length (first d n ps) ≤ n
  unfolding first
  length-first n ps = ground (arith, length-take n ps, length-take (length ps) ps)

  In-append : (ps qs : List Proc) (p : Proc) → In p (ps ++ qs) → In p ps ⊎ In p qs
  In-append [] qs p h = inr h
  In-append (q ∷ ps) qs p (inl e) = inl (inl e)
  In-append (q ∷ ps) qs p (inr h) = elim (In-append ps qs p h) [
    | inl x ↦ inl (inr x)
    | inr x ↦ inr x
  ]

  is_process_in_slice-append :
      (ps qs : List Proc) (p : Proc)
      → is_process_in_slice d (ps ++ qs) p
        ≡ (is_process_in_slice d ps p || is_process_in_slice d qs p)
  unfolding is_process_in_slice
  is_process_in_slice-append [] qs p = refl
  is_process_in_slice-append (q ∷ ps) qs p = ground (arith, is_process_in_slice-append ps qs p)

  pub In-add_new :
      (result procs : List Proc) (p : Proc)
      → In p (add_new d result procs)
      → In p result ⊎ In p procs
  unfolding add_new
  In-add_new result [] p h = inl h
  In-add_new result (q ∷ procs) p h = elim (Bool-cases (is_process_in_slice d result q)) [
    | inl seen ↦ elim (In-add_new result procs p (rw seen at h)) [
      | inl x ↦ inl x
      | inr x ↦ inr (inr x)
    ]
    | inr fresh ↦ elim (In-add_new (result ++ (q ∷ [])) procs p (rw fresh at h)) [
      | inl x ↦ elim (In-append result (q ∷ []) p x) [
        | inl y ↦ inl y
        | inr y ↦ elim y [ inl e ↦ inr (inl e) | inr n ↦ absurd n ]
      ]
      | inr x ↦ inr (inr x)
    ]
  ]

  pub length-add_new :
      (result procs : List Proc) → length (add_new d result procs) ≤ length result + length procs
  unfolding add_new
  length-add_new result [] = omega arith
  length-add_new result (q ∷ procs) = ground (
    arith,
    length-add_new result procs,
    length-add_new (result ++ (q ∷ [])) procs,
    length-append result (q ∷ []),
  )

  Distinct-append :
      (ps : List Proc) (q : Proc)
      → Distinct ps
      → is_process_in_slice d ps q ≡ false
      → Distinct (ps ++ (q ∷ []))
  unfolding is_process_in_slice
  Distinct-append [] q h k = (refl, tt)
  Distinct-append (p ∷ ps) q (h, t) k = (
    ground (
      arith,
      is_process_in_slice-append ps (q ∷ []) p,
      d.i.comparable.same_iff p.pid q.pid,
      d.i.comparable.same_iff q.pid p.pid,
    ),
    Distinct-append ps q t (ground arith),
  )

  pub Distinct-add_new :
      (result procs : List Proc) → Distinct result → Distinct (add_new d result procs)
  unfolding add_new
  Distinct-add_new result [] h = h
  Distinct-add_new result (q ∷ procs) h = elim (Bool-cases (is_process_in_slice d result q)) [
    | inl seen ↦ rw seen (Distinct-add_new result procs h)
    | inr fresh ↦
        rw fresh (Distinct-add_new (result ++ (q ∷ [])) procs (Distinct-append result q h fresh))
  ]

  is_process_in_slice-take :
      (n : ℕ) (ps : List Proc) (p : Proc)
      → is_process_in_slice d ps p ≡ false
      → is_process_in_slice d (take n ps) p ≡ false
  unfolding is_process_in_slice
  is_process_in_slice-take zero ps p h = refl
  is_process_in_slice-take (suc n) [] p h = refl
  is_process_in_slice-take (suc n) (q ∷ ps) p h =
      ground (arith, is_process_in_slice-take n ps p (ground arith))

  Distinct-take : (n : ℕ) (ps : List Proc) → Distinct ps → Distinct (take n ps)
  Distinct-take zero ps h = tt
  Distinct-take (suc n) [] h = tt
  Distinct-take (suc n) (p ∷ ps) (h, t) = (is_process_in_slice-take n ps p h, Distinct-take n ps t)

  pub Distinct-first : (n : ℕ) (ps : List Proc) → Distinct ps → Distinct (first d n ps)
  unfolding first
  Distinct-first n ps h = elim (Bool-cases (ltb (length ps) n)) [
    | inl short ↦ rw short (Distinct-take (length ps) ps h)
    | inr long ↦ rw long (Distinct-take n ps h)
  ]

  -- Membership by id grows with the list.
  pub is_process_in_slice-add_new :
      (result procs : List Proc) (p : Proc)
      → is_process_in_slice d result p ≡ true
      → is_process_in_slice d (add_new d result procs) p ≡ true
  unfolding add_new
  is_process_in_slice-add_new result [] p h = h
  is_process_in_slice-add_new result (q ∷ procs) p h =
      elim (Bool-cases (is_process_in_slice d result q)) [
        | inl seen ↦ rw seen (is_process_in_slice-add_new result procs p h)
        | inr fresh ↦ rw fresh (
            is_process_in_slice-add_new (result ++ (q ∷ [])) procs p
              (is_process_in_slice-append result (q ∷ []) p ∙ rw h))
      ]

  pub is_process_in_slice_self :
      (p : Proc) (ps : List Proc) → In p ps → is_process_in_slice d ps p ≡ true
  unfolding is_process_in_slice
  is_process_in_slice_self p [] h = absurd h
  is_process_in_slice_self p (q ∷ ps) (inl e) =
      ground (arith, (d.i.comparable.same_iff q.pid p.pid).1 (ap (λ x. x.pid) (sym e)))
  is_process_in_slice_self p (q ∷ ps) (inr h) = ground (arith, is_process_in_slice_self p ps h)

  -- All that were to be added are there.
  pub is_process_in_slice-added :
      (result procs : List Proc) (p : Proc)
      → In p procs
      → is_process_in_slice d (add_new d result procs) p ≡ true
  unfolding add_new
  is_process_in_slice-added result [] p h = absurd h
  is_process_in_slice-added result (q ∷ procs) p (inr h) =
      is_process_in_slice-added
        (if is_process_in_slice d result q then result else result ++ (q ∷ [])) procs p h
  is_process_in_slice-added result (q ∷ procs) p (inl e) =
      elim (Bool-cases (is_process_in_slice d result q)) [
        | inl seen ↦ rw seen (
            is_process_in_slice-add_new result procs p
              (subst (λ x. is_process_in_slice d result x ≡ true) (sym e) seen))
        | inr fresh ↦ rw fresh (
            is_process_in_slice-add_new (result ++ (q ∷ [])) procs p (
              is_process_in_slice-append result (q ∷ []) p
              ∙ ground (arith, is_process_in_slice_self p (q ∷ []) (inl e))))
      ]
