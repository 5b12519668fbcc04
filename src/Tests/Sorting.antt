-- ===== src/Tests/Sorting.antt =====
-- An insertion sort, which shows that the laws of `sort.Slice` can hold.
use elastic_agent_system_met.Base.{
  suc, Bool, false, ◌||◌, List, [], ◌∷◌, ◌≡◌, refl, ◌∙◌, ap, inl, inr, ◌↔◌, length, if◌then◌else◌,
  All, Bool-cases, arith,
}
use elastic_agent_system_met.Process.Types.{Deps}
use elastic_agent_system_met.Process.Top.{is_process_in_slice}
use elastic_agent_system_met.Process.Laws.Top.{Proc, In, Distinct, Ordered, IsOrder, SortLaws}

module _ (d : Deps) where
  module _ (less : Proc d → Proc d → Bool) where
    unfoldable pub insert_sorted : Proc d → List (Proc d) → List (Proc d)
    insert_sorted p [] = p ∷ []
    insert_sorted p (q ∷ qs) =
        let rest = insert_sorted p qs in if less q p then q ∷ rest else p ∷ q ∷ qs

    length-insert_sorted :
        (p : Proc d) (qs : List (Proc d)) → length (insert_sorted p qs) ≡ suc (length qs)
    unfolding insert_sorted
    length-insert_sorted p [] = refl
    length-insert_sorted p (q ∷ qs) = ground (arith, length-insert_sorted p qs)

    In-insert_sorted :
        (p : Proc d) (qs : List (Proc d)) (x : Proc d)
        → In d x (insert_sorted p qs) ↔ In d x (p ∷ qs)
    unfolding insert_sorted
    In-insert_sorted p [] x = (λ h. h, λ h. h)
    In-insert_sorted p (q ∷ qs) x = elim (Bool-cases (less q p)) [
      | inr stop ↦ rw stop (λ h. h, λ h. h)
      | inl go ↦
          let (to, from) = In-insert_sorted p qs x in
          rw go (
            (λ h. elim h [
              | inl e ↦ inr (inl e)
              | inr k ↦ elim (to k) [ inl e ↦ inl e | inr l ↦ inr (inr l) ]
            ]),
            (λ h. elim h [
              | inl e ↦ inr (from (inl e))
              | inr k ↦ elim k [ inl e ↦ inl e | inr l ↦ inr (from (inr l)) ]
            ]),
          )
    ]

    is_process_in_slice-insert_sorted :
        (p : Proc d) (qs : List (Proc d)) (x : Proc d)
        → is_process_in_slice d (insert_sorted p qs) x
          ≡ (d.i.comparable.same p.pid x.pid || is_process_in_slice d qs x)
    unfolding insert_sorted is_process_in_slice
    is_process_in_slice-insert_sorted p [] x = refl
    is_process_in_slice-insert_sorted p (q ∷ qs) x =
        ground (arith, is_process_in_slice-insert_sorted p qs x)

    Distinct-insert_sorted :
        (p : Proc d) (qs : List (Proc d))
        → is_process_in_slice d qs p ≡ false
        → Distinct d qs
        → Distinct d (insert_sorted p qs)
    unfolding insert_sorted is_process_in_slice
    Distinct-insert_sorted p [] h k = (refl, tt)
    Distinct-insert_sorted p (q ∷ qs) h (k, ks) = elim (Bool-cases (less q p)) [
      | inr stop ↦ rw stop (h, (k, ks))
      | inl go ↦ rw go (
        ground (
          arith,
          is_process_in_slice-insert_sorted p qs q,
          d.i.comparable.same_iff p.pid q.pid,
          d.i.comparable.same_iff q.pid p.pid,
        ),
        Distinct-insert_sorted p qs (ground arith) ks,
      )
    ]

    All-insert_sorted :
        (P : Proc d → Type 0) (p : Proc d) (qs : List (Proc d))
        → P p
        → All P qs
        → All P (insert_sorted p qs)
    unfolding insert_sorted
    All-insert_sorted P p [] h k = (h, tt)
    All-insert_sorted P p (q ∷ qs) h (k, ks) = elim (Bool-cases (less q p)) [
      | inr stop ↦ rw stop (h, (k, ks))
      | inl go ↦ rw go (k, All-insert_sorted P p qs h ks)
    ]

    IsOrder-tail : (p : Proc d) (ps : List (Proc d)) → IsOrder d less (p ∷ ps) → IsOrder d less ps
    IsOrder-tail p ps o = record {
      asymmetric = λ x y h k. o.asymmetric x y (inr h) (inr k);
      negative = λ x y z h k l. o.negative x y z (inr h) (inr k) (inr l);
    }

    IsOrder-skip :
        (p q : Proc d) (ps : List (Proc d)) → IsOrder d less (p ∷ q ∷ ps) → IsOrder d less (p ∷ ps)
    IsOrder-skip p q ps o = record {
      asymmetric = λ x y h k. o.asymmetric x y (skip x h) (skip y k);
      negative = λ x y z h k l. o.negative x y z (skip x h) (skip y k) (skip z l);
    }
      where
        skip : (x : Proc d) → In d x (p ∷ ps) → In d x (p ∷ q ∷ ps)
        skip x (inl e) = inl e
        skip x (inr h) = inr (inr h)

    -- What is not before `q` is not before `p`, if `q` is not.
    All-before :
        (p q : Proc d) (qs all : List (Proc d))
        → IsOrder d less all
        → In d p all
        → In d q all
        → ((x : Proc d) → In d x qs → In d x all)
        → less q p ≡ false
        → All (λ r. less r q ≡ false) qs
        → All (λ r. less r p ≡ false) qs
    All-before p q [] all o hp hq sub e h = tt
    All-before p q (r ∷ qs) all o hp hq sub e (h, hs) = (
      o.negative p q r hp hq (sub r (inl refl)) e h,
      All-before p q qs all o hp hq (λ x k. sub x (inr k)) e hs,
    )

    Ordered-insert_sorted :
        (p : Proc d) (qs : List (Proc d))
        → IsOrder d less (p ∷ qs)
        → Ordered d less qs
        → Ordered d less (insert_sorted p qs)
    unfolding insert_sorted
    Ordered-insert_sorted p [] o h = (tt, tt)
    Ordered-insert_sorted p (q ∷ qs) o (h, hs) = elim (Bool-cases (less q p)) [
      | inl go ↦ rw go (
        All-insert_sorted _ p qs (o.asymmetric q p (inr (inl refl)) (inl refl) go) h,
        Ordered-insert_sorted p qs (IsOrder-skip p q qs o) hs,
      )
      | inr stop ↦ rw stop (
        (
          stop,
          All-before p q qs (p ∷ q ∷ qs) o (inl refl) (inr (inl refl)) (λ x k. inr (inr k)) stop h,
        ),
        (h, hs),
      )
    ]

  unfoldable pub insertion_sort : (Proc d → Proc d → Bool) → List (Proc d) → List (Proc d)
  insertion_sort less [] = []
  insertion_sort less (p ∷ ps) = insert_sorted less p (insertion_sort less ps)

  In-insertion_sort :
      (less : Proc d → Proc d → Bool) (ps : List (Proc d)) (x : Proc d)
      → In d x (insertion_sort less ps) ↔ In d x ps
  unfolding insertion_sort
  In-insertion_sort less [] x = (λ h. h, λ h. h)
  In-insertion_sort less (p ∷ ps) x =
      let (to, from) = In-insertion_sort less ps x in
      let (into, out) = In-insert_sorted less p (insertion_sort less ps) x in
      (
        (λ h. elim (into h) [ inl e ↦ inl e | inr k ↦ inr (to k) ]),
        (λ h. elim h [ inl e ↦ out (inl e) | inr k ↦ out (inr (from k)) ]),
      )

  length-insertion_sort :
      (less : Proc d → Proc d → Bool) (ps : List (Proc d))
      → length (insertion_sort less ps) ≡ length ps
  unfolding insertion_sort
  length-insertion_sort less [] = refl
  length-insertion_sort less (p ∷ ps) =
      length-insert_sorted less p (insertion_sort less ps) ∙ ap suc (length-insertion_sort less ps)

  is_process_in_slice-insertion_sort :
      (less : Proc d → Proc d → Bool) (ps : List (Proc d)) (x : Proc d)
      → is_process_in_slice d (insertion_sort less ps) x ≡ is_process_in_slice d ps x
  unfolding insertion_sort is_process_in_slice
  is_process_in_slice-insertion_sort less [] x = refl
  is_process_in_slice-insertion_sort less (p ∷ ps) x =
      is_process_in_slice-insert_sorted less p (insertion_sort less ps) x
      ∙ ap (λ b. d.i.comparable.same p.pid x.pid || b)
          (is_process_in_slice-insertion_sort less ps x)

  Distinct-insertion_sort :
      (less : Proc d → Proc d → Bool) (ps : List (Proc d))
      → Distinct d ps
      → Distinct d (insertion_sort less ps)
  unfolding insertion_sort
  Distinct-insertion_sort less [] h = tt
  Distinct-insertion_sort less (p ∷ ps) (h, hs) =
      Distinct-insert_sorted less p (insertion_sort less ps)
        (is_process_in_slice-insertion_sort less ps p ∙ h) (Distinct-insertion_sort less ps hs)

  IsOrder-sorted :
      (less : Proc d → Proc d → Bool) (p : Proc d) (ps : List (Proc d))
      → IsOrder d less (p ∷ ps)
      → IsOrder d less (p ∷ insertion_sort less ps)
  IsOrder-sorted less p ps o = record {
    asymmetric = λ x y h k. o.asymmetric x y (back x h) (back y k);
    negative = λ x y z h k l. o.negative x y z (back x h) (back y k) (back z l);
  }
    where
      back : (x : Proc d) → In d x (p ∷ insertion_sort less ps) → In d x (p ∷ ps)
      back x (inl e) = inl e
      back x (inr h) = inr ((In-insertion_sort less ps x).0 h)

  Ordered-insertion_sort :
      (less : Proc d → Proc d → Bool) (ps : List (Proc d))
      → IsOrder d less ps
      → Ordered d less (insertion_sort less ps)
  unfolding insertion_sort
  Ordered-insertion_sort less [] o = tt
  Ordered-insertion_sort less (p ∷ ps) o =
      Ordered-insert_sorted less p (insertion_sort less ps) (IsOrder-sorted less p ps o)
        (Ordered-insertion_sort less ps (IsOrder-tail less p ps o))

  pub insertion_sort-SortLaws : SortLaws d insertion_sort
  insertion_sort-SortLaws = record {
    same_length = length-insertion_sort;
    same_elements = In-insertion_sort;
    distinct = Distinct-insertion_sort;
    ordered = Ordered-insertion_sort;
  }
