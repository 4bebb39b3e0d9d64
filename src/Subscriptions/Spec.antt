-- ===== src/Subscriptions/Spec.antt =====
-- What a stream of deals promises: a bounded queue that loses what does not fit.
use ohlcv.Base.{
  ℕ, ◌≤◌, ◌<◌, ◌≡◌, refl, ap, ◌∙◌, sym, Bool, true, false, List, [], ◌∷◌, ◌++◌, length,
  length-append, arith, subst,
}
use mathlib.Core.List.{append-nil, append_assoc}

pub record Queue (A : Type 0) : Type 0 where
  pub passed : List A
  pub waiting : List A
  pub is_live : Bool

abbrev pub bound : ℕ
bound = 1024

abbrev pub fresh_queue : {A : Type 0} → Queue A
fresh_queue = record { passed = []; waiting = []; is_live = true }

module _ {A : Type 0} where
  -- A step, with the element that it is given.
  pub data Moves (q : Queue A) : List A → Queue A → Type 0 where
    accept :
        (a : A)
        → q.is_live ≡ true
        → length q.waiting < bound
        → Moves q (a ∷ []) (record q { waiting = q.waiting ++ a ∷ [] })
    lose : (a : A) → q.is_live ≡ true → bound ≤ length q.waiting → Moves q (a ∷ []) q
    ignore : (a : A) → q.is_live ≡ false → Moves q (a ∷ []) q
    pass :
        (a : A) (rest : List A)
        → q.is_live ≡ true
        → q.waiting ≡ a ∷ rest
        → Moves q [] (record q { passed = q.passed ++ a ∷ []; waiting = rest })
    stop : q.is_live ≡ true → Moves q [] (record q { waiting = []; is_live = false })
    idle : Moves q [] q

  -- From the fresh queue, with the elements given so far.
  pub data Reaches : List A → Queue A → Type 0 where
    fresh : Reaches [] fresh_queue
    moved :
        {given label : List A} {q q' : Queue A}
        → Reaches given q
        → Moves q label q'
        → Reaches (given ++ label) q'

  -- A list is left when some elements of another are dropped.
  pub data IsPart : List A → List A → Type 0 where
    empty : IsPart [] []
    kept : (a : A) {xs ys : List A} → IsPart xs ys → IsPart (a ∷ xs) (a ∷ ys)
    dropped : (a : A) {xs ys : List A} → IsPart xs ys → IsPart xs (a ∷ ys)

  IsPart-kept_last : (a : A) {xs ys : List A} → IsPart xs ys → IsPart (xs ++ a ∷ []) (ys ++ a ∷ [])
  IsPart-kept_last a empty = kept a empty
  IsPart-kept_last a (kept b p) = kept b (IsPart-kept_last a p)
  IsPart-kept_last a (dropped b p) = dropped b (IsPart-kept_last a p)

  IsPart-dropped_last : (a : A) {xs ys : List A} → IsPart xs ys → IsPart xs (ys ++ a ∷ [])
  IsPart-dropped_last a empty = dropped a empty
  IsPart-dropped_last a (kept b p) = kept b (IsPart-dropped_last a p)
  IsPart-dropped_last a (dropped b p) = dropped b (IsPart-dropped_last a p)

  IsPart-nil : (ys : List A) → IsPart [] ys
  IsPart-nil [] = empty
  IsPart-nil (a ∷ ys) = dropped a (IsPart-nil ys)

  abbrev Begins : List A → List A → Type 0
  Begins [] xs = Unit
  Begins (a ∷ front) [] = ⊥
  Begins (a ∷ front) (b ∷ xs) = (a ≡ b) × Begins front xs

  Begins-append : (front back : List A) → Begins front (front ++ back)
  Begins-append [] back = tt
  Begins-append (a ∷ front) back = (refl, Begins-append front back)

  IsPart-front :
      (front : List A) {xs ys : List A} → IsPart xs ys → Begins front xs → IsPart front ys
  IsPart-front [] {ys = ys} p b = IsPart-nil ys
  IsPart-front (a ∷ front) empty b = absurd b
  IsPart-front (a ∷ front) (kept c {ys = ys} p) b =
      subst (λ d. IsPart (a ∷ front) (d ∷ ys)) b.0 (kept a (IsPart-front front p b.1))
  IsPart-front (a ∷ front) (dropped c p) b = dropped c (IsPart-front (a ∷ front) p b)

  -- What is passed on or waits has been given, in this order, and no more waits than the bound; while
  -- the queue is live and no more than the bound has been given, nothing is lost.
  pub record IsLossy (given : List A) (q : Queue A) : Type 0 where
    pub part : IsPart (q.passed ++ q.waiting) given
    pub within : length q.waiting ≤ bound
    pub complete : q.is_live ≡ true → length given ≤ bound → q.passed ++ q.waiting ≡ given

  label_nil : (given : List A) (q : Queue A) → IsLossy given q → IsLossy (given ++ []) q
  label_nil given q h = subst (λ g. IsLossy g q) (sym (append-nil given)) h

  Moves-IsLossy :
      {label : List A} {q q' : Queue A} (given : List A)
      → Moves q label q'
      → IsLossy given q
      → IsLossy (given ++ label) q'
  Moves-IsLossy {q = q} given (accept a live room) h = record {
    part =
        subst (λ l. IsPart l (given ++ a ∷ [])) (append_assoc q.passed q.waiting (a ∷ []))
          (IsPart-kept_last a h.part);
    within = omega (arith, length-append q.waiting (a ∷ []));
    complete = λ l n.
        sym (append_assoc q.passed q.waiting (a ∷ []))
        ∙ ap (λ g. g ++ a ∷ []) (h.complete l (omega (arith, length-append given (a ∷ []))));
  }
  Moves-IsLossy {q = q} given (lose a live full) h = record {
    part = IsPart-dropped_last a h.part;
    within = h.within;
    complete = λ l n.
        let few : length given < bound = omega (arith, length-append given (a ∷ []), full, n) in
        absurd (
          omega (
            arith,
            full,
            few,
            length-append q.passed q.waiting,
            ap length (h.complete l (omega (arith, few))),
          ));
  }
  Moves-IsLossy given (ignore a dead) h = record {
    part = IsPart-dropped_last a h.part;
    within = h.within;
    complete = λ l n. cc;
  }
  Moves-IsLossy {q = q} given (pass a rest live front) h = label_nil given _ (record {
    part = subst (λ l. IsPart l given) (moved_on front) h.part;
    within = omega (arith, ap length front, h.within);
    complete = λ l n. sym (moved_on front) ∙ h.complete l n;
  })
    where
      moved_on : q.waiting ≡ a ∷ rest → q.passed ++ q.waiting ≡ (q.passed ++ a ∷ []) ++ rest
      moved_on e = ap (λ w. q.passed ++ w) e ∙ sym (append_assoc q.passed (a ∷ []) rest)
  Moves-IsLossy {q = q} given (stop live) h = label_nil given _ (record {
    part =
        subst (λ l. IsPart l given) (sym (append-nil q.passed))
          (IsPart-front q.passed h.part (Begins-append q.passed q.waiting));
    within = omega arith;
    complete = λ l n. cc;
  })
  Moves-IsLossy given idle h = label_nil given _ h

  -- The queue is lossy from its start on.
  pub Reaches-IsLossy : {q : Queue A} (given : List A) → Reaches given q → IsLossy given q
  Reaches-IsLossy [] fresh = record { part = empty; within = omega arith; complete = λ l n. refl }
  Reaches-IsLossy _ (moved {given} r m) = Moves-IsLossy given m (Reaches-IsLossy given r)
