-- ===== src/Events/Publishing.antt =====
-- Who is told of an event.
use mathlib.Core.List.{map-append, append-nil}
use ohlcv.Base.{
  ◌≡◌, ◌≢◌, refl, sym, ◌∙◌, ap, ◌⊎◌, Bool, true, false, String, List, [], ◌∷◌, ◌++◌, map, Option,
  some, str_eq, eq_iff, Assoc, lookup, lookup-insert, lookup-empty, eq_refl, inl, if◌then◌else◌,
  arith,
}
use ohlcv.Events.{Handler, is_nil, handlers_of, subscribe, outcome, publish}

module _ {E : Type 0} where
  lookup-subscribe :
      (tp other : String) (h : Handler E) (subscribers : Assoc (List (Handler E)))
      → (tp ≢ "") ⊎ (is_nil h ≡ false)
      → lookup other (subscribe tp h subscribers) ≡ (
          if str_eq tp other
          then some (handlers_of (lookup tp subscribers) ++ h ∷ [])
          else lookup other subscribers)
  unfolding subscribe
  lookup-subscribe tp other h subscribers real = ground (
    arith,
    eq_iff tp "",
    lookup-insert tp other (handlers_of (lookup tp subscribers) ++ h ∷ []) subscribers,
  )

  told :
      (same : Bool) (ev : E) (h : Handler E) (here there : Option (List (Handler E)))
      → (same ≡ true → here ≡ there)
      → map (outcome ev) (handlers_of (if same then some (handlers_of here ++ h ∷ []) else there))
        ≡ map (outcome ev) (handlers_of there) ++ (if same then outcome ev h ∷ [] else [])
  unfolding handlers_of
  told true ev h here there e =
      map-append (outcome ev) (handlers_of here) (h ∷ [])
      ∙ ap (λ o. map (outcome ev) (handlers_of o) ++ outcome ev h ∷ []) (e refl)
  told false ev h here there e = sym (append-nil (map (outcome ev) (handlers_of there)))

  -- After Subscribe, an event of the type runs the handlers as before and then the new one, and an
  -- event of any other type runs what it ran before, unless the call is of no type and no handler.
  pub publish-subscribe :
      (tp other : String) (h : Handler E) (ev : E) (subscribers : Assoc (List (Handler E)))
      → (tp ≢ "") ⊎ (is_nil h ≡ false)
      → publish other ev (subscribe tp h subscribers)
        ≡ publish other ev subscribers ++ (if str_eq tp other then outcome ev h ∷ [] else [])
  unfolding publish
  publish-subscribe tp other h ev subscribers real =
      ap (λ o. map (outcome ev) (handlers_of o)) (lookup-subscribe tp other h subscribers real)
      ∙ told (str_eq tp other) ev h (lookup tp subscribers) (lookup other subscribers)
          (λ e. ap (λ k. lookup k subscribers) ((eq_iff tp other).0 e))

  -- The first handler of a type is the only one.
  pub publish-alone :
      (tp : String) (h : Handler E) (ev : E)
      → tp ≢ ""
      → publish tp ev (subscribe tp h []) ≡ outcome ev h ∷ []
  unfolding publish handlers_of
  publish-alone tp h ev named =
      publish-subscribe tp tp h ev [] (inl named) ∙ rw (eq_refl tp, lookup-empty tp) refl
