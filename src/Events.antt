-- ===== src/Events.antt =====
-- infra/broker/events_inmemory.go: the handlers of the internal events, by type. `E` is the event.
pub mod Publishing
pub mod Meta
use ohlcv.Base.{
  ℕ, ◌≡◌, Bool, true, false, ◌&&◌, String, List, [], ◌∷◌, ◌++◌, map, Option, none, some, str_eq,
  Assoc, lookup, insert, Result, ok, err, Run, done, panic, if◌then◌else◌,
}

-- A handler may panic or answer an error; `none` is a nil function.
abbrev pub Handler : Type 0 → Type 0
Handler E = Option (E → Run (Result (Unit {0})))

-- What a handler's goroutine comes to: it logs a panic or an error, or it ends.
pub data Outcome : Type 0 where
  logged_panic : Outcome
  logged_error : String → Outcome
  finished : Outcome

pub is_nil {ℓ} : {A : Type ℓ} → Option A → Bool
is_nil none = true
is_nil (some a) = false

handlers_of {ℓ} : {A : Type ℓ} → Option (List A) → List A
handlers_of none = []
handlers_of (some hs) = hs

module _ {E : Type 0} where
  unfoldable pub subscribe :
      String → Handler E → Assoc (List (Handler E)) → Assoc (List (Handler E))
  unfolding is_nil handlers_of
  subscribe tp h subscribers =
      if str_eq tp "" && is_nil h
      then subscribers
      else insert tp (handlers_of (lookup tp subscribers) ++ h ∷ []) subscribers

  -- The body of a goroutine, with its deferred recover; a call of nil panics.
  unfoldable pub outcome : E → Handler E → Outcome
  outcome ev none = logged_panic
  outcome ev (some h) = elim (h ev) [
    | panic ↦ logged_panic
    | done (ok u) ↦ finished
    | done (err e) ↦ logged_error e
  ]

  -- What the goroutines that Publish starts come to, one for each handler, listed in the order that
  -- they are started. They may run in any order, also among those of other events.
  unfoldable pub publish : String → E → Assoc (List (Handler E)) → List Outcome
  unfolding outcome handlers_of
  publish tp ev subscribers = map (outcome ev) (handlers_of (lookup tp subscribers))
