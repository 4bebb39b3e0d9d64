-- ===== src/Trades/Limits.antt =====
-- How many trades GetLastTrades answers.
use mathlib.Core.Bool.{false≢true}
use ohlcv.Base.{
  sym, ◌∙◌, suc, zero, pos_part, ℕ, ◌≤◌, ◌≡◌, refl, ◌↔◌, ◌⊎◌, inl, inr, false, String, List, [], ℤ,
  pos, negsuc, ◌<ℤ◌, eq_iff, Result, ok, length, arith, Bool-cases,
}
use ohlcv.Text.{trim_space}
use ohlcv.Text.Spaces.{IsBlank, trim_space-empty_iff}
use ohlcv.Deals.{StoredDeal}
use ohlcv.Trades.{FindQuery, get_last_trades, incorrect_args, trades_query}

-- A symbol that is not blank, and a limit of 1 … 999.
abbrev pub IsAsked : String → ℤ → Type 0
IsAsked symbol limit = (IsBlank symbol → ⊥) × (pos 0 <ℤ limit) × (limit <ℤ pos 1000)

pub incorrect_args_iff :
    (symbol : String) (limit : ℤ) → (incorrect_args symbol limit ≡ false) ↔ IsAsked symbol limit
unfolding incorrect_args
incorrect_args_iff symbol limit =
    ground (arith, eq_iff (trim_space symbol) "", trim_space-empty_iff symbol)

module _ {D F : Type 0} (find : FindQuery D F → Result (List (StoredDeal D))) where
  -- Find answers no more deals than its limit, if that is positive.
  abbrev pub IsWithin : Type 0
  IsWithin =
      (q : FindQuery D F) (n : ℕ) (deals : List (StoredDeal D))
      → q.limit ≡ pos (suc n)
      → find q ≡ ok deals
      → length deals ≤ suc n

  pub at_most :
      IsWithin
      → (symbol : String) (limit : ℤ) (deals : List (StoredDeal D)) → pos 0 <ℤ limit
      → find (trades_query symbol limit) ≡ ok deals
      → length deals ≤ pos_part limit
  unfolding trades_query
  at_most within symbol (pos (suc n)) deals p e =
      within (trades_query symbol (pos (suc n))) n deals refl e
  at_most within symbol (pos zero) deals p e = absurd (omega arith)
  at_most within symbol (negsuc n) deals p e = absurd (omega arith)

  -- For a symbol that is not blank and a limit of 1 … 999, GetLastTrades answers what Find answers to
  -- the one query for them, which is no more deals than the limit where Find keeps to it; for any
  -- other arguments it answers no deals, and no error.
  pub get_last_trades-IsLimited :
      IsWithin
      → (symbol : String) (limit : ℤ)
      → (IsAsked symbol limit
          × (get_last_trades find symbol limit ≡ find (trades_query symbol limit))
          × ((deals : List (StoredDeal D))
              → get_last_trades find symbol limit ≡ ok deals
              → length deals ≤ pos_part limit))
        ⊎ ((IsAsked symbol limit → ⊥) × (get_last_trades find symbol limit ≡ ok []))
  unfolding get_last_trades
  get_last_trades-IsLimited within symbol limit = elim (Bool-cases (incorrect_args symbol limit)) [
    | inl incorrect ↦ inr (
      λ a. false≢true (sym ((incorrect_args_iff symbol limit).1 a) ∙ incorrect),
      rw (incorrect, get_last_trades) refl,
    )
    | inr correct ↦
        let a = (incorrect_args_iff symbol limit).0 correct in
        inl (
          a,
          rw (correct, get_last_trades) refl,
          λ deals e. at_most within symbol limit deals a.1 (rw (correct, get_last_trades) at e),
        )
  ]
