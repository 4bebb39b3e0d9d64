-- ===== src/Startup/Process.antt =====
-- The running candles of the whole process: the rounds of initCurrentCandles fill them from Mongo,
-- while refreshAll runs every minute and, once they are filled, deals are consumed.
use mathlib.Core.Path.{subst}
use ohlcv.Base.{
  ◌≡◌, sym, ◌∙◌, inl, inr, false, String, List, [], some, Assoc, lookup, All, Result, done,
  none-ne-some, Bool-cases,
}
use ohlcv.Resolution.Names.{Named, text, named-text, is_not_exist, is_not_exist_iff}
use ohlcv.Decimal.{Decimals}
use ohlcv.Candle.{Candle, Chart}
use ohlcv.Service.{Query}
use ohlcv.Current.{CurrentCandles, Deal, Visit, add_deal, refresh_all}
use ohlcv.Current.Table.{get_safe_candle}
use ohlcv.Current.Invariant.{IsValid}
use ohlcv.Current.Sending
use ohlcv.Current.Sending.{Reach-IsBound}
use ohlcv.Batch.Merge.{IsRectangular, IsPoint}
use ohlcv.Startup.{Readings, init_one, chart_of_update}
use ohlcv.Startup.Filling.{init_one-added}
use ohlcv.Startup.Symbols.{IsNamed, chart_of_update-IsKeyed}

declared : (n : Named) → is_not_exist (text n) ≡ false
declared n = elim (Bool-cases (is_not_exist (text n))) [
  | inl unknown ↦ absurd (none-ne-some (sym ((is_not_exist_iff (text n)).0 unknown) ∙ named-text n))
  | inr known ↦ known
]

-- `names` is the map from the identifiers of the markets to their names.
module _ {D S : Type 0} (dec : Decimals D S) (aggregate : Query → Result (List (Chart D)))
    (names : Assoc String) where
  -- A candle is stored for the market and the resolution.
  abbrev pub HasCandle : CurrentCandles D → String → String → Type 0
  HasCandle st m r = (c : Candle D) × (get_safe_candle st.candles m r ≡ some c)

  -- A round of initCurrentCandles for a market and a declared resolution; AddDeal, whose range visits
  -- stored resolutions of the deal's market; or refreshAll.
  pub data Step (st : CurrentCandles D) : CurrentCandles D → Type 0 where
    fills :
        {st' : CurrentCandles D} (id name : String) (n : Named) (clock : Readings)
        → lookup id names ≡ some name
        → init_one dec aggregate st id name (text n) clock ≡ done st'
        → Step st st'
    deals :
        (deal : Deal) (vs : List Visit)
        → All (λ w. HasCandle st deal.market w.resolution) vs
        → Step st (add_deal dec st deal vs).0
    refreshes :
        {st' : CurrentCandles D} (vs : List Visit) → refresh_all dec st vs ≡ done st' → Step st st'

  pub data Reach : CurrentCandles D → Type 0 where
    start : Reach (record { candles = []; updates = [] })
    next : {st st' : CurrentCandles D} → Reach st → Step st st' → Reach st'

  -- The keys that are filled: a market that has a name, and a declared resolution.
  abbrev pub IsFilled : String → String → Type 0
  IsFilled id r = ((name : String) × (lookup id names ≡ some name)) × (is_not_exist r ≡ false)

  pub Reach-Sending : (st : CurrentCandles D) → Reach st → Sending.Reach dec names IsFilled st
  Reach-Sending st start = Sending.start
  Reach-Sending _ (next {st} reached (fills id name n clock known e)) =
      let (c, may, same) = init_one-added dec aggregate names st _ id name n clock known e in
      subst (Sending.Reach dec names IsFilled) same (
        Sending.next (Reach-Sending st reached)
          (Sending.adds id (text n) c clock.last ((name, known), declared n) may))
  Reach-Sending _ (next {st} reached (deals deal vs h)) =
      Sending.next (Reach-Sending st reached) (Sending.deals deal vs h)
  Reach-Sending _ (next {st} reached (refreshes vs e)) =
      Sending.next (Reach-Sending st reached) (Sending.refreshes vs e)

  -- In every state that the process reaches from the empty map, by rounds of initCurrentCandles
  -- with whatever Mongo answers, by deals and by refreshes, in any order, each stored candle is
  -- called by its market's identifier or name, has the resolution that it is stored under and
  -- closes where that says; every candle that has been sent closes where its own resolution says.
  pub Reach-IsValid : (st : CurrentCandles D) → Reach st → IsValid names st
  Reach-IsValid st reached =
      Sending.IsBound-IsValid dec names IsFilled st
        (Reach-IsBound dec names IsFilled st (Reach-Sending st reached))

  -- For a market whose name is not empty and no identifier of a market of another name, every
  -- candle that is stored under its identifier, in a state that the process reaches by rounds of
  -- initCurrentCandles, deals and refreshes, is published as a chart of one point under the
  -- market's name, with the resolution that it is stored under.
  pub Reach-published :
      (st : CurrentCandles D) (id name r : String) (c : Candle D)
      → Reach st
      → IsNamed names id name
      → get_safe_candle st.candles id r ≡ some c
      → ((chart_of_update names c).symbol ≡ name)
        × ((chart_of_update names c).resolution ≡ r)
        × IsRectangular (chart_of_update names c)
        × IsPoint (chart_of_update names c)
  Reach-published st id name r c reached n stored =
      chart_of_update-IsKeyed names id name r c n ((Reach-IsValid st reached).stored id r c stored)
