-- ===== src/Deals.antt =====
-- Validate of internal/model/deal.go, and SaveDeal of internal/service/deal.go with Save of
-- internal/repository/deal.go.
pub mod Saving
pub mod Pattern
use Prim.Native.String.{◌++◌ as text_append, [] as no_text, ◌∷◌ as text_cons}
use Prim.Native.Char.{code}
use ohlcv.Base.{
  ℕ, zero, suc, ◌/◌, ◌≡◌, Bool, true, false, not, ◌&&◌, ◌||◌, String, List, [], ◌∷◌, ◌++◌, Option,
  none, some, ℤ, pos, negsuc, eqb_ℤ, leb, ltb, length, str_eq, Assoc, lookup, Result, ok, err, Run,
  done, panic, then_run, if◌then◌else◌,
}
use ohlcv.Text.{codes}
use ohlcv.Decimal.{Decimals}
use ohlcv.Current.{Deal}

pub record DealData (D : Type 0) : Type 0 where
  pub price : D
  pub volume : D
  pub market : String
  pub deal_id : String
  pub is_buyer_maker : Bool

-- model.Deal; `t` is a primitive.DateTime, in milliseconds.
pub record StoredDeal (D : Type 0) : Type 0 where
  pub t : ℤ
  pub deal_data : DealData D

-- `[A-Z]` a number of times: what is left of the text.
upper_letters : ℕ → List ℕ → Option (List ℕ)
upper_letters zero cs = some cs
upper_letters (suc n) [] = none
upper_letters (suc n) (c ∷ cs) =
    let rest = upper_letters n cs in if leb 65 c && leb c 90 then rest else none

is_found : Option (List ℕ) → Bool
is_found none = false
is_found (some cs) = true

-- `_[A-Z]{3,4}`, where three letters are enough, as nothing has to follow.
second_half : Option (List ℕ) → Bool
second_half none = false
second_half (some []) = false
second_half (some (c ∷ cs)) = (leb 95 c && leb c 95) && is_found (upper_letters 3 cs)

-- The pattern, from the first character on, and from any.
matches_here : List ℕ → Bool
matches_here cs = second_half (upper_letters 3 cs) || second_half (upper_letters 4 cs)

matches_somewhere : List ℕ → Bool
matches_somewhere [] = false
matches_somewhere (c ∷ cs) = matches_here (c ∷ cs) || matches_somewhere cs

-- marketRegex.MatchString, of "[A-Z]{3,4}_[A-Z]{3,4}".
unfoldable pub market_matches : String → Bool
unfolding codes matches_somewhere matches_here second_half upper_letters is_found
market_matches market = matches_somewhere (codes market)

-- primitive.NewDateTimeFromTime of time.Unix(0, nano): whole milliseconds, rounded down.
unfoldable pub date_time : ℤ → ℤ
date_time (pos n) = pos (n / 1_000_000)
date_time (negsuc n) = negsuc (n / 1_000_000)

-- An entry of the markets' names, or "".
name_of : Option String → String
name_of none = ""
name_of (some name) = name

-- The Mongo collection, and the buffer of dealChannel.
pub record Store (D : Type 0) : Type 0 where
  pub collection : List (StoredDeal D)
  pub channel : List (StoredDeal D)

-- `make(chan *model.Deal, 1024)` of cmd/consumer/main.go.
abbrev pub channel_capacity : ℕ
channel_capacity = 1024

module _ {D : Type 0} where
  -- The send on dealChannel, which drops the deal when the buffer is full.
  unfoldable pub send : Store D → StoredDeal D → Store D
  send st deal =
      if ltb (length st.channel) channel_capacity
      then record st { channel = st.channel ++ deal ∷ [] }
      else st

  unfoldable pub stored_deal : Assoc String → Deal → D → D → StoredDeal D
  unfolding name_of
  stored_deal markets_map message price volume = record {
    t = date_time message.created_at;
    deal_data = record {
      price = price;
      volume = volume;
      market = name_of (lookup message.market markets_map);
      deal_id = message.id;
      is_buyer_maker = message.is_buyer_maker;
    };
  }

module _ {D S : Type 0} (dec : Decimals D S) where
  is_illegal : D → Bool
  is_illegal d = dec.is_zero d || (dec.is_nan d || eqb_ℤ (dec.is_inf d) (pos 1))

  unfoldable pub validate : StoredDeal D → Result (Unit {0})
  unfolding is_illegal
  validate d =
      if str_eq d.deal_data.deal_id ""
      then err "deal ID is empty"
      else if is_illegal d.deal_data.price
      then err (text_append "price value is illegal: " (dec.to_text d.deal_data.price))
      else if is_illegal d.deal_data.volume
      then err (text_append "volume value is illegal: " (dec.to_text d.deal_data.volume))
      else if not (market_matches d.deal_data.market)
      then err (
          text_append "invalid market "
            (text_append d.deal_data.market ", must be matches by: [A-Z]{3,4}_[A-Z]{3,4}"))
      else ok tt

  unfoldable pub must_parse_decimal : String → Run D
  must_parse_decimal num = elim (dec.parse_decimal128 num) [ err e ↦ panic | ok d ↦ done d ]

-- `insert_one` is what InsertOne answers.
module _ {D S : Type 0} (dec : Decimals D S) (insert_one : StoredDeal D → Result (Unit {0})) where
  -- From Validate on.
  unfoldable pub save_valid : Store D → StoredDeal D → Result (Option (StoredDeal D)) × Store D
  unfolding validate send
  save_valid st deal = elim (validate dec deal) [
    | err e ↦ (err e, st)
    | ok u ↦ elim (insert_one deal) [
      | err e ↦ (err e, st)
      | ok u ↦ (ok (some deal), send (record st { collection = st.collection ++ deal ∷ [] }) deal)
    ]
  ]

  -- `none` is the nil deal of a message that is skipped.
  unfoldable pub save_deal :
      Assoc String → Store D → Deal → Run (Result (Option (StoredDeal D)) × Store D)
  unfolding must_parse_decimal stored_deal save_valid
  save_deal markets_map st message =
      if str_eq message.taker_order_id "" || str_eq message.maker_order_id ""
      then done (ok none, st)
      else then_run (must_parse_decimal dec message.price) (λ price.
        then_run (must_parse_decimal dec message.amount)
          (λ volume. done (save_valid st (stored_deal markets_map message price volume))))
