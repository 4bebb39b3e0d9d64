-- ===== src/Broadcast/Channels.antt =====
-- Which charts have a channel.
use ohlcv.Base.{
  ◌≡◌, refl, ◌∙◌, ap, inl, inr, Bool, true, false, not, ◌&&◌, ◌||◌, String, List, [], ◌∷◌, map,
  none, some, Assoc, lookup, lookup-insert, lookup-empty, str_eq, eq_iff, All, done, then_run,
  Bool-cases, if◌then◌else◌, arith,
}
use ohlcv.Resolution.Names.{Named, text, differs_from_all, is_not_exist, get_available_resolutions}
use ohlcv.Candle.{Chart}
use ohlcv.Broadcast.{
  ChartChannel, new_chart_channel, market_channels, get_charts_channels, find_channel,
  broadcast_messages,
}

-- A Boolean test of membership.
abbrev pub listed : String → List String → Bool
listed s [] = false
listed s (x ∷ xs) = str_eq s x || listed s xs

lookup-market_channels :
    (market r : String) (ns : List Named) (c : Assoc ChartChannel)
    → lookup r (market_channels market ns c)
      ≡ (if differs_from_all r ns then lookup r c else some (new_chart_channel market r))
unfolding market_channels differs_from_all
lookup-market_channels market r [] c = refl
lookup-market_channels market r (n ∷ ns) c =
    lookup-market_channels market r ns _
    ∙ ground (
      arith,
      lookup-insert (text n) r (new_chart_channel market (text n)) c,
      eq_iff r (text n),
      eq_iff (text n) r,
    )

lookup-get_charts_channels :
    (m : String) (markets : List String) (c : Assoc (Assoc ChartChannel))
    → lookup m (get_charts_channels markets c) ≡ (
        if listed m markets
        then some (market_channels m get_available_resolutions [])
        else lookup m c)
unfolding get_charts_channels
lookup-get_charts_channels m [] c = refl
lookup-get_charts_channels m (x ∷ xs) c =
    lookup-get_charts_channels m xs _
    ∙ ground (
      arith,
      lookup-insert x m (market_channels x get_available_resolutions []) c,
      eq_iff x m,
      eq_iff m x,
    )

-- A chart of a market and a declared resolution has the channel of the two, and no other chart has
-- one.
pub find_channel-get_charts_channels :
    (m r : String) (markets : List String)
    → find_channel r (lookup m (get_charts_channels markets []))
      ≡ (if listed m markets && not (is_not_exist r) then some (new_chart_channel m r) else none)
unfolding find_channel is_not_exist
find_channel-get_charts_channels m r markets =
    ap (find_channel r) (lookup-get_charts_channels m markets [])
    ∙ elim (Bool-cases (listed m markets)) [
      | inl known ↦ rw known (
          lookup-market_channels m r get_available_resolutions []
          ∙ in_row (differs_from_all r get_available_resolutions))
      | inr unknown ↦ rw (unknown, lookup-empty m) refl
    ]
  where
    in_row :
        (b : Bool)
        → (if b then lookup r [] else some (new_chart_channel m r))
          ≡ (if true && not b then some (new_chart_channel m r) else none)
    in_row true = lookup-empty r
    in_row false = refl

module _ {D : Type 0} (marshal : Chart D → String) where
  -- The chart's market is one of the list and its resolution is declared.
  abbrev pub HasChannel : List String → Chart D → Type 0
  HasChannel markets k = (listed k.symbol markets ≡ true) × (is_not_exist k.resolution ≡ false)

  found :
      (markets : List String) (k : Chart D)
      → HasChannel markets k
      → find_channel k.resolution (lookup k.symbol (get_charts_channels markets []))
        ≡ some (new_chart_channel k.symbol k.resolution)
  found markets k h = find_channel-get_charts_channels k.symbol k.resolution markets ∙ rw (h.0, h.1)

  -- Charts of known markets and declared resolutions are sent in their order, each to its channel.
  pub broadcast_messages-HasChannel :
      (markets : List String) (ks : List (Chart D))
      → All (HasChannel markets) ks
      → broadcast_messages marshal (get_charts_channels markets []) ks
        ≡ done (
            map
              (λ k. record {
                channel = (new_chart_channel k.symbol k.resolution).name;
                payload = marshal k;
              })
              ks)
  unfolding broadcast_messages
  broadcast_messages-HasChannel markets [] h = refl
  broadcast_messages-HasChannel markets (k ∷ ks) h =
      rw (found markets k h.0, broadcast_messages)
        (rw (broadcast_messages-HasChannel markets ks h.1, then_run))
