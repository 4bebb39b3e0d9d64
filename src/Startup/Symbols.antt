-- ===== src/Startup/Symbols.antt =====
-- The symbols of the charts that are published.
use ohlcv.Base.{
  some-injective, ◌≡◌, ◌≢◌, refl, sym, ◌∙◌, ap, ◌⊎◌, inl, inr, String, List, [], ◌∷◌, Option, none,
  some, Assoc, lookup, insert, lookup-insert, str_eq, eq_iff, if◌then◌else◌, arith,
}
use ohlcv.Candle.{Candle}
use ohlcv.Time.{unix}
use ohlcv.Batch.Merge.{IsRectangular, IsPoint}
use ohlcv.Current.Invariant.{IsKeyed}
use ohlcv.Markets.{Market}
use ohlcv.Startup.{symbol_of, chart_of_update, get_available_markets_map}

-- A market has the name, which is not empty, and which is no identifier of a market of another name.
pub record IsNamed (names : Assoc String) (id name : String) : Type 0 where
  pub known : lookup id names ≡ some name
  pub not_empty : name ≢ ""
  pub no_identifier : (other : String) → lookup name names ≡ some other → other ≡ name

symbol_of-some :
    (names : Assoc String) (s name : String)
    → lookup s names ≡ some name
    → name ≢ ""
    → symbol_of names s ≡ name
unfolding symbol_of
symbol_of-some names s name e ne = ground (arith, eq_iff name "")

symbol_of-none : (names : Assoc String) (s : String) → lookup s names ≡ none → symbol_of names s ≡ s
unfolding symbol_of
symbol_of-none names s e = rw (e, symbol_of) refl

-- Both a market's identifier and its name give the name.
symbol_of-IsNamed :
    (names : Assoc String) (id name s : String)
    → IsNamed names id name
    → (s ≡ id) ⊎ (lookup id names ≡ some s)
    → symbol_of names s ≡ name
symbol_of-IsNamed names id name s n (inl same) =
    symbol_of-some names s name (ap (λ x. lookup x names) same ∙ n.known) n.not_empty
symbol_of-IsNamed names id name s n (inr called) =
    let same : s ≡ name = some-injective (sym called ∙ n.known) in
    ap (symbol_of names) same ∙ by_name (lookup name names) refl
  where
    by_name : (o : Option String) → lookup name names ≡ o → symbol_of names name ≡ name
    by_name none e = symbol_of-none names name e
    by_name (some other) e =
        symbol_of-some names name name (e ∙ ap some (n.no_identifier other e)) n.not_empty

-- Every candle that is stored for a market, whether Mongo or a deal made it, is published as a chart
-- of one point under the market's name, with the resolution that it is stored under.
pub chart_of_update-IsKeyed :
    {D : Type 0} (names : Assoc String) (id name r : String) (c : Candle D)
    → IsNamed names id name
    → IsKeyed names id r c
    → ((chart_of_update names c).symbol ≡ name)
      × ((chart_of_update names c).resolution ≡ r)
      × IsRectangular (chart_of_update names c)
      × IsPoint (chart_of_update names c)
unfolding chart_of_update
chart_of_update-IsKeyed names id name r c n k = (
  symbol_of-IsNamed names id name c.symbol n k.symbol,
  k.resolution,
  (refl, refl, refl, refl, refl),
  (unix c.open_time, refl),
)

-- The last market of an identifier in the list.
abbrev pub last_name : String → List Market → Option String → Option String
last_name id [] o = o
last_name id (v ∷ markets) o = last_name id markets (if str_eq v.id id then some v.name else o)

-- GetAvailableMarketsMap gives each identifier the name of its last market, and keeps what the map
-- holds for every other text.
pub get_available_markets_map-last_name :
    (id : String) (m : Assoc String) (markets : List Market)
    → lookup id (get_available_markets_map m markets) ≡ last_name id markets (lookup id m)
unfolding get_available_markets_map
get_available_markets_map-last_name id m [] = refl
get_available_markets_map-last_name id m (v ∷ markets) =
    get_available_markets_map-last_name id (insert v.id v.name m) markets
    ∙ ap (last_name id markets) (lookup-insert v.id id v.name m)
