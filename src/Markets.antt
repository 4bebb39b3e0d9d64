-- ===== src/Markets.antt =====
-- client/market: the client of the markets with its transport, its errors and its cache, and
-- NormalizeMarketName of domain/market.go.
pub mod Names
pub mod Listing
use Prim.Native.String.{◌++◌ as text_append}
use ohlcv.Base.{
  ℕ, suc, ◌≡◌, Bool, String, List, [], ◌∷◌, Option, none, some, ℤ, pos, str_eq, ◌==◌, Result, ok,
  err, ◌>>=◌, not, if◌then◌else◌,
}
use ohlcv.Text.{trim_space, index, take_text, drop_text, replace}

pub record Currency : Type 0 where
  pub id : String
  pub symbol : String
  pub precision : ℕ

pub record Market : Type 0 where
  pub id : String
  pub name : String
  pub base_currency : Currency
  pub quoted_currency : Currency
  pub maker_fee : String
  pub taker_fee : String
  pub precision : ℤ
  pub base_precision : ℤ
  pub quoted_precision : ℤ
  pub order_min_amount : String
  pub order_min_price : String
  pub order_min_size : String
  pub order_price_deviation_percent : String
  pub is_volatile : Bool

-- Of a separator of one character: from behind it, "_", and up to it.
unfoldable pub flip_markets : String → String → String
unfolding index take_text drop_text
flip_markets s sep = elim (index s sep) [
  | none ↦ s
  | some i ↦ text_append (drop_text (suc i) s) (text_append "_" (take_text i s))
]

unfoldable pub normalize_market_name : String → String
unfolding replace
normalize_market_name market = replace (replace market "%2F" "_") "/" "_"

-- The parts of a fasthttp.Request that are set, and of a Response that are read.
pub record Request : Type 0 where
  pub method : String
  pub request_uri : String
  pub authorization : String
  pub content_type : String

pub record Response : Type 0 where
  pub status_code : ℕ
  pub body : String

abbrev pub no_request : Request
no_request = record { method = ""; request_uri = ""; authorization = ""; content_type = "" }

-- The loop of DecodeResponse.
unfoldable pub flip_names : List Market → List Market
flip_names [] = []
flip_names (m ∷ markets) = record m { name = flip_markets m.name "/" } ∷ flip_names markets

-- `http.StatusText` is a table of net/http.
module _ (status_text : ℕ → String) (unmarshal : String → Result (List Market)) where
  -- Decode of the ErrorProcessor: the message of its httpError.
  unfoldable pub decode_error : Response → String
  decode_error r =
      let msg = trim_space r.body in if str_eq msg "" then status_text r.status_code else msg

  unfoldable pub decode_response : Response → Result (List Market)
  unfolding decode_error
  decode_response r =
      if not (r.status_code == 200)
      then err (decode_error r)
      else (unmarshal r.body >>= λ the_response. ok (flip_names the_response))

-- listTransport, and client with the option that it holds for List; its host client is a parameter.
pub record ListTransport : Type 0 where
  pub path_template : String
  pub method : String

unfoldable pub encode_request : ListTransport → Request → String → Request
encode_request t r token = record r {
  method = t.method;
  request_uri = t.path_template;
  authorization = token;
  content_type = "application/json";
}

pub record Client : Type 0 where
  pub transport_list : ListTransport
  pub list_option : Option (Request → Request)
  pub token : String

prepared : Option (Request → Request) → Request → Request
prepared none req = req
prepared (some opt) req = opt req

-- `exchange` is Do of the fasthttp.HostClient.
module _ (status_text : ℕ → String) (unmarshal : String → Result (List Market))
    (exchange : Request → Result Response) where
  unfoldable pub list : Client → Result (List Market)
  unfolding prepared encode_request decode_response
  list s =
      exchange (encode_request s.transport_list (prepared s.list_option no_request) s.token)
      >>= λ res. decode_response status_text unmarshal res

-- What is read of a parsed URL.
pub record Url : Type 0 where
  pub scheme : String
  pub host : String
  pub path : String

-- Config, and the settings of a fasthttp.HostClient, whose zero values are its defaults.
pub record Config : Type 0 where
  pub server_url : String
  pub server_tls : Bool
  pub max_conns : Option ℤ
  pub max_conn_duration : Option ℤ
  pub max_idle_conn_duration : Option ℤ
  pub read_buffer_size : Option ℤ
  pub write_buffer_size : Option ℤ
  pub read_timeout : Option ℤ
  pub write_timeout : Option ℤ
  pub max_response_body_size : Option ℤ

pub record HostClient : Type 0 where
  pub addr : String
  pub is_tls : Bool
  pub max_conns : ℤ
  pub max_conn_duration : ℤ
  pub max_idle_conn_duration : ℤ
  pub read_buffer_size : ℤ
  pub write_buffer_size : ℤ
  pub read_timeout : ℤ
  pub write_timeout : ℤ
  pub max_response_body_size : ℤ

-- `if config.X != nil { cli.X = *config.X }`
set_or_zero : Option ℤ → ℤ
set_or_zero none = pos 0
set_or_zero (some n) = n

unfoldable pub host_client : Url → Config → HostClient
unfolding set_or_zero
host_client url config = record {
  addr = url.host;
  is_tls = config.server_tls;
  max_conns = set_or_zero config.max_conns;
  max_conn_duration = set_or_zero config.max_conn_duration;
  max_idle_conn_duration = set_or_zero config.max_idle_conn_duration;
  read_buffer_size = set_or_zero config.read_buffer_size;
  write_buffer_size = set_or_zero config.write_buffer_size;
  read_timeout = set_or_zero config.read_timeout;
  write_timeout = set_or_zero config.write_timeout;
  max_response_body_size = set_or_zero config.max_response_body_size;
}

-- The end of New, once the URL of the server has been parsed.
new_of_url : Url → Config → Option (Request → Request) → String → Client × HostClient
new_of_url url config option token = (
  record {
    transport_list = record {
      path_template =
          text_append url.scheme (
            text_append "://" (text_append url.host (text_append url.path "/v1/internal/markets")));
      method = "GET";
    };
    list_option = option;
    token = token;
  },
  host_client url config,
)

-- New, with the host client that it makes; `parse` is url.Parse.
unfoldable pub new_client :
    (String → Result Url)
    → Config
    → Option (Request → Request)
    → String
    → Result (Client × HostClient)
unfolding new_of_url host_client
new_client parse config option token = elim (parse config.server_url) [
  | err e ↦ err (text_append "failed to parse server url: " e)
  | ok url ↦ ok (new_of_url url config option token)
]

-- cache: the last answer. NewCache runs `load` at once and every 30 seconds, beside its callers.
pub record Cache : Type 0 where
  pub markets : List Market
  pub error : Option String

abbrev pub new_cache : Cache
new_cache = record { markets = []; error = none }

unfoldable pub load : Result (List Market) → Cache
load (ok markets) = record { markets = markets; error = none }
load (err e) = record { markets = []; error = some e }

unfoldable pub cached_list : Cache → Result (List Market)
cached_list c = elim c.error [ none ↦ ok c.markets | some e ↦ err e ]
