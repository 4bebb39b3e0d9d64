-- ===== src/Startup/Listing.antt =====
-- buildAvailableMarkets of cmd/consumer/main.go: the names that the service works with.
use ohlcv.Base.{
  ℕ, ◌≡◌, refl, ap, ◌∙◌, inl, inr, Bool, String, List, [], none, map, Assoc, lookup, lookup-empty,
  Result, ok, err, Run, done, panic, ok-injective, sym,
}
use ohlcv.Markets.{Market, Request, Response, Client, HostClient, Config, Url, new_client, list}
use ohlcv.Markets.Listing.{flipped, IsRequest, Answered, new_client-Lists}
use ohlcv.Startup.{get_available_markets_map}
use ohlcv.Startup.Symbols.{last_name, get_available_markets_map-last_name}

-- The settings that main gives.
abbrev pub config_of : String → Bool → Config
config_of server_url server_tls = record {
  server_url = server_url;
  server_tls = server_tls;
  max_conns = none;
  max_conn_duration = none;
  max_idle_conn_duration = none;
  read_buffer_size = none;
  write_buffer_size = none;
  read_timeout = none;
  write_timeout = none;
  max_response_body_size = none;
}

-- A panic stands for log.Fatal.
fatal_or : {A : Type 0} {B : Type 0} → (A → B) → Result A → Run B
fatal_or f (err e) = panic
fatal_or f (ok a) = done (f a)

module _ (status_text : ℕ → String) (unmarshal : String → Result (List Market))
    (exchange : Request → Result Response) where
  listed_by : Result (Client × HostClient) → Run (Assoc String × List Market)
  unfolding fatal_or
  listed_by (err e) = panic
  listed_by (ok (client, host)) =
      fatal_or (λ markets. (get_available_markets_map [] markets, markets))
        (list status_text unmarshal exchange client)

  unfoldable pub build_available_markets :
      (String → Result Url) → String → Bool → String → Run (Assoc String × List Market)
  unfolding listed_by
  build_available_markets parse server_url server_tls token =
      listed_by (new_client parse (config_of server_url server_tls) none token)

  listed :
      (url : Url) (token : String) (res : Response) (ms : List Market) (r : Request)
      (answer : Result (List Market))
      → res.status_code ≡ 200
      → unmarshal res.body ≡ ok ms
      → exchange r ≡ ok res
      → Answered status_text unmarshal exchange r answer
      → answer ≡ ok (map flipped ms)
  listed url token res ms r answer fine body answers (inl (e, fails, _)) = cc
  listed url token res ms r answer fine body answers (inr (res', given, decoded)) =
      let same : res' ≡ res = ok-injective (sym given ∙ answers) in
      decoded.markets (ap (λ x. x.status_code) same ∙ fine) ms
        (ap (λ x. unmarshal x.body) same ∙ body)

  listed_by-done :
      (made : Client × HostClient) (ms : List Market)
      → list status_text unmarshal exchange made.0 ≡ ok ms
      → listed_by (ok made) ≡ done (get_available_markets_map [] ms, ms)
  unfolding listed_by fatal_or
  listed_by-done (client, host) ms e = rw (e, fatal_or) refl

  -- Where the address parses, and the server of the markets answers the one request with the status
  -- 200 and a list of markets, the process goes on with these markets under their flipped names; its
  -- map has, for each identifier, the name of the last market with it, and nothing else.
  pub build_available_markets-named :
      (parse : String → Result Url) (server_url : String) (server_tls : Bool) (token : String)
      (url : Url) (res : Response) (ms : List Market)
      → parse server_url ≡ ok url
      → ((r : Request) → IsRequest url token r → exchange r ≡ ok res)
      → res.status_code ≡ 200
      → unmarshal res.body ≡ ok ms
      → (names : Assoc String) × (build_available_markets parse server_url server_tls token
          ≡ done (names, map flipped ms))
        × ((id : String) → lookup id names ≡ last_name id (map flipped ms) none)
  unfolding build_available_markets
  build_available_markets-named parse server_url server_tls token url res ms parsed answers fine
        body =
      let (client, host, r, made, _, _, asked, answered) =
        new_client-Lists status_text unmarshal exchange parse (config_of server_url server_tls)
          token url parsed in
      let found : list status_text unmarshal exchange client ≡ ok (map flipped ms) =
        listed url token res ms r (list status_text unmarshal exchange client) fine body
          (answers r asked) answered in
      (
        get_available_markets_map [] (map flipped ms),
        rw made (listed_by-done (client, host) (map flipped ms) found),
        λ id.
            get_available_markets_map-last_name id [] (map flipped ms)
            ∙ ap (last_name id (map flipped ms)) (lookup-empty {A = String} id),
      )
