-- ===== src/Markets/Listing.antt =====
-- What the client of the markets asks for, and what it answers.
use Prim.Native.String.{◌++◌ as text_append}
use ohlcv.Base.{
  ◌≡◌, ◌≢◌, ℕ, refl, ◌⊎◌, inl, inr, String, List, [], ◌∷◌, none, map, Result, ok, err, Result-cases,
  ==_iff, eq_iff, arith, ◌>>=◌, ap,
}
use ohlcv.Text.{trim_space}
use ohlcv.Text.Spaces.{IsBlank, trim_space-empty_iff}
use ohlcv.Markets.{
  Market, Request, Response, Client, HostClient, Config, Url, new_client, new_of_url, list,
  decode_response, decode_error, flip_names, flip_markets, encode_request, prepared, host_client,
  no_request,
}

-- The request of a client that New has made.
pub record IsRequest (url : Url) (token : String) (r : Request) : Type 0 where
  pub method : r.method ≡ "GET"
  pub request_uri :
      r.request_uri
      ≡ text_append url.scheme
          (text_append "://" (text_append url.host (text_append url.path "/v1/internal/markets")))
  pub authorization : r.authorization ≡ token
  pub content_type : r.content_type ≡ "application/json"

abbrev pub flipped : Market → Market
flipped m = record m { name = flip_markets m.name "/" }

flip_names-map : (ms : List Market) → flip_names ms ≡ map flipped ms
unfolding flip_names
flip_names-map [] = refl
flip_names-map (m ∷ ms) = ap (λ rest. flipped m ∷ rest) (flip_names-map ms)

module _ (status_text : ℕ → String) (unmarshal : String → Result (List Market)) where
  -- What a response comes to: with the status 200 the markets of its body, their names flipped, or
  -- the error of its body; else an error, whose message is the body's unless that is blank.
  pub record IsDecoded (r : Response) (answer : Result (List Market)) : Type 0 where
    pub markets :
        r.status_code ≡ 200
        → (ms : List Market) → unmarshal r.body ≡ ok ms
        → answer ≡ ok (map flipped ms)
    pub no_markets : r.status_code ≡ 200 → (e : String) → unmarshal r.body ≡ err e → answer ≡ err e
    pub blank : r.status_code ≢ 200 → IsBlank r.body → answer ≡ err (status_text r.status_code)
    pub message : r.status_code ≢ 200 → (IsBlank r.body → ⊥) → answer ≡ err (trim_space r.body)

  decode_response-IsDecoded : (r : Response) → IsDecoded r (decode_response status_text unmarshal r)
  unfolding decode_response decode_error
  decode_response-IsDecoded r = record {
    markets = λ s ms e. rw ((==_iff r.status_code 200).1 s, e, flip_names-map ms) refl;
    no_markets = λ s x e. rw ((==_iff r.status_code 200).1 s, e) refl;
    blank = λ s b. ground (arith, (trim_space-empty_iff r.body).1 b, eq_iff (trim_space r.body) "");
    message = λ s b. ground (
      arith,
      λ (e : trim_space r.body ≡ ""). b ((trim_space-empty_iff r.body).0 e),
      eq_iff (trim_space r.body) "",
    );
  }

module _ (status_text : ℕ → String) (unmarshal : String → Result (List Market))
    (exchange : Request → Result Response) where
  -- What List answers: the error of the exchange, or what the response comes to.
  abbrev pub Answered : Request → Result (List Market) → Type 0
  Answered r answer =
      ((e : String) × (exchange r ≡ err e) × (answer ≡ err e))
      ⊎ ((res : Response) × (exchange r ≡ ok res) × IsDecoded status_text unmarshal res answer)

  bound-Answered :
      (r : Request) → Answered r (exchange r >>= λ res. decode_response status_text unmarshal res)
  bound-Answered r = elim (Result-cases (exchange r)) [
    | inl (e, fails) ↦ inl (e, fails, rw fails refl)
    | inr (res, answers) ↦
        inr (res, answers, rw answers (decode_response-IsDecoded status_text unmarshal res))
  ]

  -- A client that New has made for a URL that parses sends one request, with the given token; its
  -- answer is the error of the exchange, or what the response comes to.
  pub new_client-Lists :
      (parse : String → Result Url) (config : Config) (token : String) (url : Url)
      → parse config.server_url ≡ ok url
      → (client : Client) × (host : HostClient) × (r : Request) × (new_client parse config none
            token
          ≡ ok (client, host))
        × (host.addr ≡ url.host)
        × (host.is_tls ≡ config.server_tls)
        × IsRequest url token r
        × Answered r (list status_text unmarshal exchange client)
  unfolding new_client list encode_request prepared host_client new_of_url
  new_client-Lists parse config token url e =
      let made = new_of_url url config none token in
      let r = encode_request made.0.transport_list no_request token in
      (
        made.0,
        made.1,
        r,
        rw (e, new_client) refl,
        refl,
        refl,
        record { method = refl; request_uri = refl; authorization = refl; content_type = refl },
        bound-Answered r,
      )
