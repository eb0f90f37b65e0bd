-- ===== src/Client.antt =====
-- src/networking/client.cpp: the environment file, and the transfers through libcurl, which is a
-- parameter.
pub mod Lines
pub mod Main
pub mod EnvFile
use trading_matcher.Json.{Exception}
use trading_matcher.Base.{
  ◌⊎◌, inl, inr, ℕ, zero, suc, ◌==◌, if◌then◌else◌, Bool, true, false, not, ◌||◌, ◌&&◌, Option,
  none, some, List, [], ◌∷◌, ◌++◌, length, Text, codes, eqb_text,
}

-- What stands before the first delimiter, and what stands after it.
abbrev pub split : ℕ → Text → Text × Text
split delim [] = ([], [])
split delim (c ∷ cs) =
    let (before, after) = split delim cs in if c == delim then ([], cs) else (c ∷ before, after)

-- `std::getline(stream, text, delim)` on what is left of the stream: it fails at the end.
unfoldable pub getline : ℕ → Text → Option (Text × Text)
getline delim [] = none
getline delim (c ∷ cs) = some (split delim (c ∷ cs))

-- `c_str()` as a C function reads it.
abbrev pub c_str : Text → Text
c_str [] = []
c_str (c ∷ cs) = if c == 0 then [] else c ∷ c_str cs

abbrev pub Environment : Type 0
Environment = Text → Option Text

abbrev pub has : ℕ → Text → Bool
has c [] = false
has c (d ∷ ds) = (d == c) || has c ds

abbrev pub is_nil : Text → Bool
is_nil [] = true
is_nil (c ∷ cs) = false

abbrev pub assign : Text → Text → Environment → Environment
assign name value env k = if eqb_text name k then some value else env k

-- `setenv(name, value, 1)`, which refuses an empty name and one with `=`.
abbrev pub setenv : Text → Text → Environment → Environment
setenv name value env = if is_nil name || has b'=' name then env else assign name value env

-- One round of the loop of `loadEnv`: the second `getline`, the first, and both.
abbrev pub store_value : Environment → Text → Option (Text × Text) → Environment
store_value env key none = env
store_value env key (some (value, left)) = setenv (c_str key) (c_str value) env

abbrev pub store_line : Environment → Option (Text × Text) → Environment
store_line env none = env
store_line env (some (key, rest)) = store_value env key (getline b'\n' rest)

unfoldable pub load_line : Environment → Text → Environment
load_line env line = store_line env (getline b'=' line)

-- The loop, with `fuel` rounds; `none` if they do not suffice.
unfoldable pub load_lines : ℕ → Text → Environment → Option Environment
load_lines zero text env = none
load_lines (suc fuel) text env = elim (getline b'\n' text) [
  | none ↦ some env
  | some (line, rest) ↦ load_lines fuel rest (load_line env line)
]

-- `loadEnv`; the file is `none` if it cannot be opened.
unfoldable pub load_env : ℕ → Option Text → Environment → Option Environment
load_env fuel none env = some env
load_env fuel (some text) env = load_lines fuel text env

pub data CurlOption : Type 0 where
  url : (text : Text) → CurlOption
  post_fields : (text : Text) → CurlOption
  timeout : (seconds : ℕ) → CurlOption
  ssl_verify_peer : (value : ℕ) → CurlOption
  ssl_verify_host : (value : ℕ) → CurlOption

-- What `curl_easy_perform` passes to the write callback, in pieces, and whether it returns CURLE_OK.
pub record Transfer : Type 0 where
  pub pieces : List Text
  pub ok : Bool

pub record Curl : Type 0 where
  pub starts : Bool  -- `curl_easy_init()` is not null
  pub perform : List CurlOption → Transfer

-- What is written to the standard streams.
pub data Message : Type 0 where
  curl_error : Message
  init_failed : Message
  response : (body : Text) → Message

-- `WriteCallback`: the new buffer, and the result.
unfoldable pub write_callback : Text → Text → Text × ℕ
write_callback buffer contents = (buffer ++ contents, length contents)

abbrev pub write_all : Text → List Text → Text
unfolding write_callback
write_all buffer [] = buffer
write_all buffer (piece ∷ pieces) = write_all (write_callback buffer piece).0 pieces

-- What they return and write if libcurl does not start.
abbrev pub not_started : Text × List Message
not_started = ([], init_failed ∷ response [] ∷ [])

-- The part that `fetchMarketData` and `sendRequestToServer` share, from the options on.
unfoldable pub transfer : Curl → List CurlOption → Text × List Message
unfolding write_all
transfer curl options =
    if curl.starts
    then (let result = curl.perform options in
        let body = write_all [] result.pieces in
        (body, (if result.ok then [] else curl_error ∷ []) ++ response body ∷ []))
    else not_started

unfoldable pub fetch_market_data : Curl → Text → Text → Text × List Message
fetch_market_data curl api_key symbol = transfer curl (
    url (
      codes "https://www.alphavantage.co/query?function=TIME_SERIES_INTRADAY&symbol="
      ++ symbol
      ++ codes "&interval=5min&apikey="
      ++ api_key)
    ∷ timeout 10
    ∷ ssl_verify_peer 0
    ∷ ssl_verify_host 0
    ∷ [])

abbrev pub request_options : Text → Text → List CurlOption
request_options server_address request_data =
    url server_address
    ∷ post_fields request_data
    ∷ timeout 10
    ∷ ssl_verify_peer 0
    ∷ ssl_verify_host 0
    ∷ []

-- `dumped` is what `requestJson.dump()` comes to: a text, or an exception that leaves the function,
-- before anything is written. It is not called if libcurl does not start.
unfoldable pub send_request_to_server :
    Curl → Text → Text ⊎ Exception → (Text × List Message) ⊎ Exception
send_request_to_server curl server_address dumped =
    if curl.starts
    then (elim dumped [
      | inl request_data ↦ inl (transfer curl (request_options server_address request_data))
      | inr exception ↦ inr exception
    ])
    else inl not_started
