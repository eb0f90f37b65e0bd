-- ===== src/MarketData.antt =====
-- src/market_data/MarketDataHandler.cpp, over the transfer of `Client` and the JSON library.
use trading_matcher.Base.{Text, codes, none, some, List, [], ◌∷◌, ◌++◌, if◌then◌else◌}
use trading_matcher.Client.{Environment, Curl, Message, is_nil, fetch_market_data}
use trading_matcher.Json.{Exception, Outcome, JsonLibrary, ◌>>=◌}

module _ (j : JsonLibrary) where
  -- What is written to the standard streams.
  pub data Notice : Type 0 where
    fetching : (message : Message) → Notice
    processing : Notice
    data_read : (symbol : Text) (close_price : j.Number) → Notice
    parse_failed : (what : Text) → Notice

  -- The two fields that are read.
  unfoldable pub read_fields : j.Json → Outcome (Text × j.Number)
  read_fields json = do
    meta ← j.member json (codes "Meta Data")
    symbol_field ← j.member meta (codes "2. Symbol")
    symbol ← j.as_text symbol_field
    series ← j.member json (codes "Time Series (5min)")
    entry ← j.member series (codes "2023-09-22 16:00:00")
    close_field ← j.member entry (codes "4. close")
    close_price ← j.as_number close_field
    Outcome.returned (symbol, close_price)

  -- The handler of `parseMarketData`, which is for `parse_error` only.
  abbrev pub caught : List Notice → Exception → List Notice × Outcome Unit
  caught notices (Exception.parse_error what) =
      (notices ++ Notice.parse_failed what ∷ [], Outcome.returned tt)
  caught notices (Exception.other what) = (notices, Outcome.thrown (Exception.other what))

  abbrev pub print_fields : Outcome (Text × j.Number) → List Notice × Outcome Unit
  print_fields (Outcome.returned (symbol, close_price)) =
      (Notice.processing ∷ Notice.data_read symbol close_price ∷ [], Outcome.returned tt)
  print_fields (Outcome.thrown exception) = caught (Notice.processing ∷ []) exception
  print_fields Outcome.undefined = (Notice.processing ∷ [], Outcome.undefined)

  abbrev pub parse_result : Outcome j.Json → List Notice × Outcome Unit
  unfolding read_fields
  parse_result (Outcome.returned json) = print_fields (read_fields json)
  parse_result (Outcome.thrown exception) = caught [] exception
  parse_result Outcome.undefined = ([], Outcome.undefined)

  unfoldable pub parse_market_data : Text → List Notice × Outcome Unit
  unfolding parse_result
  parse_market_data json_data = parse_result (j.parse json_data)

  abbrev pub fetched : List Message → List Notice
  fetched [] = []
  fetched (message ∷ messages) = Notice.fetching message ∷ fetched messages

  -- `updateMarketData`. A variable that is not set gives a null pointer, of which no string can be
  -- made.
  unfoldable pub update_market_data : Curl → Environment → Text → List Notice × Outcome Unit
  update_market_data curl env symbol = elim (env (codes "ALPHA_VANTAGE_API_KEY")) [
    | none ↦ ([], Outcome.undefined)
    | some api_key ↦
        let (market_data_json, messages) = fetch_market_data curl api_key symbol in
        let (notices, outcome) = parse_market_data market_data_json in
        if is_nil market_data_json
        then (fetched messages, Outcome.returned tt)
        else (fetched messages ++ notices, outcome)
  ]
