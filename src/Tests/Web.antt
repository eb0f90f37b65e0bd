-- ===== src/Tests/Web.antt =====
-- A server and a handler of market data over a JSON library of three documents.
use trading_matcher.Base.{
  ◌≡◌, refl, true, false, some, List, [], ◌∷◌, ◌++◌, ◌||◌, Text, codes, eqb_text, if◌then◌else◌, ℕ,
}
use trading_matcher.Json.{Exception, Outcome, JsonLibrary}
use trading_matcher.Server.{
  Ending, read_line, handle_market_data_request, process_request, answer_line, handle_client,
}
use trading_matcher.Server.Answers.{sent, lines, answers, handle_client-answers}
use trading_matcher.Client.{
  Environment, getline, is_nil, Curl, Message, write_callback, transfer, fetch_market_data,
}
use trading_matcher.Client.Lines.{Lacks-has}
use trading_matcher.MarketData.{Notice, read_fields, parse_market_data, update_market_data}

-- The documents are `{m`, a request for market data, `{o`, an order, and `{}`, without members.
abbrev documents : JsonLibrary
documents = record {
  Json = Text;
  Number = ℕ;
  parse = λ text.
      if eqb_text text (codes "{m") || eqb_text text (codes "{o") || eqb_text text (codes "{}")
      then Outcome.returned text
      else Outcome.thrown (Exception.parse_error (codes "unexpected"));
  at = λ json key.
      if eqb_text json (codes "{}")
      then Outcome.undefined
      else (if eqb_text key (codes "type")
          then Outcome.returned
              (codes (if eqb_text json (codes "{m") then "fetch_market_data" else "place_order"))
          else Outcome.returned (codes "IBM"));
  member = λ json key. Outcome.returned [];
  is_text = eqb_text;
  as_text = λ json.
      if is_nil json
      then Outcome.thrown (Exception.other (codes "type"))
      else Outcome.returned json;
  as_number = λ json. Outcome.returned 0;
}

-- Every order is refused with an exception.
abbrev refuse : Text → Outcome Text
refuse order = Outcome.thrown (Exception.other (codes "no"))

abbrev exchange : List (Text × List Text)
exchange =
    (codes "{m", codes "Market data for IBM\n" ∷ [])
    ∷ ([], [])
    ∷ (codes "{o", codes "Error processing request: no\n" ∷ [])
    ∷ []

handle_client-answers_example :
    (handle_client documents refuse 4 (sent (lines exchange) (codes "{m"))
      ≡ some (answers exchange, Ending.disconnected))
    × (handle_client documents refuse 4
          (sent (lines exchange) (codes "junk" ++ b'\n' ∷ codes "{m\n"))
        ≡ some (answers exchange, Ending.disconnected))
unfolding answer_line process_request handle_market_data_request
handle_client-answers_example =
    handle_client-answers documents refuse exchange (codes "{m") (codes "junk") (codes "{m\n")
      (Exception.parse_error (codes "unexpected"))
      (
        Lacks-has b'\n' (codes "{m") refl,
        refl,
        (tt, refl, (Lacks-has b'\n' (codes "{o") refl, refl, tt)),
      )
      (Lacks-has b'\n' (codes "{m") refl) (Lacks-has b'\n' (codes "junk") refl) (λ e. absurd (cc))
      refl

-- A request without a type.
lost_run :
    handle_client documents refuse 2 (codes "{m\n{}\n")
    ≡ some (codes "Market data for IBM\n" ∷ [], Ending.lost)
unfolding handle_client read_line getline answer_line process_request handle_market_data_request
lost_run = refl

-- The service answers with a document that has none of the fields.
abbrev note : Curl
note = record {
  starts = true;
  perform = λ options. record { pieces = codes "{" ∷ codes "}" ∷ []; ok = true };
}

abbrev keyed : Environment
keyed name = some (codes "k")

-- The exception of the conversion is not caught.
escapes_run : update_market_data documents note keyed (codes "IBM") ≡ (
  Notice.fetching (Message.response (codes "{}")) ∷ Notice.processing ∷ [],
  Outcome.thrown (Exception.other (codes "type")),
)
unfolding update_market_data parse_market_data fetch_market_data transfer write_callback read_fields
escapes_run = refl

-- Nothing is processed when libcurl does not start, and a document of another kind is reported.
market_data_run :
    (update_market_data documents (record note { starts = false }) keyed (codes "IBM") ≡ (
      Notice.fetching Message.init_failed ∷ Notice.fetching (Message.response []) ∷ [],
      Outcome.returned tt,
    ))
    × (parse_market_data documents (codes "junk")
        ≡ (Notice.parse_failed (codes "unexpected") ∷ [], Outcome.returned tt))
unfolding update_market_data parse_market_data read_fields fetch_market_data transfer write_callback
market_data_run = (refl, refl)
