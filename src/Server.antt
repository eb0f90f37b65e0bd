-- ===== src/Server.antt =====
-- src/networking/server.cpp: the loop that serves a client, and the handlers of its requests. What the
-- client sends until it closes the connection is one text. `handle_order` stands for
-- `handleOrderRequest`, which names members that no header of the repository declares.
pub mod Answers
pub mod Accept
pub mod Main
use trading_matcher.Base.{
  ℕ, zero, suc, Text, codes, Bool, true, false, Option, none, some, List, [], ◌∷◌, ◌++◌,
  if◌then◌else◌,
}
use trading_matcher.Client.{getline, has, is_nil}
use trading_matcher.Json.{Exception, Outcome, JsonLibrary, catching, ◌>>=◌}

-- How the loop ends: with an exception, that of the closed connection included, or in undefined
-- behaviour.
pub data Ending : Type 0 where
  disconnected : Ending
  lost : Ending

-- `read_until` and `getline`: `none` if the connection closes before the end of a line.
unfoldable pub read_line : Text → Option (Text × Text)
read_line text = if has b'\n' text then getline b'\n' text else none

abbrev pub prepend : List Text → Option (List Text × Ending) → Option (List Text × Ending)
prepend out none = none
prepend out (some (more, ending)) = some (out ++ more, ending)

module _ (j : JsonLibrary) (handle_order : j.Json → Outcome Text) where
  unfoldable pub handle_market_data_request : j.Json → Outcome Text
  handle_market_data_request request = do
    field ← j.at request (codes "symbol")
    symbol ← j.as_text field
    Outcome.returned (codes "Market data for " ++ symbol)

  -- `request["type"] == "place_order"`, and what depends on it.
  abbrev pub try_order : j.Json → Outcome Text
  try_order request = do
    type ← j.at request (codes "type")
    if j.is_text type (codes "place_order") then handle_order request else Outcome.returned []

  unfoldable pub process_request : j.Json → Outcome Text
  process_request request =
      catching (λ what. codes "Error processing request: " ++ what)
        (do
          type ← j.at request (codes "type")
          if j.is_text type (codes "fetch_market_data")
              then handle_market_data_request request
              else try_order request)

  -- A round of the loop on a line: what it writes to the socket.
  unfoldable pub answer_line : Text → Outcome (List Text)
  answer_line line = if is_nil line then Outcome.returned [] else (do
    request ← j.parse line
    response ← process_request request
    Outcome.returned ((response ++ b'\n' ∷ []) ∷ []))

  -- `handleClient`, with `fuel` rounds of its loop; `none` if they do not suffice.
  unfoldable pub handle_client : ℕ → Text → Option (List Text × Ending)
  handle_client zero text = none
  handle_client (suc fuel) text = elim (read_line text) [
    | none ↦ some ([], Ending.disconnected)
    | some (line, rest) ↦ elim (answer_line line) [
      | Outcome.returned out ↦ prepend out (handle_client fuel rest)
      | Outcome.thrown exception ↦ some ([], Ending.disconnected)
      | Outcome.undefined ↦ some ([], Ending.lost)
    ]
  ]
