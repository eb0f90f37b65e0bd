-- ===== src/Json.antt =====
-- What the program uses of nlohmann::json, as an interface, and calls that may throw.
use trading_matcher.Base.{Text, Bool}

-- `what` is what the exception's `what()` returns.
pub data Exception : Type 0 where
  parse_error : (what : Text) → Exception
  other : (what : Text) → Exception

abbrev pub what : Exception → Text
what (Exception.parse_error text) = text
what (Exception.other text) = text

-- A value, an exception, or undefined behaviour, as `operator[]` of a constant object has on a key that
-- is not there.
pub data Outcome (A : Type 0) : Type 0 where
  returned : (value : A) → Outcome A
  thrown : (exception : Exception) → Outcome A
  undefined : Outcome A

infixl 5 ◌>>=◌
abbrev pub ◌>>=◌ : {A B : Type 0} → Outcome A → (A → Outcome B) → Outcome B
returned value >>= f = f value
thrown exception >>= f = thrown exception
undefined >>= f = undefined

-- `try … catch (const std::exception& e) …`
abbrev pub catching : {A : Type 0} → (Text → A) → Outcome A → Outcome A
catching handler (returned value) = returned value
catching handler (thrown exception) = returned (handler (what exception))
catching handler undefined = undefined

pub record JsonLibrary : Type 1 where
  pub Json : Type 0
  pub Number : Type 0  -- `double`
  pub parse : Text → Outcome Json
  pub at : Json → Text → Outcome Json  -- `json[key]` of a constant object
  pub member : Json → Text → Outcome Json  -- that of one that is not, which adds null for a missing key
  pub is_text : Json → Text → Bool  -- `json == "text"`
  pub as_text : Json → Outcome Text  -- the conversion to `std::string`
  pub as_number : Json → Outcome Number
