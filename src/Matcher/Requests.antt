-- ===== src/Matcher/Requests.antt =====
-- What an owner may ask for in a market, and what each request does to the entries that wait.
use trading_matcher.Base.{
  ℕ, ◌<◌, ℤ, ◌≡◌, ◌≢◌, pos, ◌⊎◌, Bool, List, [], ◌∷◌, ◌++◌, ◌==◌, if◌then◌else◌,
}
use trading_matcher.OrderBook.View.{is_at}
use trading_matcher.Matcher.{Trade}
use trading_matcher.Matcher.Priority.{Entry, Market, Matching, IsSettled}

pub data Request : Type 0 where
  nothing : Request
  adds : (s : Bool) (price : ℤ) (e : Entry) → Request
  cancels : (id : ℕ) → Request
  modifies : (id : ℕ) (price : ℤ) (quantity : ℕ) → Request
  matches : Request

-- The entries without those of this id.
abbrev pub take_id : ℕ → List Entry → List Entry
take_id id [] = []
take_id id (e ∷ es) = if e.id == id then take_id id es else e ∷ take_id id es

abbrev pub Has : ℕ → List Entry → Type 0
Has id [] = ⊥
Has id (e ∷ es) = (e.id ≡ id) ⊎ Has id es

-- A new entry goes behind the others at its side and price.
abbrev pub Enters : Bool → ℤ → Entry → Market → Market → Type 0
Enters s p e v w =
    (s' : Bool) (p' : ℤ) → w s' p' ≡ (if is_at s p s' p' then v s' p' ++ e ∷ [] else v s' p')

abbrev pub Leaves : ℕ → Market → Market → Type 0
Leaves id v w = (s : Bool) (p : ℤ) → w s p ≡ take_id id (v s p)

-- The market after a request; an entry without a timestamp, or modified, is stamped at some time `t`.
abbrev pub Answers : Request → Market → Market → Type 0
Answers Request.nothing v w = w ≡ v
Answers (Request.adds s price e) v w =
    ((e.quantity ≡ 0) × (w ≡ v))
    ⊎ ((0 < e.quantity)
        × ((t : ℤ) × (e.timestamp_ns ≢ pos 0 → t ≡ e.timestamp_ns)
            × Enters s price (record e { timestamp_ns = t }) v w))
Answers (Request.cancels id) v w = Leaves id v w
Answers (Request.modifies id price quantity) v w =
    (((s : Bool) (p : ℤ) → ¬ Has id (v s p)) × (w ≡ v))
    ⊎ ((s : Bool) × (p : ℤ) × Has id (v s p)
        × (((quantity ≡ 0) × Leaves id v w)
            ⊎ ((0 < quantity)
                × ((t : ℤ) × (u : Market) × Leaves id v u
                    × Enters s price (record { id = id; quantity = quantity; timestamp_ns = t }) u
                        w))))
Answers Request.matches v w = (trades : List Trade) × Matching v trades w × IsSettled w
