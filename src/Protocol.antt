-- ===== src/Protocol.antt =====
-- server/utils, and the decimal numbers that the messages hold.
pub mod Words
pub mod Arguments
pub mod TokenParser
pub mod Quoting
pub mod RoundTrip
pub mod Lines
pub mod Agreement
pub mod Unclosed
pub mod Numbers
pub mod Events
use myteams.Prelude.{
  ℕ, zero, suc, ◌+◌, ◌/◌, ◌%◌, [], ◌∷◌, ◌++◌, ◌||◌, Text, ◌==◌, ltb, if◌then◌else◌,
}

-- the loop of `Utils::quoteProtocolField`
unfoldable pub escape : Text → Text
escape [] = []
escape (c ∷ s) =
    let rest = escape s in if c == b'\\' || c == b'"' then b'\\' ∷ c ∷ rest else c ∷ rest

unfoldable pub quote_protocol_field : Text → Text
unfolding escape
quote_protocol_field value = b'"' ∷ (escape value ++ b'"' ∷ [])

-- `std::to_string` of a number that is not negative, on as many rounds as it may have digits
decimal : ℕ → ℕ → Text
decimal zero n = []
decimal (suc f) n =
    let front = decimal f (n / 10) in
    if ltb n 10 then (b'0' + n) ∷ [] else front ++ (b'0' + n % 10) ∷ []

unfoldable pub to_string : ℕ → Text
unfolding decimal
to_string n = decimal (suc n) n
