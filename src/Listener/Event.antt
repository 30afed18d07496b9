-- ===== src/Listener/Event.antt =====
-- internal/listener/event.go.
use lp.Base.{ℕ, String, List}

-- The values that the listeners put into a payload: a text, the raw bytes of a request's body, or
-- the object that json.Unmarshal reads from such bytes.
pub data PayloadValue : Type 0 where
  text : String → PayloadValue
  raw : List ℕ → PayloadValue
  object_of : List ℕ → PayloadValue

-- Event
pub record Event : Type 0 where
  pub listener : String
  pub trigger : String
  pub pipeline : String
  pub payload : List (String × PayloadValue)
