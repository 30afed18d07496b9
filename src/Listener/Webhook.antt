-- ===== src/Listener/Webhook.antt =====
-- internal/listener/webhook.go: a listener that answers HTTP requests. What net/http does is a
-- parameter: a request comes with its fields, and an answer is a value.
mod Requests
mod Tests
use lp.Base.{
  ℕ, String, Bool, true, false, List, [], ◌∷◌, Option, none, some, ◌==◌, ltb, not, ◌&&◌, str_eq,
  length, take, trim_space, is_empty, if◌then◌else◌,
}
use Prim.Native.Char.{code}
use lp.Base.Dict.{Dict}
use lp.Base.Dict
use lp.Errors.{GoError, missing_addr, webhook_listen, webhook_serve}
use lp.Pipeline.Store.{Fallible, ok, err}
use lp.Listener.Event.{Event, PayloadValue, text, raw, object_of}

-- Webhook, without the HTTP server; `done` says whether the channel is closed.
pub record Webhook : Type 0 where
  pub name : String
  pub pipeline : String
  pub addr : String
  pub events : Dict Bool
  pub done : Bool

-- The loop of NewWebhook
unfoldable pub accept_all : List String → Dict Bool → Dict Bool
unfolding trim_space
accept_all [] accepted = accepted
accept_all (e ∷ es) accepted = accept_all es (Dict.put accepted (trim_space e) true)

-- NewWebhook
unfoldable pub new_webhook : String → String → String → List String → Fallible Webhook
unfolding is_empty accept_all
new_webhook name pipeline addr events =
    if is_empty addr
    then err missing_addr
    else ok (record {
      name = name;
      pipeline = pipeline;
      addr = addr;
      events = accept_all events Dict.empty;
      done = false;
    })

-- Stop: the once makes a second call do nothing; the error is always nil.
unfoldable pub stop_webhook : Webhook → Webhook
stop_webhook w = record w { done = true }

-- A request's body: its bytes, and whether reading fails behind them.
pub record Body : Type 0 where
  pub content : List ℕ
  pub broken : Bool

-- http.Request, as far as the handler reads it; a nil body is none.
pub record Request : Type 0 where
  pub method : String
  pub path : String
  pub remote : String
  pub body : Option Body

-- The answer: the status, and what is written by its format and operands.
pub record Answer : Type 0 where
  pub status : ℕ
  pub format : String
  pub args : List String

-- 1 << 20
abbrev pub body_limit : ℕ
body_limit = 0x100000

-- strings.TrimPrefix(path, "/")
unfoldable pub trim_slash : String → String
trim_slash String.[] = String.[]
trim_slash (String.◌∷◌ c s) = if code c == b'/' then s else String.◌∷◌ c s

-- io.ReadAll(io.LimitReader(body, 1<<20)): none is an error, met within the limit.
unfoldable pub read_limited : Body → Option (List ℕ)
read_limited b =
    if b.broken && ltb (length b.content) body_limit then none else some (take body_limit b.content)

-- !w.events[eventName]; a missing key gives false.
abbrev pub is_accepted : Option Bool → Bool
is_accepted none = false
is_accepted (some b) = b

-- What `payload["body"]` is set to, if it is; `is_object` says whether json.Unmarshal succeeds.
unfoldable pub body_field : (List ℕ → Bool) → Option (List ℕ) → List (String × PayloadValue)
body_field is_object none = []
body_field is_object (some []) = []
body_field is_object (some (b ∷ bs)) =
    ("body", if is_object (b ∷ bs) then object_of (b ∷ bs) else raw (b ∷ bs)) ∷ []

unfoldable pub body_fields : (List ℕ → Bool) → Option Body → List (String × PayloadValue)
unfolding body_field read_limited
body_fields is_object none = []
body_fields is_object (some b) = body_field is_object (read_limited b)

-- The payload of the event for a request
unfoldable pub request_payload : (List ℕ → Bool) → String → Request → List (String × PayloadValue)
unfolding body_fields
request_payload is_object event_name r =
    ("event", text event_name)
    ∷ ("method", text r.method)
    ∷ ("remote", text r.remote)
    ∷ body_fields is_object r.body

-- The handler that Start registers: the event sent, if any, and the answer
unfoldable pub handle_request : (List ℕ → Bool) → Webhook → Request → Option Event × Answer
unfolding request_payload trim_slash is_empty
handle_request is_object w r =
    let event_name : String = trim_slash r.path in
    if not (str_eq r.method "POST")
    then (none, record { status = 405; format = "method not allowed"; args = [] })
    else if is_empty event_name
    then (none, record { status = 400; format = "missing event name in path"; args = [] })
    else if ltb 0 (Dict.size w.events) && not (is_accepted (Dict.get w.events event_name))
    then (none, record { status = 404; format = "event %q not accepted"; args = event_name ∷ [] })
    else (
      some (record {
        listener = w.name;
        trigger = event_name;
        pipeline = w.pipeline;
        payload = request_payload is_object event_name r;
      }),
      record { status = 202; format = "{\"status\":\"accepted\"}\n"; args = [] },
    )

-- What Serve returns: ErrServerClosed after a shutdown, or another error.
pub data ServeEnd : Type 0 where
  server_closed : ServeEnd
  serve_failed : GoError → ServeEnd

-- What Start returns, given the error of net.Listen and the end of Serve
unfoldable pub webhook_result : Webhook → Option GoError → ServeEnd → Option GoError
webhook_result w (some e) served = some (webhook_listen w.name e)
webhook_result w none server_closed = none
webhook_result w none (serve_failed e) = some (webhook_serve w.name e)
