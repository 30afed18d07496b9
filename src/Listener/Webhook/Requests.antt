-- ===== src/Listener/Webhook/Requests.antt =====
-- internal/listener/webhook.go: which requests send an event, and how each is answered.
use mathlib.Core.Path.{subst}
use lp.Base.{
  ℕ, zero, suc, ◌≤◌, ◌<◌, String, Bool, true, false, List, [], ◌∷◌, Option, none, some, ◌≡◌, refl,
  sym, All, not, ◌&&◌, ◌||◌, str_eq, length, take, trim_space, is_empty, ltb, arith, if◌then◌else◌,
}
use lp.Base.Dict.{Dict, get-put, get-empty}
use lp.Base.Dict
use lp.Pipeline.Store.{ok}
use lp.Listener.Event.{Event, PayloadValue, text, raw, object_of}
use lp.Listener.Webhook.{
  Webhook, Request, Body, trim_slash, accept_all, new_webhook, is_accepted, read_limited,
  body_field, body_fields, request_payload, handle_request, body_limit,
}

-- A configured list of events names the event: an empty list names them all.
unfoldable pub names_event : List String → String → Bool
unfolding trim_space
names_event [] name = false
names_event (e ∷ es) name = str_eq (trim_space e) name || names_event es name

abbrev pub wants : List String → String → Bool
wants [] name = true
wants (e ∷ es) name = names_event (e ∷ es) name

get-accept_all :
    (es : List String) (d : Dict Bool) (name : String)
    → is_accepted (Dict.get (accept_all es d) name)
      ≡ names_event es name || is_accepted (Dict.get d name)
unfolding accept_all names_event
get-accept_all [] d name = refl
get-accept_all (e ∷ es) d name = ground (
  arith,
  get-accept_all es (Dict.put d (trim_space e) true) name,
  get-put d (trim_space e) name true,
)

size-put : (d : Dict Bool) (name : String) → 0 < Dict.size (Dict.put d name true)
unfolding Dict.size Dict.put
size-put d name = omega arith

size-accept_all :
    (es : List String) (d : Dict Bool) → 0 < Dict.size d → 0 < Dict.size (accept_all es d)
unfolding accept_all
size-accept_all [] d h = h
size-accept_all (e ∷ es) d h =
    size-accept_all es (Dict.put d (trim_space e) true) (size-put d (trim_space e))

size-empty : Dict.size (Dict.empty {V = Bool}) ≡ 0
unfolding Dict.size Dict.empty
size-empty = refl

some_size : (e : String) (es : List String) → 0 < Dict.size (accept_all (e ∷ es) Dict.empty)
unfolding accept_all
some_size e es =
    size-accept_all es (Dict.put Dict.empty (trim_space e) true)
      (size-put Dict.empty (trim_space e))

refuses :
    (es : List String) (name : String)
    → ltb 0 (Dict.size (accept_all es Dict.empty))
        && not (is_accepted (Dict.get (accept_all es Dict.empty) name))
      ≡ not (wants es name)
refuses [] name = unfold accept_all in ground (arith, size-empty)
refuses (e ∷ es) name =
    ground
      (arith, get-accept_all (e ∷ es) Dict.empty name, get-empty {V = Bool} name, some_size e es)

-- A webhook made for a list of event names sends an event for a request exactly if it is a POST, its
-- path names an event, and the list is empty or has that name up to spaces around it; the event
-- carries the webhook's name and pipeline and the event's name. The answer is 202 then, and
-- otherwise 405 for another method, 400 for a path without a name, and 404.
pub handle_request-new_webhook :
    (is_object : List ℕ → Bool) (name pipeline addr : String) (events : List String) (w : Webhook)
    (r : Request)
    → new_webhook name pipeline addr events ≡ ok w
    → let event_name = trim_slash r.path in
      let answer = handle_request is_object w r in
      (answer.0 ≡ (
        if str_eq r.method "POST" && (not (is_empty event_name) && wants events event_name)
        then some (record {
          listener = name;
          trigger = event_name;
          pipeline = pipeline;
          payload = request_payload is_object event_name r;
        })
        else none))
      × (answer.1.status ≡ (
          if not (str_eq r.method "POST")
          then 405
          else if is_empty event_name
          then 400
          else if wants events event_name
          then 202
          else 404))
unfolding handle_request new_webhook
handle_request-new_webhook is_object name pipeline addr events w r made =
    ground (arith, refuses events (trim_slash r.path), made)

-- The bytes of a payload's value
abbrev pub bytes_of : PayloadValue → List ℕ
bytes_of (text s) = []
bytes_of (raw bytes) = bytes
bytes_of (object_of bytes) = bytes

length-take_le : {A : Type 0} (n : ℕ) (xs : List A) → length (take n xs) ≤ n
length-take_le zero xs = omega arith
length-take_le (suc n) [] = omega arith
length-take_le (suc n) (x ∷ xs) = omega (arith, length-take_le n xs)

-- The payload's values hold at most the limit of bytes.
abbrev pub IsBounded : List (String × PayloadValue) → Type 0
IsBounded = All (λ (f : String × PayloadValue). length (bytes_of f.1) ≤ body_limit)

body_field-IsBounded :
    (is_object : List ℕ → Bool) (bytes : List ℕ)
    → length bytes ≤ body_limit
    → IsBounded (body_field is_object (some bytes))
unfolding body_field
body_field-IsBounded is_object [] h = tt
body_field-IsBounded is_object (b ∷ bs) h = ground arith

limited-le :
    (limit : ℕ) (b : Body) (bytes : List ℕ)
    → (if b.broken && ltb (length b.content) limit then none else some (take limit b.content))
      ≡ some bytes
    → length bytes ≤ limit
limited-le limit b bytes h = ground (arith, length-take_le limit b.content)

read_limited-le :
    (b : Body) (bytes : List ℕ) → read_limited b ≡ some bytes → length bytes ≤ body_limit
unfolding read_limited
read_limited-le b bytes = limited-le body_limit b bytes

optional-IsBounded :
    (is_object : List ℕ → Bool) (o : Option (List ℕ))
    → ((bytes : List ℕ) → o ≡ some bytes → length bytes ≤ body_limit)
    → IsBounded (body_field is_object o)
unfolding body_field
optional-IsBounded is_object none h = tt
optional-IsBounded is_object (some bytes) h = body_field-IsBounded is_object bytes (h bytes refl)

body_fields-IsBounded :
    (is_object : List ℕ → Bool) (body : Option Body) → IsBounded (body_fields is_object body)
unfolding body_fields
body_fields-IsBounded is_object none = tt
body_fields-IsBounded is_object (some b) =
    optional-IsBounded is_object (read_limited b) (read_limited-le b)

every_payload-IsBounded :
    (is_object : List ℕ → Bool) (name : String) (r : Request)
    → IsBounded (request_payload is_object name r)
unfolding request_payload
every_payload-IsBounded is_object name r =
    (omega arith, (omega arith, (omega arith, body_fields-IsBounded is_object r.body)))

sent_payload :
    (is_object : List ℕ → Bool) (w : Webhook) (r : Request) (e : Event)
    → (handle_request is_object w r).0 ≡ some e
    → e.payload ≡ request_payload is_object (trim_slash r.path) r
unfolding handle_request
sent_payload is_object w r e h = ground arith

-- The payload of an event holds at most 1 << 20 bytes of the request's body, whatever is posted.
pub request_payload-IsBounded :
    (is_object : List ℕ → Bool) (w : Webhook) (r : Request) (e : Event)
    → (handle_request is_object w r).0 ≡ some e
    → IsBounded e.payload
request_payload-IsBounded is_object w r e h =
    subst IsBounded (sym (sent_payload is_object w r e h))
      (every_payload-IsBounded is_object (trim_slash r.path) r)
