-- ===== src/Listener/Webhook/Tests.antt =====
-- A webhook for two events, and requests to it.
use lp.Base.{
  ℕ, String, Bool, false, List, [], ◌∷◌, none, some, ◌≡◌, refl, not, ◌&&◌, str_eq, is_empty,
  if◌then◌else◌,
}
use lp.Base.Dict
use lp.Pipeline.Store.{ok}
use lp.Listener.Event.{Event}
use lp.Listener.Webhook.{
  Webhook, Request, accept_all, new_webhook, trim_slash, request_payload, handle_request,
}
use lp.Listener.Webhook.Requests.{
  wants, IsBounded, handle_request-new_webhook, request_payload-IsBounded,
}

abbrev events : List String
events = "push" ∷ " tag " ∷ []

abbrev hook : Webhook
hook = record {
  name = "hook";
  pipeline = "build";
  addr = ":9090";
  events = accept_all events Dict.empty;
  done = false;
}

abbrev not_json : List ℕ → Bool
not_json bytes = false

abbrev post_tag : Request
post_tag = record {
  method = "POST";
  path = "/tag";
  remote = "localhost";
  body = some (record { content = 1 ∷ 2 ∷ []; broken = false });
}

hook_made : new_webhook "hook" "build" ":9090" events ≡ ok hook
unfolding new_webhook
hook_made = refl

handle_request-new_webhook_example :
    ((handle_request not_json hook post_tag).0 ≡ (
      if str_eq "POST" "POST"
        && (not (is_empty (trim_slash "/tag")) && wants events (trim_slash "/tag"))
      then some (record {
        listener = "hook";
        trigger = trim_slash "/tag";
        pipeline = "build";
        payload = request_payload not_json (trim_slash "/tag") post_tag;
      })
      else none))
    × ((handle_request not_json hook post_tag).1.status ≡ (
        if not (str_eq "POST" "POST")
        then 405
        else if is_empty (trim_slash "/tag")
        then 400
        else if wants events (trim_slash "/tag")
        then 202
        else 404))
handle_request-new_webhook_example =
    handle_request-new_webhook not_json "hook" "build" ":9090" events hook post_tag hook_made

abbrev tag_event : Event
tag_event = record {
  listener = "hook";
  trigger = "tag";
  pipeline = "build";
  payload = request_payload not_json "tag" post_tag;
}

tag_sent : (handle_request not_json hook post_tag).0 ≡ some tag_event
unfolding handle_request accept_all Dict.get Dict.put Dict.empty Dict.size
tag_sent = refl

request_payload-IsBounded_example : IsBounded tag_event.payload
request_payload-IsBounded_example =
    request_payload-IsBounded not_json hook post_tag tag_event tag_sent
