-- ===== src/Server/Hub.antt =====
-- cmd/server/ws.go: the hub of WebSocket connections. A connection is its number; the network is a
-- parameter, in a state `N`. A method that takes the lock is one step.
mod Clients
mod Tests
use lp.Base.{
  ℕ, String, Bool, true, false, List, [], ◌∷◌, ◌++◌, Option, none, some, ◌==◌, not, ◌<>◌, length,
  keep_if, str_eq, is_empty, if◌then◌else◌,
}
use lp.Server.State.{WsEvent}
use lp.Server.Frames.{frame_header}

-- net.Conn: Write, whose answer is false for an error, and Close
pub record Network (N : Type 0) : Type 0 where
  pub write : ℕ → List ℕ → N → Bool × N
  pub close : ℕ → N → N

-- wsHub, with the network; `clients` is the set of the connections in the map.
pub record Hub (N : Type 0) : Type 0 where
  pub clients : List ℕ
  pub net : N

-- What wsReadFrame returns to readPump: an error, or an opcode.
pub data FrameRead : Type 0 where
  read_failed : FrameRead
  got_opcode : ℕ → FrameRead

-- http.Request and http.ResponseWriter, as far as handleUpgrade uses them: two headers, and what Hijack
-- gives: none if it is not supported, an error, or the connection.
pub data Hijacked : Type 0 where
  unsupported : Hijacked
  hijack_failed : String → Hijacked
  hijacked : ℕ → Hijacked

pub record UpgradeRequest : Type 0 where
  pub upgrade : String
  pub key : String
  pub hijack : Hijacked

-- How handleUpgrade answers: http.Error with a status, or the text that it writes on the connection
pub data UpgradeAnswer : Type 0 where
  refused : ℕ → String → UpgradeAnswer
  switched : ℕ → String → UpgradeAnswer

-- wsAcceptKey; `digest` is the base64 text of the SHA-1 of a text.
unfoldable pub ws_accept_key : (String → String) → String → String
ws_accept_key digest key = digest (key <> "258EAFA5-E914-47DA-95CA-C5AB0DC85B11")

unfoldable pub has_client : ℕ → List ℕ → Bool
has_client c [] = false
has_client c (x ∷ xs) = if x == c then true else has_client c xs

-- The time of an event without one
unfoldable pub stamp : ℕ → WsEvent → WsEvent
stamp now e = if e.time == 0 then record e { time = now } else e

module _ {N : Type 0} where
  -- newWSHub
  unfoldable pub new_ws_hub : N → Hub N
  new_ws_hub net = record { clients = []; net = net }

  -- addClient
  unfoldable pub add_client : ℕ → Hub N → Hub N
  unfolding has_client
  add_client c h = record h {
    clients = if has_client c h.clients then h.clients else c ∷ h.clients;
  }

-- The response of handleUpgrade
unfoldable pub upgrade_response : (String → String) → String → String
unfolding ws_accept_key
upgrade_response digest key =
    "HTTP/1.1 101 Switching Protocols\r\nUpgrade: websocket\r\nConnection: Upgrade\r\nSec-WebSocket-Accept: "
    <> (ws_accept_key digest key <> "\r\n\r\n")

-- handleUpgrade, but for the start of readPump
unfoldable pub handle_upgrade :
    {N : Type 0} → (String → String) → UpgradeRequest → Hub N → UpgradeAnswer × Hub N
unfolding upgrade_response add_client is_empty
handle_upgrade digest r h =
    if not (str_eq r.upgrade "websocket")
    then (refused 400 "expected websocket upgrade", h)
    else if is_empty r.key
    then (refused 400 "missing Sec-WebSocket-Key", h)
    else elim r.hijack [
      | unsupported ↦ (refused 500 "server does not support hijacking", h)
      | hijack_failed e ↦ (refused 500 e, h)
      | hijacked c ↦ (switched c (upgrade_response digest r.key), add_client c h)
    ]

module _ {N : Type 0} (io : Network N) where
  -- removeClient
  unfoldable pub remove_client : ℕ → Hub N → Hub N
  remove_client c h = record {
    clients = keep_if (λ x. not (x == c)) h.clients;
    net = io.close c h.net;
  }

  -- wsWriteFrame: false for an error
  unfoldable pub write_frame : ℕ → ℕ → List ℕ → N → Bool × N
  write_frame c opcode payload net =
      let (wrote, net') = io.write c (frame_header opcode (length payload)) net in
      elim wrote [
        | false ↦ (false, net')
        | true ↦ elim payload [ [] ↦ (true, net') | b ∷ bs ↦ io.write c (b ∷ bs) net' ]
      ]

  -- One round of the loop of broadcast: writeText, and removeClient on an error
  unfoldable pub send_text : List ℕ → ℕ → Hub N → Hub N
  unfolding write_frame remove_client
  send_text payload c h =
      let (wrote, net) = write_frame c 1 payload h.net in
      let sent : Hub N = record h { net = net } in if wrote then sent else remove_client c sent

  unfoldable pub send_all : List ℕ → List ℕ → Hub N → Hub N
  unfolding send_text
  send_all payload [] h = h
  send_all payload (c ∷ cs) h = send_all payload cs (send_text payload c h)

  -- broadcast, given what json.Marshal makes of the stamped event, and the order in which the map of
  -- clients is visited
  unfoldable pub broadcast_event :
      (WsEvent → Option (List ℕ)) → List ℕ → ℕ → WsEvent → Hub N → Hub N
  unfolding send_all stamp
  broadcast_event marshal order now e h = elim (marshal (stamp now e)) [
    | none ↦ h
    | some payload ↦ send_all payload order h
  ]

  -- The loop of readPump over the frames that it reads, and removeClient behind it; the answer is
  -- false while the loop waits for a frame.
  unfoldable pub read_pump : ℕ → List FrameRead → Hub N → Bool × Hub N
  unfolding remove_client write_frame
  read_pump c [] h = (false, h)
  read_pump c (read_failed ∷ frames) h = (true, remove_client c h)
  read_pump c (got_opcode opcode ∷ frames) h =
      let (wrote, net) = write_frame c 0xa [] h.net in
      let ponged = read_pump c frames (record h { net = net }) in
      let skipped = read_pump c frames h in
      if opcode == 8 then (true, remove_client c h) else if opcode == 9 then ponged else skipped
