-- ===== src/Server/Hub/Tests.antt =====
-- cmd/server/ws.go: the hub on concrete connections.
use lp.Base.{
  ℕ, Bool, true, List, [], ◌∷◌, ◌++◌, Option, none, some, ◌==◌, not, keep_if, ◌≡◌, refl, arith,
  is_empty, if◌then◌else◌,
}
use lp.Server.State.{WsEvent}
use lp.Server.Frames.{frame_header}
use lp.Server.Hub.{
  Network, Hub, read_failed, got_opcode, hijacked, switched, refused, has_client, broadcast_event,
  write_frame, read_pump, handle_upgrade, upgrade_response, remove_client,
}
use lp.Server.Hub.Clients.{
  IsSteady, ends, any_ends, pings, send_pongs, with_text, read_pump_lem, broadcast_event_lem,
  upgrade-read_pump,
}

-- A network whose state is what each connection has received; connection 2 is broken.
abbrev works : ℕ → Bool
works c = not (c == 2)

abbrev write_bytes : ℕ → List ℕ → (ℕ → List ℕ) → Bool × (ℕ → List ℕ)
write_bytes c bytes net =
    (works c, λ x. if x == c then (if works x then net x ++ bytes else net x) else net x)

abbrev streams : Network (ℕ → List ℕ)
streams = record { write = write_bytes; close = λ c net. net }

same_number : (c : ℕ) → (c == c) ≡ true
same_number c = ground arith

streams-IsSteady : IsSteady streams works (λ net. net)
streams-IsSteady = record {
  answers = λ c bytes net. refl;
  takes = λ c bytes net. ground (arith, same_number c);
  leaves = λ c bytes net x other. ground (arith, other);
  closes = λ c net x. refl;
}

abbrev nothing : ℕ → List ℕ
nothing c = []

abbrev three : Hub (ℕ → List ℕ)
three = record { clients = 1 ∷ 2 ∷ 3 ∷ []; net = nothing }

abbrev started : WsEvent
started = record {
  type = "pipeline_started";
  time = 0;
  pipeline = "deploy";
  step = "";
  status = "";
  error = none;
  stdout = "";
  stderr = "";
  steps = 1;
}

abbrev encode : WsEvent → Option (List ℕ)
encode e = some (123 ∷ 125 ∷ [])

-- A pong to the first ping, and no answer to the ping behind the close
read_pump_lem_example :
    read_pump streams 1 (got_opcode 9 ∷ got_opcode 1 ∷ got_opcode 8 ∷ got_opcode 9 ∷ []) three ≡ (
      true,
      remove_client streams 1
          (record { clients = 1 ∷ 2 ∷ 3 ∷ []; net = send_pongs streams 1 1 nothing }),
    )
unfolding any_ends pings ends
read_pump_lem_example =
    read_pump_lem streams 1 (got_opcode 9 ∷ got_opcode 1 ∷ got_opcode 8 ∷ got_opcode 9 ∷ []) three

ponged : send_pongs streams 1 1 nothing 1 ≡ 0x8a ∷ 0 ∷ []
unfolding send_pongs write_frame frame_header
ponged = refl

visited : (c : ℕ) → has_client c (3 ∷ 1 ∷ 2 ∷ []) ≡ has_client c (1 ∷ 2 ∷ 3 ∷ [])
unfolding has_client
visited c = ground arith

broadcast_event_lem_example :
    ((broadcast_event streams encode (3 ∷ 1 ∷ 2 ∷ []) 7 started three).clients ≡ 1 ∷ 3 ∷ [])
    × ((c : ℕ)
        → (broadcast_event streams encode (3 ∷ 1 ∷ 2 ∷ []) 7 started three).net c
          ≡ (if has_client c (1 ∷ 2 ∷ 3 ∷ []) then with_text works (123 ∷ 125 ∷ []) c [] else []))
unfolding has_client keep_if
broadcast_event_lem_example =
    broadcast_event_lem streams works (λ net. net) encode (3 ∷ 1 ∷ 2 ∷ []) (123 ∷ 125 ∷ []) 7
      started three streams-IsSteady (refl, (refl, (refl, tt))) visited refl

upgrade-read_pump_example :
    ((handle_upgrade
        (λ key. key)
        (record { upgrade = "websocket"; key = "abc"; hijack = hijacked 4 })
        three).0
      ≡ switched 4 (upgrade_response (λ key. key) "abc"))
    × ((read_pump streams 4
          (got_opcode 9 ∷ read_failed ∷ [])
          (handle_upgrade
            (λ key. key)
            (record { upgrade = "websocket"; key = "abc"; hijack = hijacked 4 })
            three).1).1.clients
        ≡ 1 ∷ 2 ∷ 3 ∷ [])
unfolding is_empty has_client any_ends ends
upgrade-read_pump_example =
    upgrade-read_pump streams (λ key. key) 4 "abc" (got_opcode 9 ∷ read_failed ∷ []) three refl refl

refused_upgrade :
    (handle_upgrade
      (λ key. key)
      (record { upgrade = "h2c"; key = "abc"; hijack = hijacked 4 })
      three).0
    ≡ refused 400 "expected websocket upgrade"
unfolding handle_upgrade
refused_upgrade = refl
