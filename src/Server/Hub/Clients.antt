-- ===== src/Server/Hub/Clients.antt =====
-- cmd/server/ws.go: the set of clients through upgrades, closed connections and broadcasts.
use lp.Base.{
  ℕ, zero, suc, String, Bool, true, false, List, [], ◌∷◌, ◌++◌, Option, some, ◌==◌, not, ◌||◌, ◌&&◌,
  length, keep_if, is_empty, ◌≡◌, refl, sym, ◌∙◌, ap, arith, Bool-cases, inl, inr, if◌then◌else◌,
}
use mathlib.Core.Path.{subst}
use mathlib.Core.List.{append_assoc}
use lp.Server.State.{WsEvent}
use lp.Server.Frames.{frame_header, frame_bytes}
use lp.Server.Hub.{
  Network, Hub, FrameRead, read_failed, got_opcode, UpgradeRequest, UpgradeAnswer, switched,
  has_client, hijacked, add_client, remove_client, write_frame, send_text, send_all, stamp,
  broadcast_event, read_pump, handle_upgrade, upgrade_response,
}

-- The frames that end readPump: an error and a close
unfoldable pub ends : FrameRead → Bool
ends read_failed = true
ends (got_opcode opcode) = opcode == 8

unfoldable pub any_ends : List FrameRead → Bool
any_ends [] = false
any_ends (f ∷ fs) = ends f || any_ends fs

-- The number of pings in front of the first such frame
unfoldable pub pings : List FrameRead → ℕ
unfolding ends
pings [] = 0
pings (read_failed ∷ fs) = 0
pings (got_opcode opcode ∷ fs) =
    let later = pings fs in if opcode == 8 then 0 else if opcode == 9 then suc later else later

module _ {N : Type 0} (io : Network N) where
  -- That many pongs with an empty payload, written one after the other
  unfoldable pub send_pongs : ℕ → ℕ → N → N
  send_pongs c zero net = net
  send_pongs c (suc n) net = send_pongs c n (write_frame io c 0xa [] net).1

  -- The loop of readPump answers each ping in front of the first close or error with one empty pong,
  -- whether or not the write succeeds, and discards the other frames; at the first close or error it
  -- removes the client, and it waits for more frames if there is none.
  pub read_pump_lem :
      (c : ℕ) (fs : List FrameRead) (h : Hub N)
      → let ponged : Hub N = record h { net = send_pongs c (pings fs) h.net } in
        read_pump io c fs h
        ≡ (any_ends fs, if any_ends fs then remove_client io c ponged else ponged)
  unfolding read_pump ends any_ends pings send_pongs
  read_pump_lem c [] h = refl
  read_pump_lem c (read_failed ∷ fs) h = refl
  read_pump_lem c (got_opcode opcode ∷ fs) h =
      let later : Hub N = record h { net = (write_frame io c 0xa [] h.net).1 } in
      ground (arith, read_pump_lem c fs h, read_pump_lem c fs later)

-- The connections in a list, each once
abbrev pub AreDistinct : List ℕ → Type 0
AreDistinct [] = Unit {0}
AreDistinct (c ∷ cs) = (has_client c cs ≡ false) × AreDistinct cs

-- A network for the time of one broadcast: each connection takes all bytes that are written to it or
-- takes none and answers with an error, as `alive` says, and the connections do not affect each other.
pub record IsSteady {N : Type 0} (io : Network N) (alive : ℕ → Bool) (received : N → ℕ → List ℕ)
    : Type 0 where
  pub answers : (c : ℕ) (bytes : List ℕ) (net : N) → (io.write c bytes net).0 ≡ alive c
  pub takes :
      (c : ℕ) (bytes : List ℕ) (net : N)
      → received (io.write c bytes net).1 c
        ≡ (if alive c then received net c ++ bytes else received net c)
  pub leaves :
      (c : ℕ) (bytes : List ℕ) (net : N) (x : ℕ)
      → (x == c) ≡ false
      → received (io.write c bytes net).1 x ≡ received net x
  pub closes : (c : ℕ) (net : N) (x : ℕ) → received (io.close c net) x ≡ received net x

-- The bytes that a connection has when a text frame with the payload was written to it
abbrev pub with_text : (ℕ → Bool) → List ℕ → ℕ → List ℕ → List ℕ
with_text alive payload x bytes = if alive x then bytes ++ frame_bytes 1 payload else bytes

same_number : (a b : ℕ) → (a == b) ≡ true → a ≡ b
same_number a b h = ground (arith, h)

has_client-head : (c : ℕ) (cs : List ℕ) → has_client c (c ∷ cs) ≡ true
unfolding has_client
has_client-head c cs = ground arith

has_client-tail : (x c : ℕ) (cs : List ℕ) → has_client x cs ≡ true → has_client x (c ∷ cs) ≡ true
unfolding has_client
has_client-tail x c cs h = ground (arith, h)

keep_if_same :
    (p q : ℕ → Bool) (xs : List ℕ)
    → ((x : ℕ) → has_client x xs ≡ true → p x ≡ q x)
    → keep_if p xs ≡ keep_if q xs
unfolding keep_if
keep_if_same p q [] same = refl
keep_if_same p q (x ∷ xs) same =
    let rest = keep_if_same p q xs (λ y h. same y (has_client-tail y x xs h)) in
    ground (arith, rest, same x (has_client-head x xs))

keep_if_twice :
    (p q : ℕ → Bool) (xs : List ℕ) → keep_if p (keep_if q xs) ≡ keep_if (λ x. q x && p x) xs
unfolding keep_if
keep_if_twice p q [] = refl
keep_if_twice p q (x ∷ xs) = ground (arith, keep_if_twice p q xs)

keep_if_all : (xs : List ℕ) → keep_if (λ (x : ℕ). true) xs ≡ xs
unfolding keep_if
keep_if_all [] = refl
keep_if_all (x ∷ xs) = ap (λ l. x ∷ l) (keep_if_all xs)

module _ {N : Type 0} (io : Network N) (alive : ℕ → Bool) (received : N → ℕ → List ℕ)
    (steady : IsSteady io alive received) (payload : List ℕ) where
  write_frame_lem :
      (c : ℕ) (net : N)
      → ((write_frame io c 1 payload net).0 ≡ alive c)
        × (received (write_frame io c 1 payload net).1 c
            ≡ with_text alive payload c (received net c))
        × ((x : ℕ)
            → (x == c) ≡ false
            → received (write_frame io c 1 payload net).1 x ≡ received net x)
  unfolding write_frame frame_bytes frame_header
  write_frame_lem c net =
      let header : List ℕ = frame_header 1 (length payload) in
      let first : N = (io.write c header net).1 in
      ground (
        arith,
        steady.answers c header net,
        steady.takes c header net,
        steady.leaves c header net,
        steady.answers c payload first,
        steady.takes c payload first,
        steady.leaves c payload first,
        append_assoc (received net c) header payload,
      )

  -- Who is kept when the text was sent to one connection
  spared : (x c : ℕ) → alive c ≡ true → (alive x || not (x == c)) ≡ true
  spared x c live = elim (Bool-cases (x == c)) [
    | inl same ↦ ground (arith, ap alive (same_number x c same), live)
    | inr other ↦ ground (arith, other)
  ]

  lost : (x c : ℕ) → alive c ≡ false → not (x == c) ≡ (alive x || not (x == c))
  lost x c dead = elim (Bool-cases (x == c)) [
    | inl same ↦ ground (arith, ap alive (same_number x c same), dead)
    | inr other ↦ ground (arith, other)
  ]

  kept : (x : ℕ) → (alive x || not (has_client x [])) ≡ true
  unfolding has_client
  kept x = ground arith

  send_text_lem :
      (c : ℕ) (h : Hub N)
      → ((send_text io payload c h).clients ≡ keep_if (λ x. alive x || not (x == c)) h.clients)
        × ((x : ℕ)
            → received (send_text io payload c h).net x
              ≡ (if x == c then with_text alive payload x (received h.net x) else received h.net x))
  unfolding send_text remove_client
  send_text_lem c h =
      let (answer, takes, leaves) = write_frame_lem c h.net in
      let net : N = (write_frame io c 1 payload h.net).1 in
      (
        elim (Bool-cases (alive c)) [
          | inl live ↦
              ground (arith, answer, live)
              ∙ sym
                  (keep_if_same _ _ h.clients (λ x member. spared x c live) ∙ keep_if_all h.clients)
          | inr dead ↦
              ground (arith, answer, dead)
              ∙ keep_if_same (λ x. not (x == c)) _ h.clients (λ x member. lost x c dead)
        ],
        λ x. elim (Bool-cases (x == c)) [
          | inl same ↦ ground (
            arith,
            answer,
            same,
            subst
                (λ y.
                  received (write_frame io c 1 payload h.net).1 y
                  ≡ with_text alive payload y (received h.net y))
                (sym (same_number x c same)) takes,
            steady.closes c net x,
          )
          | inr other ↦ ground (arith, answer, other, leaves x other, steady.closes c net x)
        ],
      )

  send_all-clients :
      (order : List ℕ) (h : Hub N)
      → (send_all io payload order h).clients
        ≡ keep_if (λ x. alive x || not (has_client x order)) h.clients
  unfolding send_all has_client
  send_all-clients [] h =
      sym (keep_if_same _ _ h.clients (λ x member. kept x) ∙ keep_if_all h.clients)
  send_all-clients (c ∷ cs) h =
      send_all-clients cs (send_text io payload c h)
      ∙ ap (keep_if (λ x. alive x || not (has_client x cs))) (send_text_lem c h).0
      ∙ keep_if_twice (λ x. alive x || not (has_client x cs)) (λ x. alive x || not (x == c))
          h.clients
      ∙ keep_if_same _ _ h.clients (λ x member. ground arith)

  send_all-received :
      (order : List ℕ) (h : Hub N) (x : ℕ)
      → AreDistinct order
      → received (send_all io payload order h).net x ≡ (
          if has_client x order
          then with_text alive payload x (received h.net x)
          else received h.net x)
  unfolding send_all has_client
  send_all-received [] h x distinct = refl
  send_all-received (c ∷ cs) h x (first, distinct) = ground (
    arith,
    send_all-received cs (send_text io payload c h) x distinct,
    (send_text_lem c h).1 x,
    first,
  )

-- On a network that keeps still, a broadcast of an event that can be encoded, over the connections of
-- the hub in any order, appends one text frame with the encoded event to what each connection that
-- takes bytes has received, leaves all other connections as they were, and keeps exactly the clients
-- that take bytes.
pub broadcast_event_lem :
    {N : Type 0} (io : Network N) (alive : ℕ → Bool) (received : N → ℕ → List ℕ)
    (marshal : WsEvent → Option (List ℕ)) (order payload : List ℕ) (now : ℕ) (e : WsEvent)
    (h : Hub N)
    → IsSteady io alive received
    → AreDistinct order
    → ((c : ℕ) → has_client c order ≡ has_client c h.clients)
    → marshal (stamp now e) ≡ some payload
    → ((broadcast_event io marshal order now e h).clients ≡ keep_if alive h.clients)
      × ((c : ℕ)
          → received (broadcast_event io marshal order now e h).net c ≡ (
              if has_client c h.clients
              then with_text alive payload c (received h.net c)
              else received h.net c))
unfolding broadcast_event
broadcast_event_lem io alive received marshal order payload now e h steady distinct visits encoded =
    (
      ap Hub.clients sent
          ∙ send_all-clients io alive received steady payload order h
          ∙ keep_if_same _ alive h.clients (λ c member. ground (arith, visits c, member)),
      λ c.
          ap (λ (after : Hub _). received after.net c) sent
          ∙ send_all-received io alive received steady payload order h c distinct
          ∙ ground (arith, visits c),
    )
  where
    sent : broadcast_event io marshal order now e h ≡ send_all io payload order h
    sent = ground (arith, encoded)

without_new :
    (c : ℕ) (cs : List ℕ) → has_client c cs ≡ false → keep_if (λ x. not (x == c)) (c ∷ cs) ≡ cs
unfolding has_client keep_if
without_new c [] new = ground arith
without_new c (x ∷ cs) new = ground (arith, without_new c cs)

-- A connection that is not in the hub, is upgraded, and whose frames then come to an error or a close
-- leaves the clients of the hub as they were; as long as they do not, it is a client.
pub upgrade-read_pump :
    {N : Type 0} (io : Network N) (digest : String → String) (c : ℕ) (key : String)
    (fs : List FrameRead) (h : Hub N)
    → is_empty key ≡ false
    → has_client c h.clients ≡ false
    → let r : UpgradeRequest = record { upgrade = "websocket"; key = key; hijack = hijacked c } in
      ((handle_upgrade digest r h).0 ≡ switched c (upgrade_response digest key))
      × ((read_pump io c fs (handle_upgrade digest r h).1).1.clients
          ≡ (if any_ends fs then h.clients else c ∷ h.clients))
unfolding handle_upgrade add_client remove_client
upgrade-read_pump io digest c key fs h some_key new =
    let r : UpgradeRequest = record { upgrade = "websocket"; key = key; hijack = hijacked c } in
    let upgraded : handle_upgrade digest r h
        ≡ (switched c (upgrade_response digest key), add_client c h) =
      ground (arith, some_key) in
    (
      ap (λ a. a.0) upgraded,
      ap (λ (a : UpgradeAnswer × Hub _). (read_pump io c fs a.1).1.clients) upgraded
          ∙ ap (λ (a : Bool × Hub _). a.1.clients) (read_pump_lem io c fs (add_client c h))
          ∙ elim (Bool-cases (any_ends fs)) [
            | inl ended ↦ ground (arith, ended, new, without_new c h.clients new)
            | inr waits ↦ ground (arith, waits, new)
          ],
    )
