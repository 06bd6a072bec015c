-- ===== src/Registration/Enrolled.antt =====
-- A registration of the default application from its first message to the start of the simulation
-- (model/network/registration.cc, Broker::start in model/smb_broker.cc).
use sm4ns.Base.{
  ℕ, ◌+◌, ◌^◌, ◌<◌, ◌≡◌, ◌≢◌, sym, Bool, refl, ap, ◌∙◌, true, false, String, List, [], ◌∷◌,
  if◌then◌else◌, Bytes, length, Option, none, some, Outcome, returns,
}
use sm4ns.Base.Maps.{find}
use sm4ns.JsonLib.{JsonLib}
use sm4ns.Serialize.{OngoingSerialization, new_serialization, serialize_begin}
use sm4ns.Messages.{AgentsInfoMessage, string_member, parse_new_agents}
use sm4ns.Make.{make_id_response}
use sm4ns.Agents.{Agent, Registry, World, has_socket}
use sm4ns.Agents.Presence.{NoNull, AllSockets, held}
use sm4ns.Session.{Session}
use sm4ns.Broker.{Broker, async_receive}
use sm4ns.Broker.Outgoing.{frame}
use sm4ns.Registration.{
  Registering, begun, do_connect, do_who_are_you, do_agents_info, do_initialization, do_ready,
}
use sm4ns.Registration.Answers.{counts-small, with_sent, end_and_send-open}
use sm4ns.Registration.Letters.{
  Letter, IsLetter, letter_header, letter_before, received_letter, receive_single-letter,
  get_json_message-letter,
}
use sm4ns.Registration.Newcomers.{
  fresh_of, ready_of, add_application_agents-fresh, find-ready_of, init_each-fresh,
}
use sm4ns.Registration.Start.{
  default_registration, choose_registration, initialize, register, start,
}
use sm4ns.Handlers.Effects.{contains, new_agent}

module _ (j : JsonLib) where
  open j use {Value, Real}

  -- The three messages of the server: a request with a token, the agents, and an acknowledgement.
  pub record IsHandshake (request agents ack : Letter Value) (token : String)
      (a_info : AgentsInfoMessage) : Type 0 where
    pub is_request : IsLetter j request "id_request"
    pub is_agents : IsLetter j agents "new_agents"
    pub is_ack : IsLetter j ack "id_ack"
    pub request_json : j.is_null request.item.root ≡ false
    pub has_token : j.is_member request.item.root "token" ≡ returns true
    pub its_token : string_member j request.item.root "token" ≡ returns token
    pub agents_json : j.is_null agents.item.root ≡ false
    pub parsed : parse_new_agents j (received_letter j agents) 0 ≡ returns a_info

  do_who_are_you_lem :
      (request : Letter Value) (token : String) (answer : OngoingSerialization) (rest : Bytes)
      (r : Registering Real)
      → IsLetter j request "id_request"
      → j.is_null request.item.root ≡ false
      → j.is_member request.item.root "token" ≡ returns true
      → string_member j request.item.root "token" ≡ returns token
      → make_id_response j token (serialize_begin new_serialization) ≡ returns answer
      → length (frame answer) < 2 ^ 32
      → r.session.socket_open ≡ true
      → r.session.inbound ≡ letter_before request rest
      → do_who_are_you j r
        ≡ returns
            (true, record r { session = with_sent answer (record r.session { inbound = rest }) })
  unfolding do_who_are_you
  do_who_are_you_lem request token answer rest r ok json has its made small up e =
      rw (receive_single-letter j request "id_request" rest r ok e) (
        rw (get_json_message-letter j request) (
          rw (json, has, its, made)
            (end_and_send-open j (letter_header request) answer
                (record r { session = record r.session { inbound = rest } }) up
              ∙ rw (counts-small answer small) refl)))

  do_ready_lem :
      (ack : Letter Value) (rest : Bytes) (r : Registering Real)
      → IsLetter j ack "id_ack"
      → r.session.inbound ≡ letter_before ack rest
      → do_ready j r ≡ returns (true, record r { session = record r.session { inbound = rest } })
  unfolding do_ready
  do_ready_lem ack rest r ok e = rw (receive_single-letter j ack "id_ack" rest r ok e) refl

  do_agents_info_lem :
      (agents : Letter Value) (a_info : AgentsInfoMessage) (id : String) (ids : List String)
      (rest : Bytes) (r : Registering Real)
      → IsLetter j agents "new_agents"
      → j.is_null agents.item.root ≡ false
      → parse_new_agents j (received_letter j agents) 0 ≡ returns a_info
      → a_info.add_agent_ids ≡ id ∷ ids
      → r.application ≡ "Default"
      → r.world.all_agents ≡ []
      → r.session.inbound ≡ letter_before agents rest
      → (ids' : List String) × (do_agents_info j r
          ≡ returns (
            true,
            record r {
              session = record r.session { inbound = rest };
              world = record r.world { all_agents = fresh_of ids' };
            },
          ))
        × ((i : String) → contains i ids' ≡ contains i (id ∷ ids))
  unfolding do_agents_info
  do_agents_info_lem agents a_info id ids rest r ok json parsed some_ids app empty e =
      let (ids', added, known) = add_application_agents-fresh {R = Real} (id ∷ ids) [] in
      (
        ids',
        rw (receive_single-letter j agents "new_agents" rest r ok e) (
            rw (get_json_message-letter j agents)
              (rw (json, parsed) (rw (some_ids, app, empty) (rw added refl)))),
        known,
      )

  do_initialization-fresh :
      (ids : List String) (r : Registering Real)
      → r.world.all_agents ≡ fresh_of ids
      → do_initialization r
        ≡ returns (true, record r { world = record r.world { all_agents = ready_of ids } })
  unfolding do_initialization
  do_initialization-fresh ids r e =
      rw e (rw (init_each-fresh (fresh_of ids) ids r.wfd_containers) refl)

  register-handshake :
      (session : Session) (world : World Real) (request agents ack : Letter Value) (token : String)
      (a_info : AgentsInfoMessage) (id : String) (ids : List String) (answer : OngoingSerialization)
      (rest : Bytes)
      → session.socket_open ≡ true
      → session.inbound ≡ letter_before request (letter_before agents (letter_before ack rest))
      → IsHandshake request agents ack token a_info
      → a_info.add_agent_ids ≡ id ∷ ids
      → make_id_response j token (serialize_begin new_serialization) ≡ returns answer
      → length (frame answer) < 2 ^ 32
      → world.all_agents ≡ []
      → (ids' : List String) × (register j default_registration (begun session world "Default")
          ≡ returns (
            true,
            begun
                (with_sent answer (record session { inbound = rest }))
                (record world { all_agents = ready_of ids' })
                "Default",
          ))
        × ((i : String) → contains i ids' ≡ contains i (id ∷ ids))
  unfolding register initialize
  register-handshake session world request agents ack token a_info id ids answer rest up e h
        some_ids made small empty =
      let session1 =
        with_sent answer
          (record session { inbound = letter_before agents (letter_before ack rest) }) in
      let session2 = with_sent answer (record session { inbound = letter_before ack rest }) in
      let who =
        do_who_are_you_lem request token answer (letter_before agents (letter_before ack rest))
          (begun session world "Default") h.is_request h.request_json h.has_token h.its_token made
          small up e in
      let (ids', info, known) =
        do_agents_info_lem agents a_info id ids (letter_before ack rest)
          (begun session1 world "Default") h.is_agents h.agents_json h.parsed some_ids refl empty
          refl in
      let with_agents = record world { all_agents = fresh_of ids' } in
      let initialised = do_initialization-fresh ids' (begun session2 with_agents "Default") refl in
      let acknowledged =
        do_ready_lem ack rest
          (begun session2 (record world { all_agents = ready_of ids' }) "Default") h.is_ack refl in
      (ids', rw who (rw info (rw initialised acknowledged)), known)

  -- The broker that waits for the first tick of these agents.
  abbrev pub enrolled : Broker j → Registry Real → Session → Broker j
  enrolled b registry session = record b {
    m_global_tick = 0;
    session = session;
    world = record b.world { all_agents = registry };
    incoming_message = [];
    reading = true;
    scheduled = b.scheduled + 1;
  }

  -- The default application, a broker whose registry is empty, and a server that a first attempt or
  -- a later one reaches on an open socket, from which a handshake with at least one agent and then
  -- other bytes have arrived; and the answer to the token shorter than 2 ^ 32 bytes. Then
  -- Broker::start succeeds: exactly the agents of the message are there, each of them initialised;
  -- the one thing written is the bundle of the answer; what arrived behind the handshake is not yet
  -- read; a read is pending, one more tick is scheduled, and ticks are counted from 0. No entry of the
  -- registry is null, and every agent has its socket.
  pub start-handshake :
      (connect : ℕ → Outcome (Option Session)) (b : Broker j) (session : Session)
      (request agents ack : Letter Value) (token : String) (a_info : AgentsInfoMessage)
      (id : String) (ids : List String) (answer : OngoingSerialization) (rest : Bytes)
      → do_connect connect 200 ≡ returns (some (some session))
      → session.socket_open ≡ true
      → session.inbound ≡ letter_before request (letter_before agents (letter_before ack rest))
      → IsHandshake request agents ack token a_info
      → a_info.add_agent_ids ≡ id ∷ ids
      → make_id_response j token (serialize_begin new_serialization) ≡ returns answer
      → length (frame answer) < 2 ^ 32
      → b.world.all_agents ≡ []
      → (registry : Registry Real) × (start j connect "Default" b
          ≡ returns (
              some
                (true, enrolled b registry (with_sent answer (record session { inbound = rest })))))
        × ((i : String)
            → find i registry ≡ (if contains i (id ∷ ids) then some (some (new_agent i)) else none))
        × NoNull registry
        × AllSockets registry
  unfolding start choose_registration async_receive
  start-handshake connect b session request agents ack token a_info id ids answer rest connected up
        e h some_ids made small empty =
      let (ids', registered, known) =
        register-handshake session b.world request agents ack token a_info id ids answer rest up e h
          some_ids made small empty in
      (
        ready_of ids',
        rw connected (rw registered (rw up refl)),
        entries ids' known,
        (λ i null. by_entry_null (contains i (id ∷ ids)) i (sym (entries ids' known i) ∙ null)),
        λ i ag e. by_entry (contains i (id ∷ ids)) i ag (ap held (sym (entries ids' known i)) ∙ e),
      )
    where
      entries :
          (ids' : List String)
          → ((i : String) → contains i ids' ≡ contains i (id ∷ ids))
          → (i : String)
          → find i (ready_of {R = Real} ids')
            ≡ (if contains i (id ∷ ids) then some (some (new_agent i)) else none)
      entries ids' known i =
          find-ready_of i ids' ∙ ap (λ c. if c then some (some (new_agent i)) else none) (known i)

      by_entry_null :
          (c : Bool) (i : String)
          → if◌then◌else◌ {A = Option (Option (Agent Real))} c (some (some (new_agent i))) none
            ≢ some none
      by_entry_null true i e = cc
      by_entry_null false i e = cc

      by_entry :
          (c : Bool) (i : String) (ag : Agent Real)
          → held
              (if◌then◌else◌ {A = Option (Option (Agent Real))} c (some (some (new_agent i))) none)
            ≡ some ag
          → has_socket ag ≡ true
      by_entry true i ag e = let same : new_agent i ≡ ag = cc in ap has_socket (sym same)
      by_entry false i ag e = cc
