-- ===== src/Agents/Sockets.antt =====
-- The socket and the address object of one agent (the constructors and destructors, init, initSocket
-- and Bind in model/smb_agent.cc). `m_isa` points to an object of the heap; what Socket::Bind of ns-3
-- gives is not looked at.
pub mod Leaks
use sm4ns.Base.{
  ℕ, zero, suc, ◌+◌, ◌=ℕ◌, ◌<◌, ◌≡◌, refl, ap, ◌∙◌, Bool, true, false, not, ◌||◌, if◌then◌else◌,
  List, [], ◌∷◌, length, Option, none, some, Outcome, returns, throws, undefined, undefined_if,
  throw_if, ◌>>=◌, ◌>>◌, unbound_socket, Returns, arith,
}

-- The address objects that are alive, and the number of the next one.
pub record Heap : Type 0 where
  pub live : List ℕ
  pub next : ℕ

unfoldable pub release : ℕ → List ℕ → Outcome (List ℕ)
release a [] = undefined
release a (b ∷ live) = do
  let rest = release a live
  if a =ℕ b then returns live else do live' ← rest; returns (b ∷ live')

-- `m_node` is whether that pointer is set; `nodes` and `addresses` are how many nodes `nc` and how
-- many addresses `iic` holds. Only Agent::init adds nodes to `nc`, so all of them have their internet
-- stack when it is called again.
pub record Inet : Type 0 where
  pub m_isa : Option ℕ
  pub m_node : Bool
  pub m_socket : Bool
  pub nodes : ℕ
  pub addresses : ℕ

-- The constructors without a node.
abbrev pub construct : Inet
construct = record { m_isa = none; m_node = false; m_socket = false; nodes = 0; addresses = 0 }

-- The constructor with a node, which is not put into `nc`.
abbrev pub construct_on_node : Inet
construct_on_node = record construct { m_node = true }

-- `if (m_isa) { delete m_isa; m_isa = NULL; }`
unfoldable pub clear_isa : Inet × Heap → Outcome (Inet × Heap)
clear_isa (s, h) = elim s.m_isa [
  | none ↦ returns (s, h)
  | some a ↦ (do
    live ← release a h.live
    returns (record s { m_isa = none }, record h { live = live }))
]

-- GetAddress() is out of range without an address.
unfoldable pub bind : Inet × Heap → Outcome (Inet × Heap)
bind sh = do
  (s, h) ← clear_isa sh
  undefined_if (s.addresses =ℕ 0)
  throw_if (not s.m_socket) unbound_socket
  returns (record s { m_isa = some h.next }, record h { live = h.next ∷ h.live; next = h.next + 1 })

-- Whether the node that init was given has its internet stack already; the node that it creates when
-- it was given none has not.
abbrev pub has_stack : Option Bool → Bool
has_stack none = false
has_stack (some installed) = installed

-- Agent::init: one more node in `nc`, and a device, the internet stack and an address for each node of
-- `nc`. InternetStackHelper::Install ends the program at a node that has its stack.
unfoldable pub init_agent : Option Bool → Inet × Heap → Outcome (Inet × Heap)
init_agent given (s, h) = do
  let nodes = s.nodes + 1
  undefined_if (not (s.nodes =ℕ 0) || has_stack given)
  bind (
    record s { m_isa = none; m_node = true; m_socket = true; nodes = nodes; addresses = nodes },
    h,
  )

-- initSocket; Socket::CreateSocket goes through the node's pointer. The trace program has added an
-- address to `iic`.
unfoldable pub init_socket : Inet × Heap → Outcome (Inet × Heap)
init_socket (s, h) = do
  undefined_if (not s.m_node)
  bind (record s { m_isa = none; m_socket = true }, h)

-- ~Agent
unfoldable pub destroy : Inet × Heap → Outcome (Inet × Heap)
destroy sh = clear_isa sh

-- ~WFD_Agent, and then ~Agent
unfoldable pub destroy_wfd : Inet × Heap → Outcome (Inet × Heap)
destroy_wfd sh = do sh' ← clear_isa sh; destroy sh'

-- The calls between the constructor and the destructor; init is called without a node, as the handlers
-- and the registration do.
pub data Call : Type 0 where
  call_init call_init_socket call_bind : Call

abbrev pub call : Call → Inet × Heap → Outcome (Inet × Heap)
call call_init sh = init_agent none sh
call call_init_socket sh = init_socket sh
call call_bind sh = bind sh

abbrev pub calls : List Call → Inet × Heap → Outcome (Inet × Heap)
calls [] sh = returns sh
calls (c ∷ cs) sh = do sh' ← call c sh; calls cs sh'

-- How often the agent is initialised, by init or by initSocket.
abbrev pub initialisations : List Call → ℕ
initialisations [] = 0
initialisations (call_bind ∷ cs) = initialisations cs
initialisations (call_init ∷ cs) = suc (initialisations cs)
initialisations (call_init_socket ∷ cs) = suc (initialisations cs)

-- How often init is called.
abbrev pub inits : List Call → ℕ
inits [] = 0
inits (call_bind ∷ cs) = inits cs
inits (call_init ∷ cs) = suc (inits cs)
inits (call_init_socket ∷ cs) = inits cs

-- A first call after which the agent has a socket and an address.
abbrev pub CanStart : Call → Inet → Type 0
CanStart call_init s = Unit {0}
CanStart call_init_socket s = (s.m_node ≡ true) × (0 < s.addresses)
CanStart call_bind s = 0 < 0
