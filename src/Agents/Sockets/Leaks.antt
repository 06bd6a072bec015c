-- ===== src/Agents/Sockets/Leaks.antt =====
-- What an agent's calls leave on the heap (model/smb_agent.cc).
use sm4ns.Base.{
  ℕ, zero, suc, ◌+◌, ◌=ℕ◌, ◌<◌, ◌≤◌, ◌≡◌, refl, sym, subst, ap, ◌∙◌, Bool, true, false, List, [],
  ◌∷◌, length, some, none, Outcome, returns, throws, undefined, ◌>>=◌, arith, if◌then◌else◌,
}
use sm4ns.Agents.Sockets.{
  Heap, Inet, Call, call_init, call_init_socket, call_bind, release, clear_isa, bind, init_agent,
  init_socket, destroy, destroy_wfd, call, calls, initialisations, inits, CanStart,
}

release-length :
    (a : ℕ) (live rest : List ℕ) → release a live ≡ returns rest → length live ≡ suc (length rest)
unfolding release
release-length a [] rest e = cc
release-length a (b ∷ live) rest e =
    by_test (a =ℕ b) (release a live) (λ r q. release-length a live r q) e
  where
    by_test :
        (same : Bool) (o : Outcome (List ℕ))
        → ((r : List ℕ) → o ≡ returns r → length live ≡ suc (length r))
        → (if same then returns live else (o >>= λ live'. returns (b ∷ live'))) ≡ returns rest
        → suc (length live) ≡ suc (length rest)
    by_test true o ih q =
        ap suc (ap (λ o. elim o [ returns r ↦ length r | throws x ↦ 0 | undefined ↦ 0 ]) q)
    by_test false (returns r) ih q =
        ap suc
          (ih r refl ∙ ap (λ o. elim o [ returns r ↦ length r | throws x ↦ 0 | undefined ↦ 0 ]) q)
    by_test false (throws x) ih q = cc
    by_test false undefined ih q = cc

release-first : (a : ℕ) (live : List ℕ) → release a (a ∷ live) ≡ returns live
unfolding release
release-first a live = let same : (a =ℕ a) ≡ true = ground arith in rw same refl

-- The agent has a node, a socket and an address, and its address object is alive, besides `others`;
-- `nc` has `held` nodes.
pub record IsBound (others held : ℕ) (s : Inet) (h : Heap) : Type 0 where
  pub pointer : ℕ
  pub behind : List ℕ
  pub points : s.m_isa ≡ some pointer
  pub live : release pointer h.live ≡ returns behind
  pub count : length behind ≡ others
  pub node_set : s.m_node ≡ true
  pub socket : s.m_socket ≡ true
  pub in_container : s.nodes ≡ held
  pub address : 0 < s.addresses

-- What binding leaves: a new address object.
abbrev bound : Inet → Heap → Inet
bound s h = record s { m_isa = some h.next }

abbrev with_object : Heap → List ℕ → Heap
with_object h live = record h { live = h.next ∷ live; next = h.next + 1 }

-- Binding with a socket and an address when no address object is kept.
bind-fresh :
    (s : Inet) (h : Heap)
    → s.m_isa ≡ none
    → s.m_node ≡ true
    → s.m_socket ≡ true
    → 0 < s.addresses
    → (s' : Inet) × (h' : Heap) × (bind (s, h) ≡ returns (s', h'))
      × IsBound (length h.live) s.nodes s' h'
unfolding bind clear_isa
bind-fresh s h no_isa on_node up some_address =
    let there : (s.addresses =ℕ 0) ≡ false = ground arith in
    (
      bound s h,
      with_object h h.live,
      rw no_isa (rw (there, up) refl),
      record {
        pointer = h.next;
        behind = h.live;
        points = refl;
        live = release-first h.next h.live;
        count = refl;
        node_set = on_node;
        socket = up;
        in_container = refl;
        address = some_address;
      },
    )

bind-IsBound :
    (n held : ℕ) (s : Inet) (h : Heap)
    → IsBound n held s h
    → (s' : Inet) × (h' : Heap) × (bind (s, h) ≡ returns (s', h')) × IsBound n held s' h'
unfolding bind clear_isa
bind-IsBound n held s h b =
    let there : (s.addresses =ℕ 0) ≡ false = ground (arith, b.address) in
    (
      bound s h,
      with_object h b.behind,
      rw b.points (rw b.live (rw (there, b.socket) refl)),
      record {
        pointer = h.next;
        behind = b.behind;
        points = refl;
        live = release-first h.next b.behind;
        count = b.count;
        node_set = b.node_set;
        socket = b.socket;
        in_container = b.in_container;
        address = b.address;
      },
    )

counted : (n held : ℕ) (s : Inet) (h : Heap) → IsBound n held s h → length h.live ≡ suc n
counted n held s h b = release-length b.pointer h.live b.behind b.live ∙ ap suc b.count

-- The agent when init has added its first node, and before it is bound.
abbrev on_new_node : Inet → Inet
on_new_node s = record s { m_isa = none; m_node = true; m_socket = true; nodes = 1; addresses = 1 }

init_agent-first :
    (s : Inet) (h : Heap) → s.nodes ≡ 0 → init_agent none (s, h) ≡ bind (on_new_node s, h)
unfolding init_agent
init_agent-first s h no_nodes = rw no_nodes refl

-- A second init installs the internet stack on a node that has it.
init_agent-again : (s : Inet) (h : Heap) → s.nodes ≡ 1 → init_agent none (s, h) ≡ undefined
unfolding init_agent
init_agent-again s h one_node = rw one_node refl

init_socket-bind :
    (s : Inet) (h : Heap)
    → s.m_node ≡ true
    → init_socket (s, h) ≡ bind (record s { m_isa = none; m_socket = true }, h)
unfolding init_socket
init_socket-bind s h on_node = rw on_node refl

-- An initialisation forgets the address object that there was.
init-IsBound :
    (n : ℕ) (s : Inet) (h : Heap)
    → IsBound n 0 s h
    → (s' : Inet) × (h' : Heap) × (init_agent none (s, h) ≡ returns (s', h'))
      × IsBound (suc n) 1 s' h'
init-IsBound n s h b =
    let (s', h', e, b') = bind-fresh (on_new_node s) h refl refl refl (omega arith) in
    (
      s',
      h',
      init_agent-first s h b.in_container ∙ e,
      subst (λ k. IsBound k 1 s' h') (counted n 0 s h b) b',
    )

init_socket-IsBound :
    (n held : ℕ) (s : Inet) (h : Heap)
    → IsBound n held s h
    → (s' : Inet) × (h' : Heap) × (init_socket (s, h) ≡ returns (s', h'))
      × IsBound (suc n) held s' h'
init_socket-IsBound n held s h b =
    let s0 = record s { m_isa = none; m_socket = true } in
    let (s', h', e, b') = bind-fresh s0 h refl b.node_set refl b.address in
    let more = subst (λ k. IsBound k s.nodes s' h') (counted n held s h b) b' in
    (
      s',
      h',
      init_socket-bind s h b.node_set ∙ e,
      subst (λ k. IsBound (suc n) k s' h') b.in_container more,
    )

calls-IsBound :
    (n held : ℕ) (cs : List Call) (s : Inet) (h : Heap)
    → IsBound n held s h
    → inits cs + held ≤ 1
    → (s' : Inet) × (h' : Heap) × (calls cs (s, h) ≡ returns (s', h'))
      × IsBound (initialisations cs + n) (inits cs + held) s' h'
calls-IsBound n held [] s h b room =
    let more = subst (λ k. IsBound k held s h) (omega arith) b in
    (s, h, refl, subst (λ k. IsBound (0 + n) k s h) (omega arith) more)
calls-IsBound n held (call_bind ∷ cs) s h b room =
    let (s1, h1, e1, b1) = bind-IsBound n held s h b in
    let (s2, h2, e2, b2) = calls-IsBound n held cs s1 h1 b1 room in (s2, h2, rw e1 e2, b2)
calls-IsBound n zero (call_init ∷ cs) s h b room =
    let (s1, h1, e1, b1) = init-IsBound n s h b in
    let (s2, h2, e2, b2) = calls-IsBound (suc n) 1 cs s1 h1 b1 (omega arith) in
    let more = subst (λ k. IsBound k (inits cs + 1) s2 h2) (omega arith) b2 in
    (
      s2,
      h2,
      rw e1 e2,
      subst (λ k. IsBound (suc (initialisations cs) + n) k s2 h2) (omega arith) more,
    )
calls-IsBound n (suc held) (call_init ∷ cs) s h b room = absurd (omega arith)
calls-IsBound n held (call_init_socket ∷ cs) s h b room =
    let (s1, h1, e1, b1) = init_socket-IsBound n held s h b in
    let (s2, h2, e2, b2) = calls-IsBound (suc n) held cs s1 h1 b1 room in
    (s2, h2, rw e1 e2, subst (λ k. IsBound k (inits cs + held) s2 h2) (omega arith) b2)

starting :
    (first : Call) (s : Inet) (h : Heap)
    → s.m_isa ≡ none
    → s.nodes ≡ 0
    → CanStart first s
    → (s' : Inet) × (h' : Heap) × (call first (s, h) ≡ returns (s', h'))
      × IsBound (length h.live) (inits (first ∷ [])) s' h'
starting call_init s h fresh no_nodes ok =
    let (s', h', e, b) = bind-fresh (on_new_node s) h refl refl refl (omega arith) in
    (s', h', init_agent-first s h no_nodes ∙ e, b)
starting call_init_socket s h fresh no_nodes (on_node, some_address) =
    let (s', h', e, b) =
      bind-fresh (record s { m_isa = none; m_socket = true }) h refl on_node refl some_address in
    (
      s',
      h',
      init_socket-bind s h on_node ∙ e,
      subst (λ k. IsBound (length h.live) k s' h') no_nodes b,
    )
starting call_bind s h fresh no_nodes ok = absurd (omega (arith, ok))

-- How many inits there are in all.
inits_lem : (first : Call) (cs : List Call) → inits (first ∷ cs) ≡ inits cs + inits (first ∷ [])
inits_lem call_init cs = omega arith
inits_lem call_init_socket cs = omega arith
inits_lem call_bind cs = omega arith

destroy-IsBound :
    (n held : ℕ) (s : Inet) (h : Heap)
    → IsBound n held s h
    → (sh : Inet × Heap) × (destroy (s, h) ≡ returns sh)
      × (destroy_wfd (s, h) ≡ returns sh)
      × (length sh.1.live ≡ n)
unfolding destroy destroy_wfd clear_isa
destroy-IsBound n held s h b = (
  (record s { m_isa = none }, record h { live = b.behind }),
  rw b.points (rw b.live refl),
  rw b.points (rw b.live refl),
  b.count,
)

-- Another init after these calls.
init_agent-used :
    (n held : ℕ) (s : Inet) (h : Heap)
    → IsBound n held s h
    → held ≤ 1
    → if held =ℕ 0 then Unit {0} else init_agent none (s, h) ≡ undefined
init_agent-used n zero s h b few = tt
init_agent-used n (suc zero) s h b few = init_agent-again s h b.in_container
init_agent-used n (suc (suc held)) s h b few = absurd (omega arith)

-- An agent that keeps no address object and has no node in its container, whose first call is init,
-- or initSocket with a node and an address; then any sequence of init, initSocket and Bind, in which
-- init is called once at most in all. All these calls return, and so does the destructor after them: no
-- address object is deleted twice. The destructor of WFD_Agent, which deletes what that of Agent
-- deletes again, does the same as that of Agent. In the end one object is left on the heap for every
-- initialisation after the first, by init or initSocket, besides those that were there. If init was
-- among the calls, another init instead of the destructor is a fault.
pub destroy-calls :
    (first : Call) (cs : List Call) (s : Inet) (h : Heap)
    → s.m_isa ≡ none
    → s.nodes ≡ 0
    → CanStart first s
    → inits (first ∷ cs) ≤ 1
    → (used left : Inet × Heap) × (calls (first ∷ cs) (s, h) ≡ returns used)
      × (destroy used ≡ returns left)
      × (destroy_wfd used ≡ returns left)
      × (length left.1.live ≡ initialisations cs + length h.live)
      × (if inits (first ∷ cs) =ℕ 0 then Unit {0} else init_agent none used ≡ undefined)
destroy-calls first cs s h fresh no_nodes ok few =
    let held = inits (first ∷ []) in
    let total = inits_lem first cs in
    let (s1, h1, e1, b1) = starting first s h fresh no_nodes ok in
    let (s2, h2, e2, b2) = calls-IsBound (length h.live) held cs s1 h1 b1 (omega arith) in
    let (left, d, d', n) =
      destroy-IsBound (initialisations cs + length h.live) (inits cs + held) s2 h2 b2 in
    let again =
      init_agent-used (initialisations cs + length h.live) (inits cs + held) s2 h2 b2
        (omega arith) in
    (
      (s2, h2),
      left,
      rw e1 e2,
      d,
      d',
      n,
      subst (λ k. if k =ℕ 0 then Unit {0} else init_agent none (s2, h2) ≡ undefined) (sym total)
          again,
    )
