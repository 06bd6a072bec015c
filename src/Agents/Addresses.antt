-- ===== src/Agents/Addresses.antt =====
-- The addresses of agents (model/smb_agent.cc, model/smb_base_ip.cc).
use sm4ns.Base.{◌≡◌, refl, List, [], ◌∷◌, Option}
use sm4ns.Agents.Networking.{
  NetworkLib, Simulated, Networked, not_networked, BaseWifi, init, configure, set_up,
}

-- configure makes the settings of init.
configure-init : (w : BaseWifi) → configure w ≡ init w
unfolding configure init
configure-init w = refl

module _ (n : NetworkLib) where
  open n use {Node}

  -- New agents set up one after another, each with a node or without.
  abbrev pub set_up_each : List (Option Node) → Simulated n → List (Networked n) × Simulated n
  set_up_each [] s = ([], s)
  set_up_each (node ∷ nodes) s =
      let (a, s1) = set_up n node (not_networked n) s in
      let (later, s2) = set_up_each nodes s1 in (a ∷ later, s2)
