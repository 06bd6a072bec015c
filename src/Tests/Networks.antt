-- ===== src/Tests/Networks.antt =====
-- Addresses with a small model of ns-3: nodes and devices are numbers, and the helper counts.
use sm4ns.Base.{ℕ, suc, refl, [], ◌∷◌, List}
use sm4ns.Agents.Networking.{NetworkLib, Assigns, new_simulated, Simulated, Networked}

abbrev count_up : ℕ → List ℕ → List ℕ × ℕ
count_up h [] = ([], h)
count_up h (d ∷ devices) = let (rest, h') = count_up (suc h) devices in (h ∷ rest, h')

abbrev counting : NetworkLib
counting = record {
  Node = ℕ;
  Device = ℕ;
  Address = ℕ;
  AddressHelper = ℕ;
  create = λ n. n;
  wifi_install = λ phy mac wifi nodes. nodes;
  new_helper = 0;
  set_base = λ network mask address h. 0;
  assign = count_up;
}

abbrev counting_assigns : Assigns counting
counting_assigns = record {
  one_device = λ phy mac wifi node nodes. (node, refl);
  no_device = λ phy mac wifi. refl;
  index = λ h. h;
  address_at = λ i. i;
  apart = λ i k less less' e. e;
  next_assigned = λ h d less. (refl, refl);
}

abbrev start : Simulated counting
start = new_simulated counting

abbrev second : Networked counting
second = record { nc = 7 ∷ []; ndc = 7 ∷ []; iic = 1 ∷ [] }

abbrev third : Networked counting
third = record { nc = 1 ∷ []; ndc = 1 ∷ []; iic = 2 ∷ [] }
