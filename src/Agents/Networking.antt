-- ===== src/Agents/Networking.antt =====
-- How an agent gets its network (model/smb_base_wifi.cc, smb_base_ip.cc, smb_base_mobility.cc, and
-- their calls in Agent::init of model/smb_agent.cc). The helpers of ns-3 are what was set on them
-- since they had their default values; what ns-3 does with them is kept as what was installed.
use sm4ns.Base.{
  ℕ, ◌+◌, Bool, true, false, String, List, [], ◌∷◌, ◌++◌, Option, none, some, Outcome, returns,
  undefined, suc, ◌≡◌, ◌<◌,
}
use sm4ns.Base.Integers.{ℤ, pos, negsuc}

pub data Setting : Type 0 where
  text : String → String → Setting
  number : String → ℤ → Setting

abbrev pub Settings : Type 0
Settings = List Setting

-- BaseWifi
pub record BaseWifi : Type 0 where
  pub wifi_helper : Settings
  pub wifi_mac_helper : Settings
  pub wifi_phy_helper : Settings
  pub phy_mode : String
  pub rss : ℤ
  pub init_done : Bool

-- The settings of a new channel.
abbrev pub wifi_channel : ℤ → Settings
wifi_channel rss =
    text "PropagationDelay" "ns3::ConstantSpeedPropagationDelayModel"
    ∷ number "ns3::FixedRssLossModel Rss" rss
    ∷ []

-- The phy helper begins from its default again; the wifi helper keeps what it had.
unfoldable pub init : BaseWifi → BaseWifi
init w = record w {
  wifi_helper =
      w.wifi_helper
      ++ text "Standard" "WIFI_PHY_STANDARD_80211b"
        ∷ text "ns3::ConstantRateWifiManager DataMode" w.phy_mode
        ∷ text "ns3::ConstantRateWifiManager ControlMode" w.phy_mode
        ∷ [];
  wifi_phy_helper =
      number "RxGain" (pos 0) ∷ text "PcapDataLinkType" "DLT_IEEE802_11_RADIO" ∷ wifi_channel w.rss;
  wifi_mac_helper = text "Type" "ns3::AdhocWifiMac" ∷ [];
  init_done = true;
}

unfoldable pub configure : BaseWifi → BaseWifi
configure w = record w {
  wifi_helper =
      w.wifi_helper
      ++ text "Standard" "WIFI_PHY_STANDARD_80211b"
        ∷ text "ns3::ConstantRateWifiManager DataMode" w.phy_mode
        ∷ text "ns3::ConstantRateWifiManager ControlMode" w.phy_mode
        ∷ [];
  wifi_phy_helper =
      number "RxGain" (pos 0) ∷ text "PcapDataLinkType" "DLT_IEEE802_11_RADIO" ∷ wifi_channel w.rss;
  wifi_mac_helper = text "Type" "ns3::AdhocWifiMac" ∷ [];
  init_done = true;
}

-- The constructor; -80 is the strength of what is received.
unfoldable pub new_base_wifi : BaseWifi
unfolding init
new_base_wifi = init (record {
  wifi_helper = [];
  wifi_mac_helper = [];
  wifi_phy_helper = [];
  phy_mode = "DsssRate1Mbps";
  rss = negsuc 79;
  init_done = false;
})

-- What the agents use of ns-3: its nodes, devices and addresses, and an Ipv4AddressHelper. `assign`
-- gives the devices their addresses, in order, and the helper after it.
pub record NetworkLib : Type 1 where
  pub Node : Type 0
  pub Device : Type 0
  pub Address : Type 0
  pub AddressHelper : Type 0
  pub create : ℕ → Node
  pub wifi_install : Settings → Settings → Settings → List Node → List Device
  pub new_helper : AddressHelper
  pub set_base : String → String → String → AddressHelper → AddressHelper
  pub assign : AddressHelper → List Device → List Address × AddressHelper

-- How many addresses a network 11.0.0.0 with the mask 255.0.0.0 has from 11.0.0.1 on.
abbrev pub hosts : ℕ
hosts = 16777214

-- The documented behaviour: one device for each node; the helper counts up, and gives each device
-- the next of the addresses that its network has behind the first, without one twice.
pub record Assigns (n : NetworkLib) : Type 0 where
  pub one_device :
      (phy mac wifi : Settings) (node : n.Node) (nodes : List n.Node)
      → (d : n.Device) × (n.wifi_install phy mac wifi (node ∷ nodes)
          ≡ d ∷ n.wifi_install phy mac wifi nodes)
  pub no_device : (phy mac wifi : Settings) → n.wifi_install phy mac wifi [] ≡ []
  pub index : n.AddressHelper → ℕ
  pub address_at : ℕ → n.Address
  pub apart : (i k : ℕ) → i < hosts → k < hosts → address_at i ≡ address_at k → i ≡ k
  pub next_assigned :
      (h : n.AddressHelper) (d : n.Device)
      → index h < hosts
      → ((n.assign h (d ∷ [])).0 ≡ address_at (index h) ∷ [])
        × (index (n.assign h (d ∷ [])).1 ≡ suc (index h))

module _ (n : NetworkLib) where
  open n use {Node, Device, Address, AddressHelper}

  -- The nodes that ns-3 has made, those that have the internet stack and those that have a mobility
  -- model, and the static helpers of Agent. BaseIP is its Ipv4AddressHelper.
  pub record Simulated : Type 0 where
    pub node_count : ℕ
    pub with_stack : List Node
    pub with_mobility : List Node
    pub base_wifi : BaseWifi
    pub base_ip : AddressHelper

  abbrev pub new_base_ip : AddressHelper
  new_base_ip = n.set_base "11.0.0.0" "255.0.0.0" "0.0.0.1" n.new_helper

  abbrev pub base_ip_set_base : String → String → String → Simulated → Simulated
  base_ip_set_base network mask address s = record s {
    base_ip = n.set_base network mask address s.base_ip;
  }

  abbrev pub new_simulated : Simulated
  new_simulated = record {
    node_count = 0;
    with_stack = [];
    with_mobility = [];
    base_wifi = new_base_wifi;
    base_ip = new_base_ip;
  }

  -- BaseWifi::Install
  abbrev pub install_wifi : BaseWifi → List Node → List Device
  install_wifi w nodes = n.wifi_install w.wifi_phy_helper w.wifi_mac_helper w.wifi_helper nodes

  abbrev pub install_ip : List Device → Simulated → List Address × Simulated
  install_ip devices s =
      let (addresses, ip) = n.assign s.base_ip devices in (addresses, record s { base_ip = ip })

  abbrev pub install_inet : List Node → Simulated → Simulated
  install_inet nodes s = record s { with_stack = s.with_stack ++ nodes }

  -- BaseIP::Install
  unfoldable pub install : List Node → List Device → Simulated → List Address × Simulated
  install nodes devices s = install_ip devices (install_inet nodes s)

  -- BaseMobility::Install
  abbrev pub install_mobility : List Node → Simulated → Simulated
  install_mobility nodes s = record s { with_mobility = s.with_mobility ++ nodes }

  -- The containers of one agent.
  pub record Networked : Type 0 where
    pub nc : List Node
    pub ndc : List Device
    pub iic : List Address

  abbrev pub not_networked : Networked
  not_networked = record { nc = []; ndc = []; iic = [] }

  -- `nc.Add(node)` or `nc.Create(1)`
  unfoldable pub add_node : Option Node → Networked → Simulated → Networked × Simulated
  add_node (some node) a s = (record a { nc = a.nc ++ node ∷ [] }, s)
  add_node none a s = (
    record a { nc = a.nc ++ n.create s.node_count ∷ [] },
    record s { node_count = s.node_count + 1 },
  )

  -- The calls of Agent::init on the helpers.
  unfoldable pub set_up : Option Node → Networked → Simulated → Networked × Simulated
  set_up node a s =
      let (a1, s1) = add_node node a s in
      let ndc = install_wifi s1.base_wifi a1.nc in
      let (iic, s2) = install a1.nc ndc (install_mobility a1.nc s1) in
      (record a1 { ndc = ndc; iic = iic }, s2)

  -- GetAddress
  abbrev pub get_address : Networked → Outcome Address
  get_address a = elim a.iic [ [] ↦ undefined | address ∷ more ↦ returns address ]
