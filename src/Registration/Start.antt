-- ===== src/Registration/Start.antt =====
-- Registration::start and Broker::start (model/network/registration.cc, model/smb_broker.cc).
use sm4ns.Base.{
  ℕ, ◌+◌, Bool, true, false, not, if◌then◌else◌, String, Option, none, some, Outcome, returns,
  throws, ◌>>=◌, ◌==◌, unknown_application,
}
use sm4ns.JsonLib.{JsonLib}
use sm4ns.Session.{Session, is_open}
use sm4ns.Session.Connect.{unconnected}
use sm4ns.Registration.{
  Registering, begun, do_connect, ◌then_if◌, do_who_are_you, do_agents_info, do_initialization,
  do_wfd_initialization, do_ready,
}
use sm4ns.Broker.{Broker, async_receive}

-- The class of the registration object.
pub data RegistrationClass : Type 0 where
  default_registration wfd_registration : RegistrationClass

-- `new Registration(this)` or `new WFD_Registration(this)`: the class, and `m_application`.
unfoldable pub choose_registration : String → Outcome (RegistrationClass × String)
choose_registration application =
    if application == "Default"
    then returns (default_registration, "Default")
    else if application == "stk"
    then returns (wfd_registration, "stk")
    else throws unknown_application

module _ (j : JsonLib) where
  open j use {Real}

  -- The virtual method doInitialization.
  unfoldable pub initialize :
      RegistrationClass → Registering Real → Outcome (Bool × Registering Real)
  initialize default_registration r = do_initialization r
  initialize wfd_registration r = do_wfd_initialization j r

  -- The steps of `start` behind doConnect.
  unfoldable pub register : RegistrationClass → Registering Real → Outcome (Bool × Registering Real)
  unfolding initialize
  register class_of r =
      do_who_are_you j r then_if do_agents_info j then_if initialize class_of then_if do_ready j

  -- Broker::start: `none` if the loop of doConnect has no answer, else the result and the broker. The
  -- attempts to connect leave a broker that could not connect a session with an open socket.
  unfoldable pub start :
      (ℕ → Outcome (Option Session)) → String → Broker j → Outcome (Option (Bool × Broker j))
  start connect application broker = do
    let b = record broker { m_global_tick = 0 }
    (class_of, app) ← choose_registration application
    connected ← do_connect connect 200
    elim connected [
      | none ↦ returns none
      | some none ↦ returns (some (false, record b { session = unconnected }))
      | some (some session) ↦ (do
        (ok, r) ← register class_of (begun session b.world app)
        let b1 = record b { session = r.session; world = r.world }
        if not ok
            then returns (some (false, b1))
            else if not (is_open b1.session)
            then returns (some (false, b1))
            else do
              b2 ← async_receive j b1
              if not (is_open b2.session)
                  then returns (some (false, b2))
                  else returns (some (true, record b2 { scheduled = b2.scheduled + 1 })))
    ]
