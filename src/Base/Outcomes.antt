-- ===== src/Base/Outcomes.antt =====
-- What a call of the C++ code can do: return, throw, or run into undefined behaviour.
-- No caller in the repository catches these exceptions, so the state that a throwing call has
-- half changed is never seen again and is not kept.
use mathlib.Core.Path.{◌≡◌, refl}
use mathlib.Core.Logic.{◌≢◌}
use mathlib.Core.Bool.{Bool, true, false}

-- One constructor for each std::runtime_error of the code, and for what the standard library and
-- jsoncpp throw.
pub data Error : Type 0 where
  invalid_header_version missing_first_string message_string_set total_length_exceeded : Error
  binary_base_unsupported json_base_failed unknown_format missing_msg_type : Error
  vary_header_size binary_message_unsupported bad_agents_info bad_all_locations : Error
  bad_opaque_send broadcast_with_recipients : Error
  unknown_handler invalid_message out_of_range json_misuse : Error
  connection_down invalid_application unknown_application binary_id_request : Error
  socket_error null_broker unresolved_server unbound_socket : Error
  log_not_opened log_not_open : Error
  input_not_found unknown_protocol unknown_trace_type bad_lexical_cast : Error
  binary_new_agents v0_conglomerate v1_conglomerate : Error

pub data Outcome {ℓ} (A : Type ℓ) : Type ℓ where
  returns : A → Outcome A
  throws : Error → Outcome A
  undefined : Outcome A

infixl 5 ◌>>=◌ ◌>>◌
abbrev pub ◌>>=◌ {ℓ κ} : {A : Type ℓ} {B : Type κ} → Outcome A → (A → Outcome B) → Outcome B
returns a >>= f = f a
throws e >>= f = throws e
undefined >>= f = undefined

abbrev pub ◌>>◌ {ℓ} : {B : Type ℓ} → Outcome (Unit {0}) → Outcome B → Outcome B
m >> k = m >>= λ _. k

-- `if (bad) { throw … }`
abbrev pub throw_if : Bool → Error → Outcome (Unit {0})
throw_if true e = throws e
throw_if false e = returns tt

-- A condition under which the C++ standard says nothing of what happens.
abbrev pub undefined_if : Bool → Outcome (Unit {0})
undefined_if true = undefined
undefined_if false = returns tt

pub >>=-eq-returns {ℓ κ} :
    {A : Type ℓ} {B : Type κ} (m : Outcome A) (f : A → Outcome B) {b : B}
    → (m >>= f) ≡ returns b
    → (a : A) × (m ≡ returns a) × (f a ≡ returns b)
>>=-eq-returns (returns a) f h = (a, refl, h)
>>=-eq-returns (throws e) f h = cc
>>=-eq-returns undefined f h = cc

-- The call comes back with a value.
abbrev pub Returns {ℓ} : {A : Type ℓ} → Outcome A → Type ℓ
Returns {A} m = (a : A) × (m ≡ returns a)

pub Returns-bind {ℓ κ} :
    {A : Type ℓ} {B : Type κ} (m : Outcome A) (f : A → Outcome B)
    → Returns m
    → ((a : A) → m ≡ returns a → Returns (f a))
    → Returns (m >>= f)
Returns-bind (returns a) f r k = k a refl
Returns-bind (throws e) f (a, p) k = cc
Returns-bind undefined f (a, p) k = cc

pub throw_if-returns :
    (bad : Bool) (e : Error) {t : Unit {0}} → throw_if bad e ≡ returns t → bad ≡ false
throw_if-returns true e h = cc
throw_if-returns false e h = refl

-- If the call comes back, its value has a property; and it does not throw this error.
abbrev pub Safe : {A : Type 0} → Error → (A → Type 0) → Outcome A → Type 0
Safe bad P (returns a) = P a
Safe bad P (throws e) = e ≢ bad
Safe bad P undefined = Unit {0}

pub Safe-bind :
    {A B : Type 0} (bad : Error) (P : A → Type 0) (Q : B → Type 0) (m : Outcome A)
    (f : A → Outcome B)
    → Safe bad P m
    → ((a : A) → P a → Safe bad Q (f a))
    → Safe bad Q (m >>= f)
Safe-bind bad P Q (returns a) f s k = k a s
Safe-bind bad P Q (throws e) f s k = s
Safe-bind bad P Q undefined f s k = tt

-- If the call comes back, its value has a property.
abbrev pub Ensures : {A : Type 0} → (A → Type 0) → Outcome A → Type 0
Ensures P (returns a) = P a
Ensures P (throws e) = Unit {0}
Ensures P undefined = Unit {0}

pub Ensures-bind :
    {A B : Type 0} (P : A → Type 0) (Q : B → Type 0) (m : Outcome A) (f : A → Outcome B)
    → Ensures P m
    → ((a : A) → P a → Ensures Q (f a))
    → Ensures Q (m >>= f)
Ensures-bind P Q (returns a) f s k = k a s
Ensures-bind P Q (throws e) f s k = tt
Ensures-bind P Q undefined f s k = tt

pub Ensures-any : {A : Type 0} (m : Outcome A) → Ensures (λ a. Unit {0}) m
Ensures-any (returns a) = tt
Ensures-any (throws e) = tt
Ensures-any undefined = tt

pub undefined_if-Ensures : (bad : Bool) → Ensures (λ t. bad ≡ false) (undefined_if bad)
undefined_if-Ensures true = tt
undefined_if-Ensures false = refl

pub Safe-Ensures :
    {A : Type 0} (bad : Error) (P : A → Type 0) (m : Outcome A) → Safe bad P m → Ensures P m
Safe-Ensures bad P (returns a) s = s
Safe-Ensures bad P (throws e) s = tt
Safe-Ensures bad P undefined s = tt
