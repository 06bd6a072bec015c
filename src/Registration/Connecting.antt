-- ===== src/Registration/Connecting.antt =====
-- How often doConnect tries (model/network/registration.cc).
use sm4ns.Base.{
  ℕ, zero, suc, ◌+◌, ◌%◌, ◌^◌, ◌<◌, ◌≡◌, refl, ap, ◌∙◌, ◌=ℕ◌, true, false, Option, none, some,
  Outcome, returns, throws, undefined, ◌>>=◌, arith,
}
use sm4ns.Session.{Session}
use sm4ns.Registration.{connect_from, do_connect}

-- `count` attempts from the one numbered `sec` on; the first that connects is the last.
abbrev pub attempts : (ℕ → Outcome (Option Session)) → ℕ → ℕ → Outcome (Option Session)
attempts connect sec zero = returns none
attempts connect sec (suc count) = do
  connected ← connect sec
  let rest = attempts connect (suc sec) count
  elim connected [ some session ↦ returns (some session) | none ↦ rest ]

connect_from-attempts :
    (connect : ℕ → Outcome (Option Session)) (timeout sec left rounds : ℕ)
    → sec + suc left ≡ timeout
    → timeout < 2 ^ 32
    → left < rounds
    → connect_from connect timeout sec rounds
      ≡ (attempts connect sec (suc left) >>= λ o. returns (some o))
connect_from-attempts connect timeout sec left zero e small h = absurd (omega arith)
connect_from-attempts connect timeout sec zero (suc rounds) e small h =
    by_attempt (connect sec) refl
  where
    last : ((sec + 1) % 2 ^ 32 =ℕ timeout) ≡ true
    last = ground arith

    by_attempt :
        (m : Outcome (Option Session))
        → connect sec ≡ m
        → connect_from connect timeout sec (suc rounds)
          ≡ (attempts connect sec 1 >>= λ o. returns (some o))
    by_attempt (returns (some session)) c = unfold connect_from in rw (c, connect_from) refl
    by_attempt (returns none) c = unfold connect_from in rw (c, connect_from) (rw last)
    by_attempt (throws x) c = unfold connect_from in rw (c, connect_from) refl
    by_attempt undefined c = unfold connect_from in rw (c, connect_from) refl
connect_from-attempts connect timeout sec (suc left) (suc rounds) e small h =
    by_attempt (connect sec) refl (
      connect_from-attempts connect timeout (suc sec) left rounds (omega arith) small (omega arith))
  where
    more : ((sec + 1) % 2 ^ 32 =ℕ timeout) ≡ false
    more = ground arith

    next : (sec + 1) % 2 ^ 32 ≡ suc sec
    next = omega arith

    by_attempt :
        (m : Outcome (Option Session))
        → connect sec ≡ m
        → connect_from connect timeout (suc sec) rounds
          ≡ (attempts connect (suc sec) (suc left) >>= λ o. returns (some o))
        → connect_from connect timeout sec (suc rounds)
          ≡ (attempts connect sec (suc (suc left)) >>= λ o. returns (some o))
    by_attempt (returns (some session)) c ih = unfold connect_from in rw (c, connect_from) refl
    by_attempt (returns none) c ih =
        unfold connect_from in
        rw (c, connect_from) (rw more (ap (λ n. connect_from connect timeout n rounds) next ∙ ih))
    by_attempt (throws x) c ih = unfold connect_from in rw (c, connect_from) refl
    by_attempt undefined c ih = unfold connect_from in rw (c, connect_from) refl

-- For a timeout of at least one and below 2 ^ 32, doConnect always comes to an answer: that of at
-- most `timeout` attempts in a row, of which the first that connects is the last. It gives up
-- after exactly `timeout` attempts; an exception of an attempt ends it at once.
pub do_connect-attempts :
    (connect : ℕ → Outcome (Option Session)) (timeout : ℕ)
    → 0 < timeout
    → timeout < 2 ^ 32
    → do_connect connect timeout ≡ (attempts connect 0 timeout >>= λ o. returns (some o))
unfolding do_connect
do_connect-attempts connect zero some_time small = absurd (omega arith)
do_connect-attempts connect (suc left) some_time small =
    connect_from-attempts connect (suc left) 0 left (2 ^ 32) (omega arith) small (omega arith)
