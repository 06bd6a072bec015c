-- ===== src/Registration/Reached.antt =====
-- How doConnect reaches the server (model/network/registration.cc) by Connection::connect
-- (model/network/smb_connection.cc).
use sm4ns.Base.{
  ℕ, zero, suc, ◌+◌, ◌*◌, ◌^◌, ◌<◌, ◌≡◌, refl, ap, ◌∙◌, String, List, ◌∷◌, Option, none, some,
  Outcome, returns, throws, arith, unresolved_server,
}
use sm4ns.Session.{Session}
use sm4ns.Session.Connect.{connect, session_connect}
use sm4ns.Registration.{do_connect}
use sm4ns.Registration.Connecting.{attempts, do_connect-attempts}

-- An attempt where the name is resolved.
connect-resolved :
    (resolve : ℕ → Option (List String)) (reach : ℕ → String → Option Session) (attempt : ℕ)
    (endpoint : String) (later : List String)
    → ((n : ℕ) → resolve n ≡ some (endpoint ∷ later))
    → connect resolve reach attempt ≡ returns (reach attempt endpoint)
unfolding connect session_connect
connect-resolved resolve reach attempt endpoint later found =
    rw (found (2 * attempt), found (2 * attempt + 1)) refl

-- Attempts that fail, and then one that succeeds.
attempts-reached :
    (try : ℕ → Outcome (Option Session)) (sec failures count : ℕ) (session : Session)
    → failures < count
    → ((n : ℕ) → n < failures → try (sec + n) ≡ returns none)
    → try (sec + failures) ≡ returns (some session)
    → attempts try sec count ≡ returns (some session)
attempts-reached try sec failures zero session less down up = absurd (omega (arith, less))
attempts-reached try sec zero (suc count) session less down up =
    let now : try sec ≡ returns (some session) = ap try (omega arith) ∙ up in rw now refl
attempts-reached try sec (suc failures) (suc count) session less down up =
    let now : try sec ≡ returns none = ap try (omega arith) ∙ down 0 (omega arith) in
    let later =
      attempts-reached try (suc sec) failures count session (omega (arith, less))
        (λ n small. ap try (omega arith) ∙ down (suc n) (omega (arith, small)))
        (ap try (omega arith) ∙ up) in
    rw now (rw later refl)

-- For a timeout below 2 ^ 32: if every query finds the server, and the first endpoint of its list
-- refuses some connections, fewer than the timeout, and then accepts one, doConnect comes back with
-- the session of that one.
pub do_connect-reached :
    (resolve : ℕ → Option (List String)) (reach : ℕ → String → Option Session)
    (timeout failures : ℕ) (endpoint : String) (later : List String) (session : Session)
    → timeout < 2 ^ 32
    → failures < timeout
    → ((n : ℕ) → resolve n ≡ some (endpoint ∷ later))
    → ((n : ℕ) → n < failures → reach n endpoint ≡ none)
    → reach failures endpoint ≡ some session
    → do_connect (connect resolve reach) timeout ≡ returns (some (some session))
do_connect-reached resolve reach timeout failures endpoint later session small less found refused
      accepted =
    let try = λ (n : ℕ). connect-resolved resolve reach n endpoint later found in
    let reached =
      attempts-reached (connect resolve reach) 0 failures timeout session less
        (λ n few.
          try (0 + n)
          ∙ ap (λ k. returns (reach k endpoint)) (omega arith)
          ∙ ap returns (refused n few))
        (try (0 + failures)
          ∙ ap (λ k. returns (reach k endpoint)) (omega arith)
          ∙ ap returns accepted) in
    do_connect-attempts (connect resolve reach) timeout (omega (arith, less)) small
    ∙ rw reached refl

-- If the name cannot be resolved when it is asked for the second time, doConnect throws in its
-- first round, without another attempt.
pub do_connect-unresolved :
    (resolve : ℕ → Option (List String)) (reach : ℕ → String → Option Session) (timeout : ℕ)
    → 0 < timeout
    → timeout < 2 ^ 32
    → resolve 1 ≡ none
    → do_connect (connect resolve reach) timeout ≡ throws unresolved_server
do_connect-unresolved resolve reach zero some_time small lost = absurd (omega (arith, some_time))
do_connect-unresolved resolve reach (suc rounds) some_time small lost =
    let failed : connect resolve reach 0 ≡ throws unresolved_server =
      unfold connect in rw lost refl in
    do_connect-attempts (connect resolve reach) (suc rounds) some_time small ∙ rw failed refl
