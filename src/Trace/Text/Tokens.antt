-- ===== src/Trace/Text/Tokens.antt =====
-- The tokens of a trace line, as the trace files write them, are cut out again (parseLine of
-- model/testing/rr_baseline.cc).
use sm4ns.Base.{
  ℕ, zero, suc, ◌+◌, ◌^◌, ◌<◌, ◌≤◌, ◌≡◌, ◌≢◌, refl, ap, ◌∙◌, false, ltb, ◌=ℕ◌, String, returns,
  arith,
}
use sm4ns.Trace.Text.{
  size_text, add_size, sub_size, starts_with, find_from, find_text, take_text, drop_text, substr,
  time_text, id_text,
}
use Prim.Native.Char.{Char, code}

-- One text behind the other.
abbrev pub append_text : String → String → String
append_text String.[] t = t
append_text (String.◌∷◌ c s) t = String.◌∷◌ c (append_text s t)

-- A character that does not occur.
abbrev pub Lacks : Char → String → Type 0
Lacks k String.[] = Unit {0}
Lacks k (String.◌∷◌ c s) = (code k ≢ code c) × Lacks k s

size-append : (s t : String) → size_text (append_text s t) ≡ size_text s + size_text t
unfolding size_text
size-append String.[] t = omega arith
size-append (String.◌∷◌ c s) t = omega (arith, size-append s t)

drop-append : (s t : String) → drop_text (size_text s) (append_text s t) ≡ t
unfolding size_text drop_text
drop-append String.[] t = refl
drop-append (String.◌∷◌ c s) t = drop-append s t

drop-after :
    (s : String) (c : Char) (t : String)
    → drop_text (suc (size_text s)) (append_text s (String.◌∷◌ c t)) ≡ t
unfolding size_text drop_text
drop-after String.[] c t = refl
drop-after (String.◌∷◌ d s) c t = drop-after s c t

take-append : (s t : String) → take_text (size_text s) (append_text s t) ≡ s
unfolding size_text take_text
take-append String.[] t = refl
take-append (String.◌∷◌ c s) t = ap (String.◌∷◌ c) (take-append s t)

take-all : (n : ℕ) (s : String) → size_text s ≤ n → take_text n s ≡ s
unfolding size_text take_text
take-all zero String.[] h = refl
take-all zero (String.◌∷◌ c s) h = absurd (omega arith)
take-all (suc n) String.[] h = refl
take-all (suc n) (String.◌∷◌ c s) h = ap (String.◌∷◌ c) (take-all n s (omega arith))

-- The search passes over a text in which the pattern's first character does not occur.
find-append :
    (k : Char) (p s t : String) (i : ℕ)
    → Lacks k s
    → find_from (String.◌∷◌ k p) i (append_text s t)
      ≡ find_from (String.◌∷◌ k p) (i + size_text s) t
unfolding find_from size_text starts_with
find-append k p String.[] t i h = ap (λ n. find_from (String.◌∷◌ k p) n t) (omega arith)
find-append k p (String.◌∷◌ c s) t i (apart, h) =
    let f : (code k =ℕ code c) ≡ false = ground arith in
    let ih = find-append k p s t (suc i) h in
    rw f (ih ∙ ap (λ n. find_from (String.◌∷◌ k p) n t) (omega arith))

substr-within :
    (s : String) (pos n : ℕ)
    → pos ≤ size_text s
    → substr s pos n ≡ returns (take_text n (drop_text pos s))
unfolding substr
substr-within s pos n h = let f : ltb (size_text s) pos ≡ false = ground arith in rw f refl

-- If a line says its time as "time:<t>ms" and its agent as "<name>:<id>", where <t> has no "m" and
-- <name> no ":", and the tokens are shorter than 2 ^ 64: what is cut out is <t> and <id>.
pub time-id-tokens :
    (t name id : String)
    → Lacks "m" t
    → Lacks ":" name
    → 7 + size_text t < 2 ^ 64
    → size_text name + 1 + size_text id < 2 ^ 64
    → (time_text (append_text "time:" (append_text t "ms")) ≡ returns t)
      × (id_text (append_text name (append_text ":" id)) ≡ returns id)
time-id-tokens t name id no_m no_colon short_time short_id = (time, agent)
  where
    time : time_text (append_text "time:" (append_text t "ms")) ≡ returns t
    time =
        let token = append_text "time:" (append_text t "ms") in
        let size : size_text token ≡ 7 + size_text t =
          unfold size_text in omega (arith, size-append t "ms") in
        let at : find_text "ms" token ≡ 5 + size_text t =
          unfold find_text in
          unfold find_from in unfold starts_with in find-append "m" "s" t "ms" 5 no_m in
        let count : sub_size (sub_size (size_text token) 5)
              (sub_size (size_text token) (find_text "ms" token))
            ≡ size_text t =
          omega arith in
        unfold time_text in
        ap (substr token 5) count
        ∙ substr-within token 5 (size_text t) (omega arith)
        ∙ ap returns (unfold drop_text in take-append t "ms")

    agent : id_text (append_text name (append_text ":" id)) ≡ returns id
    agent =
        let token = append_text name (append_text ":" id) in
        let size : size_text token ≡ size_text name + 1 + size_text id =
          unfold size_text in omega (arith, size-append name (append_text ":" id)) in
        let at : find_text ":" token ≡ size_text name =
          unfold find_text in
          unfold find_from in
          find-append ":" "" name (append_text ":" id) 0 no_colon
          ∙ (unfold starts_with in omega arith) in
        let start : add_size (find_text ":" token) 1 ≡ suc (size_text name) = omega arith in
        let count : sub_size (size_text token) (find_text ":" token) ≡ suc (size_text id) =
          omega arith in
        unfold id_text in
        ap (λ n. substr token n (sub_size (size_text token) (find_text ":" token))) start
        ∙ ap (substr token (suc (size_text name))) count
        ∙ substr-within token (suc (size_text name)) (suc (size_text id)) (omega arith)
        ∙ ap (λ s. returns (take_text (suc (size_text id)) s)) (drop-after name ":" id)
        ∙ ap returns (take-all (suc (size_text id)) id (omega arith))
