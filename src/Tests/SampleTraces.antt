-- ===== src/Tests/SampleTraces.antt =====
-- For the tests, what boost does with texts, and two traces.
use sm4ns.Base.{
  ℕ, ◌+◌, ◌-◌, ◌*◌, Bool, true, false, ◌&&◌, ◌=ℕ◌, leb, if◌then◌else◌, String, List, [], ◌∷◌,
  Option, none, some,
}
use sm4ns.Trace.{Boost}
use Prim.Native.Char.{Char, code}

abbrev put_first : Char → List String → List String
put_first c [] = String.◌∷◌ c String.[] ∷ []
put_first c (token ∷ tokens) = String.◌∷◌ c token ∷ tokens

abbrev is_one : Char → String → Bool
is_one c String.[] = false
is_one c (String.◌∷◌ d s) = let later = is_one c s in if code c =ℕ code d then true else later

abbrev split_text : String → String → List String
split_text String.[] separators = "" ∷ []
split_text (String.◌∷◌ c s) separators =
    let rest = split_text s separators in
    if is_one c separators then "" ∷ rest else put_first c rest

abbrev read_digits : String → ℕ → Option ℕ
read_digits String.[] n = some n
read_digits (String.◌∷◌ c s) n =
    let rest = read_digits s (n * 10 + (code c - 48)) in
    if leb 48 (code c) && leb (code c) 57 then rest else none

abbrev pub sample_boost : Boost ℕ
sample_boost = record {
  split = split_text;
  to_unsigned = λ s. read_digits s 0;
  to_double = λ s. read_digits s 0;
}

-- Two ticks, at the times 0 and 10, and one agent.
abbrev pub short_trace : List String
short_trace =
    "0" ∷ "add_agent;time:0ms;agent_id:7" ∷ "10" ∷ "update_agent;time:10ms;agent_id:7;x:3;y:4" ∷ []
