-- ===== src/Trace/Text.antt =====
-- What parseLine of model/testing/rr_baseline.cc cuts out of a token, with find() and substr() of
-- std::string.
pub mod Tokens
use sm4ns.Base.{
  ℕ, zero, suc, ◌+◌, ◌-◌, ◌%◌, ◌^◌, ◌<◌, ◌≡◌, ◌≢◌, refl, sym, ap, ◌∙◌, Bool, true, false, ◌&&◌, ltb,
  ◌=ℕ◌, if◌then◌else◌, String, Outcome, returns, throws, out_of_range, ◌>>=◌, arith,
}
use Prim.Native.Char.{Char, code}

-- std::string::size
unfoldable pub size_text : String → ℕ
size_text String.[] = 0
size_text (String.◌∷◌ c s) = suc (size_text s)

-- std::string::npos
abbrev pub npos : ℕ
npos = 2 ^ 64 - 1

-- Sums and differences of std::size_t.
abbrev pub add_size : ℕ → ℕ → ℕ
add_size a b = (a + b) % 2 ^ 64

abbrev pub sub_size : ℕ → ℕ → ℕ
sub_size a b = (a + (2 ^ 64 - b)) % 2 ^ 64

unfoldable pub starts_with : String → String → Bool
starts_with String.[] s = true
starts_with (String.◌∷◌ c p) String.[] = false
starts_with (String.◌∷◌ c p) (String.◌∷◌ d s) = code c =ℕ code d && starts_with p s

-- The first position of `p` in `s`, which begins at position `i`.
unfoldable pub find_from : String → ℕ → String → ℕ
find_from p i String.[] = if starts_with p String.[] then i else npos
find_from p i (String.◌∷◌ c s) =
    let later = find_from p (suc i) s in if starts_with p (String.◌∷◌ c s) then i else later

unfoldable pub find_text : String → String → ℕ
find_text p s = find_from p 0 s

unfoldable pub take_text : ℕ → String → String
take_text zero s = String.[]
take_text (suc n) String.[] = String.[]
take_text (suc n) (String.◌∷◌ c s) = String.◌∷◌ c (take_text n s)

unfoldable pub drop_text : ℕ → String → String
drop_text zero s = s
drop_text (suc n) String.[] = String.[]
drop_text (suc n) (String.◌∷◌ c s) = drop_text n s

unfoldable pub substr : String → ℕ → ℕ → Outcome String
substr s pos n =
    if ltb (size_text s) pos then throws out_of_range else returns (take_text n (drop_text pos s))

-- "time:10ms"
unfoldable pub time_text : String → Outcome String
time_text token =
    let size = size_text token in
    substr token 5 (sub_size (sub_size size 5) (sub_size size (find_text "ms" token)))

unfoldable pub id_text : String → Outcome String
id_text token =
    let colon = find_text ":" token in
    substr token (add_size colon 1) (sub_size (size_text token) colon)

-- The x, the y and the recipients.
unfoldable pub coordinate_text : String → Outcome String
coordinate_text token =
    substr token (add_size (find_text ":" token) 1) (sub_size (size_text token) 1)
