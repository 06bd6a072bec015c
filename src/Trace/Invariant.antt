-- ===== src/Trace/Invariant.antt =====
-- What holds of a trace between two lines (model/testing/rr_baseline.cc), and what the steps of parseLine
-- do to it.
use sm4ns.Base.{
  ℕ, suc, ◌<◌, ◌≤◌, ◌≡◌, inl, inr, refl, subst, Bool, true, false, ltb, if◌then◌else◌, Option-cases,
  List, [], ◌∷◌, length, get_elem?, String, Option, none, some, Outcome, returns, throws, undefined,
  ◌>>=◌, Safe, Safe-bind, arith, eq_refl, unknown_trace_type, out_of_range,
}
use sm4ns.Base.Maps.{Map, find, assign, insert, find-assign, find-insert}
use sm4ns.Trace.Text.{substr, size_text, take_text, drop_text}
use sm4ns.Trace.{
  TimeTick, Ticks, TextSet, Trace, change_tick, contains, type_of, token, cast, new_tick,
}
use Prim.Native.Nat.{compare, Ordering}

-- The ticks are in strictly ascending order, from `least` on.
abbrev pub Ascending : {R : Type 0} → ℕ → Ticks R → Type 0
Ascending least [] = Unit {0}
Ascending least ((t, tick) ∷ ticks) = (least ≤ t) × Ascending (suc t) ticks

change_tick-Ascending :
    {R : Type 0} (time : ℕ) (change : TimeTick R → TimeTick R) (least : ℕ) (ticks : Ticks R)
    → least ≤ time
    → Ascending least ticks
    → Ascending least (change_tick time change ticks)
unfolding change_tick
change_tick-Ascending time change least [] h a = (h, tt)
change_tick-Ascending {R = R} time change least ((t, tick) ∷ ticks) h (here, later) =
    by_order (compare time t) refl (change_tick-Ascending time change (suc t) ticks)
  where
    by_order :
        (o : Ordering)
        → compare time t ≡ o
        → (suc t ≤ time
            → Ascending (suc t) ticks
            → Ascending (suc t) (change_tick time change ticks))
        → Ascending least (elim o as (λ x. Ticks R) [
          | Ordering.lt ↦ (time, change new_tick) ∷ (t, tick) ∷ ticks
          | Ordering.eq ↦ (time, change tick) ∷ ticks
          | Ordering.gt ↦ (t, tick) ∷ change_tick time change ticks
        ])
    by_order Ordering.lt e ih = (h, (ground arith, later))
    by_order Ordering.eq e ih = (h, subst (λ n. Ascending (suc n) ticks) (ground arith) later)
    by_order Ordering.gt e ih = (here, ih (ground arith) later)

length-assign :
    {V : Type 0} (k : String) (v : V) (m : Map V) → length (assign k v m) ≤ suc (length m)
unfolding assign
length-assign k v [] = omega arith
length-assign k v ((j, w) ∷ m) = let ih = length-assign k v m in ground arith

pub length-insert :
    {V : Type 0} (k : String) (v : V) (m : Map V) → length (insert k v m) ≤ suc (length m)
unfolding insert
length-insert k v m = let ih = length-assign k v m in ground arith

pub insert-known : (id : String) (ids : TextSet) → contains id ids ≡ true → insert id tt ids ≡ ids
unfolding insert contains
insert-known id ids h = ground arith

-- Between two lines: the agents that may take part are those that were added, at most as many as were
-- asked for; the ticks are in order; and the types of lines are those of the enum.
pub record Consistent (R : Type 0) (n : ℕ) (t : Trace R) : Type 0 where
  pub same_agents : t.agents_list ≡ t.agent_limit
  pub few_agents : length t.agent_limit ≤ n
  pub max_kept : t.max_nof_agents ≡ n
  pub ascending : Ascending 0 t.trace_time_ticks
  pub known_types : (text : String) (type : ℕ) → find text t.message_map ≡ some type → type < 3

abbrev pub Fine : (R : Type 0) → ℕ → Outcome (Trace R) → Type 0
Fine R n m = Safe unknown_trace_type (Consistent R n) m

-- A call that does not throw that error, whatever it returns.
abbrev Quiet : {A : Type 0} → Outcome A → Type 0
Quiet m = Safe unknown_trace_type (λ a. Unit {0}) m

pub then-Fine :
    {A R : Type 0} (n : ℕ) (m : Outcome A) (f : A → Outcome (Trace R))
    → Quiet m
    → ((a : A) → Fine R n (f a))
    → Fine R n (m >>= f)
then-Fine {R = R} n m f q k =
    Safe-bind unknown_trace_type (λ a. Unit {0}) (Consistent R n) m f q (λ a h. k a)

pub token-Quiet : (tokens : List String) (i : ℕ) → Quiet (token tokens i)
unfolding token
token-Quiet tokens i =
    elim (get_elem? tokens i)
      as (λ o.
        Quiet (elim o as (λ x. Outcome String) [ some text ↦ returns text | none ↦ undefined ])) [
          | some text ↦ tt
          | none ↦ tt
        ]

pub cast-Quiet : {A : Type 0} (o : Option A) → Quiet (cast o)
cast-Quiet none = λ e. cc
cast-Quiet (some a) = tt

pub substr-Quiet : (s : String) (pos n : ℕ) → Quiet (substr s pos n)
unfolding substr
substr-Quiet s pos n =
    elim (ltb (size_text s) pos)
      as (λ b. Quiet (if b then throws out_of_range else returns (take_text n (drop_text pos s)))) [
        | true ↦ λ e. cc
        | false ↦ tt
      ]

pub ticks_changed :
    {R : Type 0} {n : ℕ} (t : Trace R)
    → Consistent R n t
    → (time : ℕ) (change : TimeTick R → TimeTick R)
    → Consistent R n (record t { trace_time_ticks = change_tick time change t.trace_time_ticks })
ticks_changed t h time change = record {
  same_agents = h.same_agents;
  few_agents = h.few_agents;
  max_kept = h.max_kept;
  ascending = change_tick-Ascending time change 0 t.trace_time_ticks (omega arith) h.ascending;
  known_types = h.known_types;
}

pub if-Fine :
    {R : Type 0} (n : ℕ) (c : Bool) (x y : Outcome (Trace R))
    → Fine R n x
    → Fine R n y
    → Fine R n (if c then x else y)
if-Fine n true x y hx hy = hx
if-Fine n false x y hx hy = hy

pub if-Consistent :
    {R : Type 0} {n : ℕ} (c : Bool) (x y : Trace R)
    → (c ≡ true → Consistent R n x)
    → (c ≡ false → Consistent R n y)
    → Consistent R n (if c then x else y)
if-Consistent true x y hx hy = hx refl
if-Consistent false x y hx hy = hy refl

pub contains-insert : (id : String) (ids : TextSet) → contains id (insert id tt ids) ≡ true
unfolding contains
contains-insert id ids = ground (arith, find-insert id id tt ids, eq_refl id)

-- A text that is not there gets the first value of the enum.
pub type_of-known :
    (text : String) (types : Map ℕ)
    → ((other : String) (type : ℕ) → find other types ≡ some type → type < 3)
    → ((type_of text types).0 < 3)
      × ((other : String) (type : ℕ) → find other (type_of text types).1 ≡ some type → type < 3)
unfolding type_of
type_of-known text types h = elim (Option-cases (find text types)) [
  | inr (type, there) ↦ rw (there, type_of) (h text type there, h)
  | inl missing ↦
      rw (missing, type_of)
        (
          omega arith,
          λ other type e. let f = find-assign other text 0 types in ground (arith, h other type),
        )
]
