-- ===== src/Tests/SampleLaws.antt =====
-- The sample library keeps to what jsoncpp documents.
use sm4ns.Base.{
  ℕ, zero, suc, ◌<◌, ◌≡◌, ◌≢◌, refl, ap, sym, ◌∙◌, false, if◌then◌else◌, String, List, [], ◌∷◌, All,
  returns, ◌==◌, ◌⊎◌, inl, inr, arith, eq_iff, eq_refl,
}
use sm4ns.JsonLib.{IsTree, BuildsObjects, null_value, string_value, object_value}
use sm4ns.Tests.SampleJson.{
  Tree, nothing, no_members, no_items, text, characters, flag, number, member, item, sample,
  kind_of, depth_of, names_of, lookup, update, size_of, item_at,
}

items-less :
    (v : Tree) (i : ℕ)
    → i < size_of v
    → (x : Tree) × (item_at v i ≡ returns x) × (depth_of x < depth_of v)
items-less (item x rest) zero h = (x, refl, omega arith)
items-less (item x rest) (suc i) h =
    let (y, e, less) = items-less rest i (omega arith) in (y, e, omega arith)
items-less nothing i h = absurd (omega arith)
items-less no_members i h = absurd (omega arith)
items-less no_items i h = absurd (omega arith)
items-less (text s) i h = absurd (omega arith)
items-less (characters s) i h = absurd (omega arith)
items-less (flag b) i h = absurd (omega arith)
items-less (number b) i h = absurd (omega arith)
items-less (member n x rest) i h = absurd (omega arith)

lookup-less :
    (n : String) (x rest : Tree) (name : String)
    → depth_of (lookup rest name) < suc (depth_of rest)
    → depth_of (lookup (member n x rest) name) < depth_of (member n x rest)
lookup-less n x rest name h = ground arith

lookup-within : (v : Tree) (name : String) → depth_of (lookup v name) < suc (depth_of v)
lookup-within (member n x rest) name = let h = lookup-within rest name in ground arith
lookup-within nothing name = omega arith
lookup-within no_members name = omega arith
lookup-within no_items name = omega arith
lookup-within (text s) name = omega arith
lookup-within (characters s) name = omega arith
lookup-within (flag b) name = omega arith
lookup-within (number b) name = omega arith
lookup-within (item x rest) name = omega arith

members-less :
    (n : String) (x rest : Tree) (names : List String)
    → All
        (λ name.
          (y : Tree) × (sample.get (member n x rest) name ≡ returns y)
          × (depth_of y < depth_of (member n x rest)))
        names
members-less n x rest [] = tt
members-less n x rest (name ∷ names) =
    ((_, refl, lookup-less n x rest name (lookup-within rest name)), members-less n x rest names)

pub sample-IsTree : IsTree sample
sample-IsTree = record {
  items = λ v i k h. items-less v i h;
  members = all_members;
  characters = all_characters;
}
  where
    all_members :
        (v : Tree)
        → kind_of v ≡ object_value
        → All
            (λ name. (x : Tree) × (sample.get v name ≡ returns x) × (depth_of x < depth_of v))
            (names_of v)
    all_members (member n x rest) k = members-less n x rest (names_of (member n x rest))
    all_members no_members k = tt
    all_members nothing k = tt
    all_members no_items k = tt
    all_members (text s) k = tt
    all_members (characters s) k = tt
    all_members (flag b) k = tt
    all_members (number b) k = tt
    all_members (item x rest) k = tt

    all_characters :
        (v : Tree) → kind_of v ≡ string_value → (s : String) × (sample.as_c_string v ≡ returns s)
    all_characters (text s) k = (s, refl)
    all_characters (characters s) k = ("", refl)
    all_characters (member n x rest) k = cc
    all_characters no_members k = cc
    all_characters nothing k = cc
    all_characters no_items k = cc
    all_characters (flag b) k = cc
    all_characters (number b) k = cc
    all_characters (item x rest) k = cc

pub lookup-update :
    (v : Tree) (name other : String) (x : Tree)
    → lookup (update v name x) other ≡ (if other == name then x else lookup v other)
lookup-update (member n y rest) name other x =
    let ih = lookup-update rest name other x in
    ground (arith, eq_iff other name, eq_iff name n, eq_iff other n)
lookup-update nothing name other x = refl
lookup-update no_members name other x = refl
lookup-update no_items name other x = refl
lookup-update (text s) name other x = refl
lookup-update (characters s) name other x = refl
lookup-update (flag b) name other x = refl
lookup-update (number b) name other x = refl
lookup-update (item y rest) name other x = refl

pub kind-update : (v : Tree) (name : String) (x : Tree) → kind_of (update v name x) ≡ object_value
kind-update (member n y rest) name x = ground arith
kind-update nothing name x = refl
kind-update no_members name x = refl
kind-update no_items name x = refl
kind-update (text s) name x = refl
kind-update (characters s) name x = refl
kind-update (flag b) name x = refl
kind-update (number b) name x = refl
kind-update (item y rest) name x = refl

pub kind-get :
    (v : Tree) (name : String)
    → kind_of v ≡ object_value
    → sample.get v name ≡ returns (lookup v name)
kind-get v name k = rw (k, sample) refl

set-update :
    (v : Tree) (name : String) (x : Tree)
    → (kind_of v ≡ null_value) ⊎ (kind_of v ≡ object_value)
    → sample.set v name x ≡ returns (update v name x)
set-update v name x (inl k) = rw (k, sample) refl
set-update v name x (inr k) = rw (k, sample) refl

pub sample-BuildsObjects : BuildsObjects sample
sample-BuildsObjects = record {
  fresh = refl;
  assigned = set_member;
  kept = others;
  read_back = λ s. refl;
}
  where
    set_member :
        (v : Tree) (name : String) (x : Tree)
        → (kind_of v ≡ null_value) ⊎ (kind_of v ≡ object_value)
        → (v' : Tree) × (sample.set v name x ≡ returns v')
          × (kind_of v' ≡ object_value)
          × (sample.get v' name ≡ returns x)
    set_member v name x k = (
      update v name x,
      set-update v name x k,
      kind-update v name x,
      kind-get (update v name x) name (kind-update v name x)
          ∙ ap returns (lookup-update v name name x ∙ rw (eq_refl name) refl),
    )

    others :
        (v v' : Tree) (name other : String) (x : Tree)
        → sample.set v name x ≡ returns v'
        → kind_of v ≡ object_value
        → other ≢ name
        → sample.get v' other ≡ sample.get v other
    others v v' name other x e k apart =
        let same : returns (update v name x) ≡ returns v' = sym (set-update v name x (inr k)) ∙ e in
        kind-get v' other (kind_changed same) ∙ ap returns (changed same) ∙ sym (kind-get v other k)
      where
        kind_changed : returns (update v name x) ≡ returns v' → kind_of v' ≡ object_value
        kind_changed same = let k' = kind-update v name x in cc

        changed : returns (update v name x) ≡ returns v' → lookup v' other ≡ lookup v other
        changed same =
            let l = lookup-update v name other x in
            let f : (other == name) ≡ false = ground (arith, eq_iff other name) in
            let m : lookup (update v name x) other ≡ lookup v other = l ∙ rw f refl in cc
