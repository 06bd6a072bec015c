-- ===== src/Tests/SampleMembers.antt =====
-- Reading members of the sample library's objects, and appending to its arrays.
use sm4ns.Base.{
  ℕ, zero, suc, ◌<◌, ◌≡◌, ◌≢◌, refl, ap, sym, subst, ◌∙◌, true, false, if◌then◌else◌, String,
  returns, ◌==◌, ◌⊎◌, inl, inr, arith, eq_iff, eq_refl,
}
use sm4ns.JsonLib.{ReadsMembers, ReadsReals, BuildsArrays, null_value, array_value, object_value}
use sm4ns.Tests.SampleJson.{
  Tree, nothing, no_members, no_items, text, characters, flag, number, member, item, sample,
  kind_of, lookup, has_name, update, size_of, item_at, add_item,
}
use sm4ns.Tests.SampleLaws.{kind-update, kind-get, lookup-update}

has_name-update :
    (v : Tree) (name other : String) (x : Tree)
    → has_name (update v name x) other ≡ (if other == name then true else has_name v other)
has_name-update (member n y rest) name other x =
    let ih = has_name-update rest name other x in
    ground (arith, eq_iff other name, eq_iff name n, eq_iff other n)
has_name-update nothing name other x = refl
has_name-update no_members name other x = refl
has_name-update no_items name other x = refl
has_name-update (text s) name other x = refl
has_name-update (characters s) name other x = refl
has_name-update (flag b) name other x = refl
has_name-update (number b) name other x = refl
has_name-update (item y rest) name other x = refl

-- What a call of set has done if it returns.
set-cases :
    (v v' : Tree) (name : String) (x : Tree)
    → sample.set v name x ≡ returns v'
    → ((kind_of v ≡ null_value) ⊎ (kind_of v ≡ object_value)) × (update v name x ≡ v')
set-cases nothing v' name x e = (inl refl, cc)
set-cases no_members v' name x e = (inr refl, cc)
set-cases (member n y rest) v' name x e =
    (inr refl, let q : returns (update (member n y rest) name x) ≡ returns v' = e in cc)
set-cases no_items v' name x e = absurd cc
set-cases (text s) v' name x e = absurd cc
set-cases (characters s) v' name x e = absurd cc
set-cases (flag b) v' name x e = absurd cc
set-cases (number b) v' name x e = absurd cc
set-cases (item y rest) v' name x e = absurd cc

is_member-object :
    (v : Tree) (name : String)
    → kind_of v ≡ object_value
    → sample.is_member v name ≡ returns (has_name v name)
is_member-object v name k = rw (k, sample) refl

pub sample-ReadsMembers : ReadsMembers sample
sample-ReadsMembers = record {
  unset = λ name. (refl, refl);
  there = added;
  others = untouched;
  not_null = objects;
  read_back_bool = λ b. refl;
}
  where
    added :
        (v v' : Tree) (name : String) (x : Tree)
        → sample.set v name x ≡ returns v'
        → sample.is_member v' name ≡ returns true
    added v v' name x e =
        let (k, same) = set-cases v v' name x e in
        subst (λ t. sample.is_member t name ≡ returns true) same
          (is_member-object (update v name x) name (kind-update v name x)
            ∙ ap returns (has_name-update v name name x ∙ rw (eq_refl name) refl))

    absent :
        (v : Tree) (other : String)
        → (kind_of v ≡ null_value) ⊎ (kind_of v ≡ object_value)
        → (sample.is_member v other ≡ returns (has_name v other))
          × (sample.get v other ≡ returns (lookup v other))
    absent v other (inr k) = (is_member-object v other k, kind-get v other k)
    absent nothing other (inl k) = (refl, refl)
    absent no_members other (inl k) = absurd cc
    absent (member n y rest) other (inl k) = absurd cc
    absent no_items other (inl k) = absurd cc
    absent (text s) other (inl k) = absurd cc
    absent (characters s) other (inl k) = absurd cc
    absent (flag b) other (inl k) = absurd cc
    absent (number b) other (inl k) = absurd cc
    absent (item y rest) other (inl k) = absurd cc

    untouched :
        (v v' : Tree) (name other : String) (x : Tree)
        → sample.set v name x ≡ returns v'
        → other ≢ name
        → (sample.is_member v' other ≡ sample.is_member v other)
          × (sample.get v' other ≡ sample.get v other)
    untouched v v' name other x e apart =
        let (k, same) = set-cases v v' name x e in
        let (m0, g0) = absent v other k in
        let (m1, g1) = absent (update v name x) other (inr (kind-update v name x)) in
        let f : (other == name) ≡ false = ground (arith, eq_iff other name) in
        let m = has_name-update v name other x ∙ rw f refl in
        let l = lookup-update v name other x ∙ rw f refl in
        subst
          (λ t.
            (sample.is_member t other ≡ sample.is_member v other)
            × (sample.get t other ≡ sample.get v other))
          same (m1 ∙ ap returns m ∙ sym m0, g1 ∙ ap returns l ∙ sym g0)

    objects : (v : Tree) → kind_of v ≡ object_value → sample.is_null v ≡ false
    objects no_members k = refl
    objects (member n y rest) k = refl
    objects nothing k = absurd cc
    objects no_items k = absurd cc
    objects (text s) k = absurd cc
    objects (characters s) k = absurd cc
    objects (flag b) k = absurd cc
    objects (number b) k = absurd cc
    objects (item y rest) k = absurd cc

items-add :
    (v x : Tree)
    → (kind_of (add_item v x) ≡ array_value)
      × (size_of (add_item v x) ≡ suc (size_of v))
      × (item_at (add_item v x) (size_of v) ≡ returns x)
      × ((i : ℕ) → i < size_of v → item_at (add_item v x) i ≡ item_at v i)
items-add (item y rest) x =
    let (_, size, last, old) = items-add rest x in (refl, ap suc size, last, λ i h. older old i h)
  where
    older :
        ((i : ℕ) → i < size_of rest → item_at (add_item rest x) i ≡ item_at rest i)
        → (i : ℕ) → i < suc (size_of rest)
        → item_at (item y (add_item rest x)) i ≡ item_at (item y rest) i
    older old zero h = refl
    older old (suc i) h = old i (omega arith)
items-add nothing x = (refl, refl, refl, λ i h. absurd (omega arith))
items-add no_members x = (refl, refl, refl, λ i h. absurd (omega arith))
items-add no_items x = (refl, refl, refl, λ i h. absurd (omega arith))
items-add (text s) x = (refl, refl, refl, λ i h. absurd (omega arith))
items-add (characters s) x = (refl, refl, refl, λ i h. absurd (omega arith))
items-add (flag b) x = (refl, refl, refl, λ i h. absurd (omega arith))
items-add (number b) x = (refl, refl, refl, λ i h. absurd (omega arith))
items-add (member n y rest) x = (refl, refl, refl, λ i h. absurd (omega arith))

pub sample-BuildsArrays : BuildsArrays sample
sample-BuildsArrays = record {
  no_items = refl;
  appended = λ v x k.
      (let (kind, size, last, old) = items-add v x in
        (add_item v x, append_lem v x k, kind, size, last, old));
  tells_arrays = λ v k. rw (k, sample) refl;
}
  where
    append_lem :
        (v x : Tree)
        → (kind_of v ≡ null_value) ⊎ (kind_of v ≡ array_value)
        → sample.append v x ≡ returns (add_item v x)
    append_lem v x (inl k) = rw (k, sample) refl
    append_lem v x (inr k) = rw (k, sample) refl

pub sample-ReadsReals : ReadsReals sample
sample-ReadsReals = record { read_back_real = λ x. refl }
