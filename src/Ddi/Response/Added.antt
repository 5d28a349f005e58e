-- ===== src/Ddi/Response/Added.antt =====
-- The calls of `addData` that make the answer of `onConfigRequest`: what the ordered map holds of
-- them.
use mathlib.Core.Path.{subst}
use up2date_cpp.Base.{
  ◌≡◌, refl, ◌∙◌, ap, sym, inl, inr, true, false, Option, none, some, List, [], ◌∷◌, if◌then◌else◌,
  Bool-cases, arith,
}
use up2date_cpp.Text.{Text, equal, equal_iff, less}
use up2date_cpp.Text.Order.{less_irrefl, less_asymm}
use up2date_cpp.Multimap.{Multimap, IsSorted, NotBelow, NotBelow-weaken}
use up2date_cpp.Json.{or_else}
use up2date_cpp.Ddi.Response.{ConfigResponse, insert_new, add_data}

-- The value of the first element with a key.
unfoldable pub lookup : List (Text × Text) → Text → Option Text
lookup [] x = none
lookup ((k, v) ∷ m) x = let rest = lookup m x in if equal k x then some v else rest

abbrev pub one : Text → Text → Text → Option Text
one k v x = if equal k x then some v else none

pub or_else_assoc :
    {A : Type 0} (a b c : Option A) → or_else (or_else a b) c ≡ or_else a (or_else b c)
or_else_assoc none b c = refl
or_else_assoc (some a) b c = refl

pub or_else-none : {A : Type 0} (a : Option A) → or_else a none ≡ a
or_else-none none = refl
or_else-none (some a) = refl

NotBelow-insert_new :
    (j k v : Text) (m : Multimap) → less k j ≡ false → NotBelow j m → NotBelow j (insert_new k v m)
unfolding insert_new
NotBelow-insert_new j k v [] h n = (h, tt)
NotBelow-insert_new j k v ((i, w) ∷ m) h n = ground (arith, NotBelow-insert_new j k v m h n.1)

insert_new-IsSorted : (k v : Text) (m : Multimap) → IsSorted m → IsSorted (insert_new k v m)
unfolding insert_new
insert_new-IsSorted k v [] h = (tt, tt)
insert_new-IsSorted k v ((j, w) ∷ m) h = elim (Bool-cases (less k j)) [
  | inl before ↦ rw before ((less_asymm k j before, NotBelow-weaken k j m before h.0), h)
  | inr after ↦ elim (Bool-cases (equal j k)) [
    | inl same ↦ rw (after, same) h
    | inr other ↦
        rw (after, other) (NotBelow-insert_new j k v m after h.0, insert_new-IsSorted k v m h.1)
  ]
]

lookup_above : (k j : Text) (m : Multimap) → less k j ≡ true → NotBelow j m → lookup m k ≡ none
unfolding lookup
lookup_above k j [] h n = refl
lookup_above k j ((i, w) ∷ m) h n = ground (arith, lookup_above k j m h n.1, equal_iff i k)

in_front :
    (x k v : Text) (m : Multimap)
    → lookup m k ≡ none
    → lookup ((k, v) ∷ m) x ≡ or_else (lookup m x) (one k v x)
unfolding lookup
in_front x k v m missing = elim (Bool-cases (equal k x)) [
  | inl same ↦
      let gone : lookup m x ≡ none =
        subst (λ i. lookup m i ≡ none) ((equal_iff k x).0 same) missing in
      rw (same, gone) refl
  | inr other ↦ rw other (sym (or_else-none (lookup m x)))
]

there :
    (x j k v w : Text) (m : Multimap)
    → equal j k ≡ true
    → lookup ((j, w) ∷ m) x ≡ or_else (lookup ((j, w) ∷ m) x) (one k v x)
unfolding lookup
there x j k v w m same = elim (Bool-cases (equal j x)) [
  | inl found ↦ rw found refl
  | inr other ↦
      let differs : equal k x ≡ false = ground (arith, equal_iff j k) in
      rw (other, differs) (sym (or_else-none (lookup m x)))
]

behind :
    (x j w : Text) (m' m : Multimap) (more : Option Text)
    → lookup m' x ≡ or_else (lookup m x) more
    → lookup ((j, w) ∷ m') x ≡ or_else (lookup ((j, w) ∷ m) x) more
unfolding lookup
behind x j w m' m more h = elim (Bool-cases (equal j x)) [
  | inl found ↦ rw found refl
  | inr other ↦ rw other h
]

-- A key that is there keeps its value, and no other key changes.
lookup-insert_new :
    (x k v : Text) (m : Multimap)
    → IsSorted m
    → lookup (insert_new k v m) x ≡ or_else (lookup m x) (one k v x)
unfolding insert_new lookup
lookup-insert_new x k v [] h = refl
lookup-insert_new x k v ((j, w) ∷ m) h = elim (Bool-cases (less k j)) [
  | inl before ↦
      rw before
        (in_front x k v ((j, w) ∷ m) (lookup_above k j ((j, w) ∷ m) before (less_irrefl j, h.0)))
  | inr after ↦ elim (Bool-cases (equal j k)) [
    | inl same ↦ rw (after, same) (there x j k v w m same)
    | inr other ↦
        rw (after, other)
          (behind x j w (insert_new k v m) m (one k v x) (lookup-insert_new x k v m h.1))
  ]
]

pub lookup_cons :
    (x k v : Text) (m : Multimap) → or_else (one k v x) (lookup m x) ≡ lookup ((k, v) ∷ m) x
unfolding lookup
lookup_cons x k v m = ground arith

-- The calls of `addData` on a builder, in order.
unfoldable pub added : List (Text × Text) → ConfigResponse → ConfigResponse
unfolding add_data
added [] b = b
added ((k, v) ∷ calls) b = added calls (add_data k v b)

pub lookup-added :
    (x : Text) (calls : List (Text × Text)) (b : ConfigResponse)
    → IsSorted b.data_map
    → lookup (added calls b).data_map x ≡ or_else (lookup b.data_map x) (lookup calls x)
unfolding added add_data
lookup-added x [] b h = unfold lookup in sym (or_else-none _)
lookup-added x ((k, v) ∷ calls) b h =
    lookup-added x calls (add_data k v b) (insert_new-IsSorted k v b.data_map h)
    ∙ ap (λ r. or_else r (lookup calls x)) (lookup-insert_new x k v b.data_map h)
    ∙ or_else_assoc (lookup b.data_map x) (one k v x) (lookup calls x)
    ∙ ap (or_else (lookup b.data_map x)) (lookup_cons x k v calls)
