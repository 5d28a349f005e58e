-- ===== src/Multimap.antt =====
-- `std::multimap<std::string, std::string>` as the list of its elements in key order: `insert`
-- puts a new element behind the elements of the same key, `erase` removes all elements of a key.
use mathlib.Core.Path.{subst}
use up2date_cpp.Base.{
  ◌≡◌, refl, ap, ◌∙◌, inl, inr, true, false, List, [], ◌∷◌, ◌++◌, arith, if◌then◌else◌, All,
  Bool-cases, append-nil,
}
use up2date_cpp.Text.{Text, equal, equal_iff, equal_refl, less}
use up2date_cpp.Text.Order.{less_irrefl, less_asymm, less_trans}

abbrev pub Multimap : Type 0
Multimap = List (Text × Text)

unfoldable pub insert : Text → Text → Multimap → Multimap
insert k v [] = (k, v) ∷ []
insert k v ((j, w) ∷ m) =
    let rest = (j, w) ∷ insert k v m in if less k j then (k, v) ∷ (j, w) ∷ m else rest

unfoldable pub erase : Text → Multimap → Multimap
erase k [] = []
erase k ((j, w) ∷ m) = let rest = (j, w) ∷ erase k m in if equal j k then erase k m else rest

-- The values of a key, in the order in which they were inserted.
unfoldable pub find_all : Text → Multimap → List Text
find_all k [] = []
find_all k ((j, w) ∷ m) = let rest = w ∷ find_all k m in if equal j k then rest else find_all k m

abbrev pub NotBelow : Text → Multimap → Type 0
NotBelow k = All (λ e. less e.0 k ≡ false)

-- The keys do not descend.
abbrev pub IsSorted : Multimap → Type 0
IsSorted [] = Unit
IsSorted ((j, w) ∷ m) = NotBelow j m × IsSorted m

NotBelow-insert :
    (j k v : Text) (m : Multimap) → less k j ≡ false → NotBelow j m → NotBelow j (insert k v m)
unfolding insert
NotBelow-insert j k v [] h n = (h, tt)
NotBelow-insert j k v ((i, w) ∷ m) h n = ground (arith, NotBelow-insert j k v m h n.1)

pub NotBelow-weaken : (k j : Text) (m : Multimap) → less k j ≡ true → NotBelow j m → NotBelow k m
NotBelow-weaken k j [] h n = tt
NotBelow-weaken k j ((i, w) ∷ m) h n =
    (ground (arith, less_trans i k j), NotBelow-weaken k j m h n.1)

pub insert-IsSorted : (k v : Text) (m : Multimap) → IsSorted m → IsSorted (insert k v m)
unfolding insert
insert-IsSorted k v [] h = (tt, tt)
insert-IsSorted k v ((j, w) ∷ m) h = elim (Bool-cases (less k j)) [
  | inl before ↦ rw before ((less_asymm k j before, NotBelow-weaken k j m before h.0), h)
  | inr after ↦ rw after (NotBelow-insert j k v m after h.0, insert-IsSorted k v m h.1)
]

NotBelow-erase : (j k : Text) (m : Multimap) → NotBelow j m → NotBelow j (erase k m)
unfolding erase
NotBelow-erase j k [] h = tt
NotBelow-erase j k ((i, w) ∷ m) h = ground (arith, NotBelow-erase j k m h.1)

pub erase-IsSorted : (k : Text) (m : Multimap) → IsSorted m → IsSorted (erase k m)
unfolding erase
erase-IsSorted k [] h = tt
erase-IsSorted k ((j, w) ∷ m) h = ground (arith, NotBelow-erase j k m h.0, erase-IsSorted k m h.1)

-- Nothing is left under a key that was erased.
pub find_all-erase_self : (k : Text) (m : Multimap) → find_all k (erase k m) ≡ []
unfolding find_all erase
find_all-erase_self k [] = refl
find_all-erase_self k ((j, w) ∷ m) = ground (arith, find_all-erase_self k m)

pub find_all-erase_ne :
    (j k : Text) (m : Multimap) → equal k j ≡ false → find_all j (erase k m) ≡ find_all j m
unfolding find_all erase
find_all-erase_ne j k [] h = refl
find_all-erase_ne j k ((i, w) ∷ m) h =
    ground (arith, find_all-erase_ne j k m h, equal_iff i k, equal_iff i j, equal_iff k j)

find_all_above : (k j : Text) (m : Multimap) → less k j ≡ true → NotBelow j m → find_all k m ≡ []
unfolding find_all
find_all_above k j [] h n = refl
find_all_above k j ((i, w) ∷ m) h n = ground (arith, find_all_above k j m h n.1, equal_iff i k)

-- A new element in front of a sorted map whose keys are all greater.
find_all-cons :
    (j k v : Text) (m : Multimap)
    → find_all k m ≡ []
    → find_all j ((k, v) ∷ m) ≡ find_all j m ++ (if equal k j then v ∷ [] else [])
unfolding find_all
find_all-cons j k v m h = elim (Bool-cases (equal k j)) [
  | inl same ↦
      let gone : find_all j m ≡ [] = subst (λ i. find_all i m ≡ []) ((equal_iff k j).0 same) h in
      rw same (simp gone)
  | inr other ↦ rw (other, append-nil)
]

-- The same element in front of two maps.
find_all-cons_both :
    (j i w : Text) (m' m : Multimap) (more : List Text)
    → find_all j m' ≡ find_all j m ++ more
    → find_all j ((i, w) ∷ m') ≡ find_all j ((i, w) ∷ m) ++ more
unfolding find_all
find_all-cons_both j i w m' m more h = elim (Bool-cases (equal i j)) [
  | inl same ↦ rw same (ap (◌∷◌ w) h)
  | inr other ↦ rw other h
]

-- An insertion adds its value behind the others of the key, and changes no other key.
pub find_all-insert :
    (j k v : Text) (m : Multimap)
    → IsSorted m
    → find_all j (insert k v m) ≡ find_all j m ++ (if equal k j then v ∷ [] else [])
unfolding insert
find_all-insert j k v [] h = find_all-cons j k v [] (unfold find_all in refl)
find_all-insert j k v ((i, w) ∷ m) h = elim (Bool-cases (less k i)) [
  | inl before ↦ rw before (
      find_all-cons j k v ((i, w) ∷ m)
        (find_all_above k i ((i, w) ∷ m) before (less_irrefl i, h.0)))
  | inr after ↦ rw after (find_all-cons_both j i w (insert k v m) m _ (find_all-insert j k v m h.1))
]

pub find_all-insert_self :
    (k v : Text) (m : Multimap) → IsSorted m → find_all k (insert k v m) ≡ find_all k m ++ v ∷ []
find_all-insert_self k v m h = find_all-insert k k v m h ∙ rw (equal_refl k)
