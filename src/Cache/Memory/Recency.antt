-- ===== src/Cache/Memory/Recency.antt =====
-- The recency map: which keys it holds, and that they stay distinct.
use news_api.Cache.Memory.{contains, remove, touch}
use news_api.Base.{
  ℕ, zero, suc, ◌≤◌, String, ◌≡◌, refl, inl, inr, true, false, ◌||◌, List, [], ◌∷◌, ◌++◌, arith,
  eq_iff, eq_refl, str_eq, if◌then◌else◌, Bool-cases, length, drop,
}

pub contains-remove :
    (k q : String) (l : List String)
    → contains q (remove k l) ≡ (if str_eq k q then false else contains q l)
unfolding contains remove
contains-remove k q [] = ground arith
contains-remove k q (x ∷ l) =
    ground (arith, contains-remove k q l, eq_iff x k, eq_iff x q, eq_iff k q)

pub contains-append :
    (q : String) (l m : List String) → contains q (l ++ m) ≡ (contains q l || contains q m)
unfolding contains
contains-append q [] m = refl
contains-append q (x ∷ l) m = rw (contains-append q l m) (ground arith)

pub contains-touch :
    (k q : String) (l : List String) → contains q (touch k l) ≡ (str_eq k q || contains q l)
unfolding touch contains
contains-touch k q l =
    rw (contains-append q (remove k l) (k ∷ []), contains-remove k q l) (ground arith)

pub length-remove-le : (k : String) (l : List String) → length (remove k l) ≤ length l
unfolding remove
length-remove-le k [] = omega arith
length-remove-le k (x ∷ l) = ground (arith, length-remove-le k l)

pub remove_absent : (k : String) (l : List String) → contains k l ≡ false → remove k l ≡ l
unfolding remove contains
remove_absent k [] h = refl
remove_absent k (x ∷ l) h = ground (arith, remove_absent k l)

-- The keys of a `Map` are distinct.
abbrev pub IsDistinct : List String → Type 0
IsDistinct [] = Unit
IsDistinct (k ∷ ks) = (contains k ks ≡ false) × IsDistinct ks

pub remove-IsDistinct : (k : String) (l : List String) → IsDistinct l → IsDistinct (remove k l)
unfolding remove
remove-IsDistinct k [] h = tt
remove-IsDistinct k (x ∷ l) h = elim (Bool-cases (str_eq x k)) [
  | inl same ↦ rw same (remove-IsDistinct k l h.1)
  | inr other ↦ rw other (ground (arith, contains-remove k x l, h.0), remove-IsDistinct k l h.1)
]

pub concat-IsDistinct :
    (k : String) (l : List String) → IsDistinct l → contains k l ≡ false → IsDistinct (l ++ k ∷ [])
unfolding contains
concat-IsDistinct k [] h e = (refl, tt)
concat-IsDistinct k (x ∷ l) h e = (
  ground (arith, contains-append x l (k ∷ []), h.0, eq_iff x k, eq_iff k x),
  concat-IsDistinct k l h.1 (ground arith),
)

pub touch-IsDistinct : (k : String) (l : List String) → IsDistinct l → IsDistinct (touch k l)
unfolding touch
touch-IsDistinct k l h =
    concat-IsDistinct k (remove k l) (remove-IsDistinct k l h)
      (ground (arith, contains-remove k k l, eq_refl k))

pub remove_self : (k : String) (l : List String) → IsDistinct (k ∷ l) → remove k (k ∷ l) ≡ l
unfolding remove
remove_self k l h = rw (eq_refl k) (remove_absent k l h.0)

pub contains-drop :
    (q : String) (n : ℕ) (l : List String) → contains q (drop n l) ≡ true → contains q l ≡ true
unfolding contains
contains-drop q zero l h = h
contains-drop q (suc n) [] h = h
contains-drop q (suc n) (x ∷ l) h = ground (arith, contains-drop q n l h)

pub drop-IsDistinct : (n : ℕ) (l : List String) → IsDistinct l → IsDistinct (drop n l)
drop-IsDistinct zero l h = h
drop-IsDistinct (suc n) [] h = tt
drop-IsDistinct (suc n) (x ∷ l) h = drop-IsDistinct n l h.1
