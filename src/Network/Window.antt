-- ===== src/Network/Window.antt =====
-- p2p/src/gossip/mod.rs: the set of seen messages is a window over the last distinct ones.
use stroemnet.Common.{
  ℕ, suc, ◌+◌, ◌≤◌, ◌≡◌, refl, ◌∙◌, Bool, true, false, ◌||◌, List, [], ◌∷◌, ◌++◌, arith, Bytes,
  bytes_eq, list_beq, list_beq_iff, ltb, length, length-append, if◌then◌else◌, Bool-cases, inl, inr,
}
use stroemnet.Network.Seen.{SeenSet, contains, remove_hash, new, evict, insert}

abbrev pub IsDistinct : List Bytes → Type 0
IsDistinct [] = Unit
IsDistinct (h ∷ hashes) = (contains h hashes ≡ false) × IsDistinct hashes

pub contains-append :
    (j : Bytes) (xs ys : List Bytes) → contains j (xs ++ ys) ≡ (contains j xs || contains j ys)
unfolding contains
contains-append j [] ys = refl
contains-append j (x ∷ xs) ys = ground (arith, contains-append j xs ys)

contains-remove_hash :
    (j k : Bytes) (xs : List Bytes)
    → contains j (remove_hash k xs) ≡ (if list_beq j k then false else contains j xs)
unfolding contains remove_hash
contains-remove_hash j k [] = ground arith
contains-remove_hash j k (x ∷ xs) =
    ground
      (arith, list_beq_iff j k, list_beq_iff k x, list_beq_iff j x, contains-remove_hash j k xs)

remove_hash-absent : (k : Bytes) (xs : List Bytes) → contains k xs ≡ false → remove_hash k xs ≡ xs
unfolding contains remove_hash
remove_hash-absent k [] h = refl
remove_hash-absent k (x ∷ xs) h = ground (arith, remove_hash-absent k xs)

length-remove_hash :
    (k : Bytes) (xs : List Bytes)
    → IsDistinct xs
    → contains k xs ≡ true
    → suc (length (remove_hash k xs)) ≡ length xs
unfolding contains remove_hash
length-remove_hash k [] d h = absurd (ground arith)
length-remove_hash k (x ∷ xs) (fresh, d) h =
    ground (arith, list_beq_iff k x, length-remove_hash k xs d, remove_hash-absent k xs)

remove_hash-IsDistinct :
    (k : Bytes) (xs : List Bytes) → IsDistinct xs → IsDistinct (remove_hash k xs)
unfolding remove_hash
remove_hash-IsDistinct k [] d = d
remove_hash-IsDistinct k (x ∷ xs) (fresh, d) = elim (Bool-cases (list_beq k x)) [
  | inl e ↦ rw (remove_hash, e) (remove_hash-IsDistinct k xs d)
  | inr e ↦
      rw (remove_hash, e)
        (ground (arith, contains-remove_hash x k xs), remove_hash-IsDistinct k xs d)
]

append-IsDistinct :
    (xs : List Bytes) (y : Bytes)
    → IsDistinct xs
    → contains y xs ≡ false
    → IsDistinct (xs ++ (y ∷ []))
unfolding contains
append-IsDistinct [] y d h = (refl, tt)
append-IsDistinct (x ∷ xs) y (fresh, d) h = (
  ground (arith, contains-append x xs (y ∷ []), list_beq_iff x y, list_beq_iff y x),
  append-IsDistinct xs y d (ground arith),
)

-- The set holds what the queue holds, each hash once, and no more than the cap.
pub record IsWindow (s : SeenSet) : Type 0 where
  pub same : (h : Bytes) → contains h s.set ≡ contains h s.order
  pub set_distinct : IsDistinct s.set
  pub order_distinct : IsDistinct s.order
  pub sizes : length s.set ≡ length s.order
  pub bounded : length s.order ≤ s.cap

-- What a window of `cap` hashes does with a hash: one that it holds is refused, any other goes last,
-- and the first goes out where there would be too many.
abbrev pub tail : List Bytes → List Bytes
tail [] = []
tail (h ∷ hashes) = hashes

unfoldable pub slide : ℕ → Bytes → List Bytes → List Bytes × Bool
slide cap hash window = if contains hash window then (window, false) else (
  if ltb cap (length window + 1) then tail (window ++ (hash ∷ [])) else window ++ (hash ∷ []),
  true,
)

moved :
    (oldest h : Bytes) (set order : List Bytes)
    → contains h set ≡ contains h (oldest ∷ order)
    → contains oldest order ≡ false
    → contains h (remove_hash oldest set) ≡ contains h order
unfolding contains
moved oldest h set order same fresh =
    ground (arith, contains-remove_hash h oldest set, list_beq_iff h oldest)

first_there : (oldest : Bytes) (order : List Bytes) → contains oldest (oldest ∷ order) ≡ true
unfolding contains
first_there oldest order = ground (arith, list_beq_iff oldest oldest)

added :
    (hash h : Bytes) (set order : List Bytes)
    → contains h set ≡ contains h order
    → contains h (hash ∷ set) ≡ contains h (order ++ (hash ∷ []))
unfolding contains
added hash h set order same = ground (arith, contains-append h order (hash ∷ []))

-- The window after a new hash, before the eviction.
evict-IsWindow :
    (cap : ℕ) (set order : List Bytes)
    → ((h : Bytes) → contains h set ≡ contains h order)
    → IsDistinct set
    → IsDistinct order
    → length set ≡ length order
    → length order ≤ suc cap
    → let s : SeenSet = evict record { cap = cap; set = set; order = order } in
      IsWindow s
      × (s.cap ≡ cap)
      × (s.order ≡ (if ltb cap (length order) then tail order else order))
unfolding evict
evict-IsWindow cap set [] same sd od sizes bound =
    let none_over : ltb cap (length set) ≡ false = ground arith in
    rw (evict, none_over)
      (
        record {
          same = same;
          set_distinct = sd;
          order_distinct = od;
          sizes = sizes;
          bounded = ground arith;
        },
        refl,
        ground arith,
      )
evict-IsWindow cap set (oldest ∷ order) same sd (fresh, od) sizes bound =
    elim (Bool-cases (ltb cap (length set))) [
      | inr within ↦
          rw (evict, within)
            (
              record {
                same = same;
                set_distinct = sd;
                order_distinct = (fresh, od);
                sizes = sizes;
                bounded = ground arith;
              },
              refl,
              ground arith,
            )
      | inl over ↦
          rw (evict, over)
            (
              record {
                same = λ h. moved oldest h set order (same h) fresh;
                set_distinct = remove_hash-IsDistinct oldest set sd;
                order_distinct = od;
                sizes = ground (
                  arith,
                  length-remove_hash oldest set sd,
                  same oldest,
                  first_there oldest order,
                );
                bounded = omega arith;
              },
              refl,
              ground arith,
            )
    ]

-- An insertion leaves the set a window: over the hashes that it holds it does what a queue of at most `cap` hashes does that refuses those in it and drops its oldest.
pub insert-IsWindow :
    (s : SeenSet) (hash : Bytes)
    → IsWindow s
    → IsWindow (insert hash s).0
      × ((insert hash s).0.cap ≡ s.cap)
      × ((insert hash s).0.order ≡ (slide s.cap hash s.order).0)
      × ((insert hash s).1 ≡ (slide s.cap hash s.order).1)
unfolding insert slide
insert-IsWindow s hash w = elim (Bool-cases (contains hash s.set)) [
  | inl seen ↦
      let here : contains hash s.order ≡ true = ground (arith, w.same hash) in
      rw (insert, seen, here) (w, refl, refl, refl)
  | inr unseen ↦
      let away : contains hash s.order ≡ false = ground (arith, w.same hash) in
      let longer : length (s.order ++ (hash ∷ [])) ≡ length s.order + 1 =
        omega (arith, length-append s.order (hash ∷ [])) in
      let next =
        evict-IsWindow s.cap (hash ∷ s.set) (s.order ++ (hash ∷ []))
          (λ h. added hash h s.set s.order (w.same h)) (unseen, w.set_distinct)
          (append-IsDistinct s.order hash w.order_distinct away) (omega (arith, w.sizes, longer))
          (omega (arith, w.bounded, longer)) in
      rw (insert, unseen, away) (next.0, next.1, next.2 ∙ rw longer refl, refl)
]

-- What `observe` answers to hashes one after the other.
unfoldable pub answers : SeenSet → List Bytes → List Bool
answers s [] = []
answers s (hash ∷ hashes) = (insert hash s).1 ∷ answers (insert hash s).0 hashes

unfoldable pub slide_answers : ℕ → List Bytes → List Bytes → List Bool
slide_answers cap window [] = []
slide_answers cap window (hash ∷ hashes) =
    (slide cap hash window).1 ∷ slide_answers cap (slide cap hash window).0 hashes

cons-eq : {b c : Bool} {bs cs : List Bool} → b ≡ c → bs ≡ cs → (b ∷ bs) ≡ (c ∷ cs)
cons-eq first rest = cc

slide_answers-eq :
    {c d : ℕ} {v w : List Bytes} (hashes : List Bytes)
    → c ≡ d
    → v ≡ w
    → slide_answers c v hashes ≡ slide_answers d w hashes
slide_answers-eq hashes caps windows = cc

answers-slide :
    (s : SeenSet) (hashes : List Bytes)
    → IsWindow s
    → answers s hashes ≡ slide_answers s.cap s.order hashes
unfolding answers slide_answers
answers-slide s [] w = refl
answers-slide s (hash ∷ hashes) w =
    let (next, cap, order, answer) = insert-IsWindow s hash w in
    let rest = answers-slide (insert hash s).0 hashes next in
    cons-eq answer (rest ∙ slide_answers-eq hashes cap order)

-- From the empty set on, the answers to any sequence of hashes are those of the window: a queue of at
-- most `cap` distinct hashes that refuses a hash it holds, takes any other and drops the oldest where
-- there would be too many.
pub answers-new :
    (cap : ℕ) (hashes : List Bytes) → answers (new cap) hashes ≡ slide_answers cap [] hashes
unfolding new
answers-new cap hashes = answers-slide (new cap) hashes record {
  same = λ h. refl;
  set_distinct = tt;
  order_distinct = tt;
  sizes = refl;
  bounded = omega arith;
}
