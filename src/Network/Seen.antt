-- ===== src/Network/Seen.antt =====
-- p2p/src/gossip/mod.rs: the messages that have been seen. The HashSet is a list; only membership, the
-- length and the queue's order are observed.
use stroemnet.Common.{
  ℕ, Bool, true, false, not, List, [], ◌∷◌, ◌++◌, Bytes, bytes_eq, ◌==◌, any, ltb, length,
  if◌then◌else◌, retain,
}

pub record SeenSet : Type 0 where
  pub cap : ℕ
  pub set : List Bytes
  pub order : List Bytes

unfoldable pub contains : Bytes → List Bytes → Bool
contains hash hashes = any (λ h. hash == h) hashes

-- HashSet::remove.
unfoldable pub remove_hash : Bytes → List Bytes → List Bytes
remove_hash hash hashes = retain (λ h. not (hash == h)) hashes

-- SeenSet::new.
unfoldable pub new : ℕ → SeenSet
new cap = record { cap = cap; set = []; order = [] }

-- The eviction at the end of `insert`.
unfoldable pub evict : SeenSet → SeenSet
evict s =
    if ltb s.cap (length s.set)
    then (elim s.order [
      | [] ↦ s
      | oldest ∷ order ↦ record s { set = remove_hash oldest s.set; order = order }
    ])
    else s

unfoldable pub insert : Bytes → SeenSet → SeenSet × Bool
insert hash s =
    if contains hash s.set
    then (s, false)
    else (evict record s { set = hash ∷ s.set; order = s.order ++ (hash ∷ []) }, true)
