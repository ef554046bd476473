-- ===== src/Network/Recent.antt =====
-- p2p/src/gossip/mod.rs: how long the set of seen messages holds a hash.
use stroemnet.Common.{
  ℕ, suc, ◌+◌, ◌≤◌, ◌≡◌, refl, sym, ◌∙◌, true, false, List, [], ◌∷◌, ◌++◌, arith, Bytes, length,
  length-append, ltb, list_beq_iff, Bool-cases, inl, inr,
}
use mathlib.Core.List.{append_assoc}
use stroemnet.Network.Seen.{SeenSet, contains, insert}
use stroemnet.Network.Window.{IsWindow, tail, slide, insert-IsWindow, contains-append}

-- The hash is in the queue, and at most `count` hashes came after it.
pub record Since (hash : Bytes) (count : ℕ) (order : List Bytes) : Type 0 where
  pub before : List Bytes
  pub after : List Bytes
  pub split : order ≡ before ++ (hash ∷ after)
  pub few : length after ≤ count

pub Since-contains :
    (hash : Bytes) (count : ℕ) (order : List Bytes)
    → Since hash count order
    → contains hash order ≡ true
unfolding contains
Since-contains hash count order s =
    rw s.split
      (ground (arith, contains-append hash s.before (hash ∷ s.after), list_beq_iff hash hash))

slide-Since-new :
    (cap : ℕ) (hash : Bytes) (window : List Bytes)
    → 1 ≤ cap
    → contains hash window ≡ false
    → Since hash 0 (slide cap hash window).0
unfolding slide
slide-Since-new cap hash [] one away =
    let room : ltb cap 1 ≡ false = ground arith in
    rw (slide, away, room) record { before = []; after = []; split = refl; few = omega arith }
slide-Since-new cap hash (h ∷ window) one away =
    elim (Bool-cases (ltb cap (length (h ∷ window) + 1))) [
      | inl full ↦
          rw (slide, away, full)
            record { before = window; after = []; split = refl; few = omega arith }
      | inr room ↦
          rw (slide, away, room)
            record { before = h ∷ window; after = []; split = refl; few = omega arith }
    ]

append-Since :
    (hash other : Bytes) (count : ℕ) (before after : List Bytes)
    → length after ≤ count
    → Since hash (suc count) ((before ++ (hash ∷ after)) ++ (other ∷ []))
append-Since hash other count before after few = record {
  before = before;
  after = after ++ (other ∷ []);
  split = append_assoc before (hash ∷ after) (other ∷ []);
  few = omega (arith, length-append after (other ∷ []));
}

-- One more hash leaves a hash in the queue, if the queue has room for it and those that came after it.
slide-Since :
    (cap : ℕ) (hash other : Bytes) (count : ℕ) (before after : List Bytes)
    → length after ≤ count
    → count + 2 ≤ cap
    → Since hash (suc count) (slide cap other (before ++ (hash ∷ after))).0
unfolding slide
slide-Since cap hash other count before after few room =
    let window = before ++ (hash ∷ after) in
    elim (Bool-cases (contains other window)) [
      | inl held ↦
          rw (slide, held)
            record { before = before; after = after; split = refl; few = omega arith }
      | inr fresh ↦ elim (Bool-cases (ltb cap (length window + 1))) [
        | inr small ↦ rw (slide, fresh, small) (append-Since hash other count before after few)
        | inl full ↦ rw (slide, fresh, full) (dropped before full)
      ]
    ]
  where
    dropped :
        (before : List Bytes)
        → ltb cap (length (before ++ (hash ∷ after)) + 1) ≡ true
        → Since hash (suc count) (tail ((before ++ (hash ∷ after)) ++ (other ∷ [])))
    dropped [] full = absurd (ground arith)
    dropped (b ∷ before) full = append-Since hash other count before after few

-- A set that has taken a hash, and at most `count` others since.
pub record Remembers (cap : ℕ) (hash : Bytes) (count : ℕ) (s : SeenSet) : Type 0 where
  pub window : IsWindow s
  pub cap_is : s.cap ≡ cap
  pub since : Since hash count s.order

pub Remembers-contains :
    (cap : ℕ) (hash : Bytes) (count : ℕ) (s : SeenSet)
    → Remembers cap hash count s
    → contains hash s.set ≡ true
Remembers-contains cap hash count s r =
    r.window.same hash ∙ Since-contains hash count s.order r.since

pub insert-Remembers_new :
    (hash : Bytes) (s : SeenSet)
    → IsWindow s
    → 1 ≤ s.cap
    → contains hash s.set ≡ false
    → Remembers s.cap hash 0 (insert hash s).0
insert-Remembers_new hash s w one away =
    let (next, cap, order, answer) = insert-IsWindow s hash w in
    record {
      window = next;
      cap_is = cap;
      since = rw order (slide-Since-new s.cap hash s.order one (sym (w.same hash) ∙ away));
    }

pub insert-Remembers :
    (cap : ℕ) (hash other : Bytes) (count : ℕ) (s : SeenSet)
    → count + 2 ≤ cap
    → Remembers cap hash count s
    → Remembers cap hash (suc count) (insert other s).0
insert-Remembers cap hash other count s room r =
    let (next, kept, order, answer) = insert-IsWindow s other r.window in
    record {
      window = next;
      cap_is = kept ∙ r.cap_is;
      since =
          rw (order, r.cap_is, r.since.split)
            (slide-Since cap hash other count r.since.before r.since.after r.since.few room);
    }

pub Remembers-weaken :
    (cap : ℕ) (hash : Bytes) (count : ℕ) (s : SeenSet)
    → Remembers cap hash count s
    → Remembers cap hash (suc count) s
Remembers-weaken cap hash count s r = record {
  window = r.window;
  cap_is = r.cap_is;
  since = record {
    before = r.since.before;
    after = r.since.after;
    split = r.since.split;
    few = omega (arith, r.since.few);
  };
}
