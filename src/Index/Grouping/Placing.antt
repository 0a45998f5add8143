-- ===== src/Index/Grouping/Placing.antt =====
-- `build_order` of bucket_index.hpp is a counting sort.
use speed_up.Common.{
  ℕ, zero, suc, ◌+◌, ◌-◌, ◌<◌, ◌≤◌, ◌≡◌, refl, sym, ap, ◌∙◌, List, [], ◌∷◌, ◌++◌, length, sum,
  get_or, set, take, replicate, All, ==_refl, ==_ne, length-append, length-replicate, arith,
}
use native.Mathlib.Nat.{add-zero, zero-add, suc-add}
use mathlib.Core.Path.{ap₂}
use mathlib.Core.List.{append_assoc, append-nil}
use speed_up.Index.{KeyState, increment, bucket_total}
use speed_up.Index.Grouping.{Placed, place, place_slots, start_loop, build_order}
use speed_up.Index.Grouping.Counting.{slots_in, tally, tallies, grouped, get_or-tallies}

-- One bucket of a grouping that is being filled: the slots placed, and the room behind them.
pub record Block : Type 0 where
  placed : List ℕ
  room : ℕ

-- the vector `order` that the blocks stand for
unfoldable pub flat : List Block → List ℕ
flat [] = []
flat (k ∷ blocks) = k.placed ++ (replicate k.room 0 ++ flat blocks)

-- the vector `fill`: where the next slot of each block goes
pub fills : (first : ℕ) → List Block → List ℕ
fills first [] = []
fills first (k ∷ blocks) =
    (first + length k.placed) ∷ fills (first + (length k.placed + k.room)) blocks

abbrev pub as_placed : List Block → Placed
as_placed blocks = record { order = flat blocks; fill = fills 0 blocks }

-- a slot into block b
pub push : (b slot : ℕ) → List Block → List Block
push b slot [] = []
push zero slot (k ∷ blocks) = record { placed = k.placed ++ slot ∷ []; room = k.room - 1 } ∷ blocks
push (suc b) slot (k ∷ blocks) = k ∷ push b slot blocks

abbrev pub HasRoom : (b : ℕ) → List Block → Type 0
HasRoom b [] = ⊥
HasRoom zero (k ∷ blocks) = 0 < k.room
HasRoom (suc b) (k ∷ blocks) = HasRoom b blocks

set-append : (xs ys : List ℕ) (i v : ℕ) → set (xs ++ ys) (length xs + i) v ≡ xs ++ set ys i v
set-append [] ys i v = rw zero-add
set-append (x ∷ xs) ys i v = rw suc-add (ap (◌∷◌ x) (set-append xs ys i v))

replicate-pos : (r : ℕ) → 0 < r → replicate {A = ℕ} r 0 ≡ 0 ∷ replicate (r - 1) 0
replicate-pos zero h = absurd (omega arith)
replicate-pos (suc r) h = ap (λ n. 0 ∷ replicate n 0) (omega arith)

push-flat :
    (b slot first : ℕ) (blocks : List Block)
    → HasRoom b blocks
    → (set (flat blocks) (get_or (fills first blocks) b 0 - first) slot ≡ flat (push b slot blocks))
      × (increment (fills first blocks) b ≡ fills first (push b slot blocks))
      × (first ≤ get_or (fills first blocks) b 0)
unfolding flat fills push
push-flat b slot first [] h = elim h [ ]
push-flat zero slot first (k ∷ blocks) h =
    let here : first + length k.placed - first ≡ length k.placed + 0 = omega arith in
    (
      rw (here, set-append, replicate-pos k.room h)
          (sym (append_assoc k.placed (slot ∷ []) (replicate (k.room - 1) 0 ++ flat blocks))),
      ap₂ ◌∷◌ (omega (arith, length-append k.placed (slot ∷ [])))
          (ap (λ n. fills n blocks) (omega (arith, length-append k.placed (slot ∷ [])))),
      omega arith,
    )
push-flat (suc b) slot first (k ∷ blocks) h =
    let next = first + (length k.placed + k.room) in
    let g = get_or (fills next blocks) b 0 in
    let (same, filled, above) = push-flat b slot next blocks h in
    let there : g - first ≡ length k.placed + (k.room + (g - next)) = omega arith in
    let inner : set (replicate k.room 0 ++ flat blocks) (k.room + (g - next)) slot
        ≡ replicate k.room 0 ++ flat (push b slot blocks) =
      ap (λ n. set (replicate k.room 0 ++ flat blocks) (n + (g - next)) slot)
        (sym (length-replicate k.room 0))
      ∙ set-append (replicate k.room 0) (flat blocks) (g - next) slot
      ∙ ap (◌++◌ (replicate k.room 0)) same in
    (
      rw (there, set-append) (ap (◌++◌ k.placed) inner),
      ap (◌∷◌ (first + length k.placed)) filled,
      omega arith,
    )

-- Placing a slot is pushing it to its block.
pub place-push :
    (b slot : ℕ) (blocks : List Block)
    → HasRoom b blocks
    → place b slot (as_placed blocks) ≡ as_placed (push b slot blocks)
unfolding place flat fills
place-push b slot blocks h =
    let (same, filled, above) = push-flat b slot 0 blocks h in
    let index : get_or (fills 0 blocks) b 0 - 0 ≡ get_or (fills 0 blocks) b 0 = omega arith in
    λ i. record {
      order = (ap (λ n. set (flat blocks) n slot) (sym index) ∙ same) i;
      fill = filled i;
    }

-- The blocks of the buckets from b when the slots of `rest` are still to be placed.
unfoldable pub opened : List (List ℕ) → (b : ℕ) (rest : List ℕ) → List Block
opened [] b rest = []
opened (p ∷ ps) b rest = record { placed = p; room = tally b rest } ∷ opened ps (suc b) rest

-- The same blocks when these slots, `slot` and the following, are placed.
closed : List (List ℕ) → (b slot : ℕ) (rest : List ℕ) → List Block
closed [] b slot rest = []
closed (p ∷ ps) b slot rest =
    record { placed = p ++ slots_in b slot rest; room = 0 } ∷ closed ps (suc b) slot rest

-- a slot at the end of the i-th list
unfoldable pub add_slot : (i slot : ℕ) → List (List ℕ) → List (List ℕ)
add_slot i slot [] = []
add_slot zero slot (p ∷ ps) = (p ++ slot ∷ []) ∷ ps
add_slot (suc i) slot (p ∷ ps) = p ∷ add_slot i slot ps

pub length-add_slot : (i slot : ℕ) (ps : List (List ℕ)) → length (add_slot i slot ps) ≡ length ps
unfolding add_slot
length-add_slot i slot [] = refl
length-add_slot zero slot (p ∷ ps) = refl
length-add_slot (suc i) slot (p ∷ ps) = ap suc (length-add_slot i slot ps)

-- A slot of an earlier bucket does not matter to the blocks.
opened-below :
    (ps : List (List ℕ)) (b c : ℕ) (rest : List ℕ)
    → c < b
    → opened ps b (c ∷ rest) ≡ opened ps b rest
unfolding opened
opened-below [] b c rest h = refl
opened-below (p ∷ ps) b c rest h =
    rw (==_ne c b (omega arith), zero-add)
      (ap (◌∷◌ (record { placed = p; room = tally b rest }))
        (opened-below ps (suc b) c rest (omega arith)))

closed-below :
    (ps : List (List ℕ)) (b c slot : ℕ) (rest : List ℕ)
    → c < b
    → closed ps b slot (c ∷ rest) ≡ closed ps b (suc slot) rest
unfolding closed
closed-below [] b c slot rest h = refl
closed-below (p ∷ ps) b c slot rest h = rw (==_ne c b (omega arith)) (
    ap (◌∷◌ (record { placed = p ++ slots_in b (suc slot) rest; room = 0 }))
      (closed-below ps (suc b) c slot rest (omega arith)))

pub opened-HasRoom :
    (ps : List (List ℕ)) (b i : ℕ) (rest : List ℕ)
    → i < length ps
    → HasRoom i (opened ps b ((b + i) ∷ rest))
unfolding opened
opened-HasRoom [] b i rest h = absurd (omega arith)
opened-HasRoom (p ∷ ps) b zero rest h = rw (add-zero, ==_refl b) (omega arith)
opened-HasRoom (p ∷ ps) b (suc i) rest h =
    let shift : b + suc i ≡ suc b + i = omega arith in
    rw shift (opened-HasRoom ps (suc b) i rest (omega arith))

pub push-opened :
    (ps : List (List ℕ)) (b i slot : ℕ) (rest : List ℕ)
    → i < length ps
    → push i slot (opened ps b ((b + i) ∷ rest)) ≡ opened (add_slot i slot ps) b rest
unfolding opened push add_slot
push-opened [] b i slot rest h = refl
push-opened (p ∷ ps) b zero slot rest h =
    let room : 1 + tally b rest - 1 ≡ tally b rest = omega arith in
    rw (add-zero, ==_refl b, room)
      (ap (◌∷◌ (record { placed = p ++ slot ∷ []; room = tally b rest }))
        (opened-below ps (suc b) b rest (omega arith)))
push-opened (p ∷ ps) b (suc i) slot rest h =
    let shift : b + suc i ≡ suc b + i = omega arith in
    rw (==_ne (b + suc i) b (omega arith), zero-add, shift)
      (ap (◌∷◌ (record { placed = p; room = tally b rest }))
        (push-opened ps (suc b) i slot rest (omega arith)))

closed-add_slot :
    (ps : List (List ℕ)) (b i slot : ℕ) (rest : List ℕ)
    → closed (add_slot i slot ps) b (suc slot) rest ≡ closed ps b slot ((b + i) ∷ rest)
unfolding closed add_slot
closed-add_slot [] b i slot rest = refl
closed-add_slot (p ∷ ps) b zero slot rest = rw (
  add-zero,
  ==_refl b,
  append_assoc p (slot ∷ []) (slots_in b (suc slot) rest),
  closed-below ps (suc b) b slot rest (omega arith),
)
closed-add_slot (p ∷ ps) b (suc i) slot rest =
    let shift : b + suc i ≡ suc b + i = omega arith in
    rw (==_ne (b + suc i) b (omega arith), shift)
      (ap (◌∷◌ (record { placed = p ++ slots_in b (suc slot) rest; room = 0 }))
        (closed-add_slot ps (suc b) i slot rest))

opened-nil : (ps : List (List ℕ)) (b slot : ℕ) → opened ps b [] ≡ closed ps b slot []
unfolding opened closed
opened-nil [] b slot = refl
opened-nil (p ∷ ps) b slot =
    rw (append-nil p) (ap (◌∷◌ (record { placed = p; room = 0 })) (opened-nil ps (suc b) slot))

-- The placing loop fills every block with its slots.
place_slots-closed :
    (rest : List ℕ) (slot : ℕ) (ps : List (List ℕ))
    → All (λ b. b < length ps) rest
    → place_slots rest slot (as_placed (opened ps 0 rest)) ≡ as_placed (closed ps 0 slot rest)
unfolding place_slots
place_slots-closed [] slot ps h = ap as_placed (opened-nil ps 0 slot)
place_slots-closed (c ∷ rest) slot ps h =
    let kept : All (λ b. b < length (add_slot c slot ps)) rest =
      rw (length-add_slot c slot ps) h.1 in
    let room = rw (zero-add c) at (opened-HasRoom ps 0 c rest h.0) in
    let pushed = rw (zero-add c) at (push-opened ps 0 c slot rest h.0) in
    let filled = rw (zero-add c) at (closed-add_slot ps 0 c slot rest) in
    ap (place_slots rest (suc slot))
      (place-push c slot (opened ps 0 (c ∷ rest)) room ∙ ap as_placed pushed)
    ∙ place_slots-closed rest (suc slot) (add_slot c slot ps) kept
    ∙ ap as_placed filled

abbrev pub empty : ℕ → List (List ℕ)
empty k = replicate k []

flat-closed :
    (k b : ℕ) (buckets : List ℕ) → flat (closed (empty k) b 0 buckets) ≡ grouped k b buckets
unfolding flat closed
flat-closed zero b buckets = refl
flat-closed (suc k) b buckets = ap (◌++◌ (slots_in b 0 buckets)) (flat-closed k (suc b) buckets)

replicate-append : (m n : ℕ) → replicate {A = ℕ} m 0 ++ replicate n 0 ≡ replicate (m + n) 0
replicate-append zero n = rw zero-add
replicate-append (suc m) n = rw suc-add (ap (◌∷◌ 0) (replicate-append m n))

flat-opened :
    (k b : ℕ) (buckets : List ℕ)
    → flat (opened (empty k) b buckets) ≡ replicate (sum (tallies k b buckets)) 0
unfolding flat opened
flat-opened zero b buckets = refl
flat-opened (suc k) b buckets =
    ap (◌++◌ (replicate (tally b buckets) 0)) (flat-opened k (suc b) buckets)
    ∙ replicate-append (tally b buckets) (sum (tallies k (suc b) buckets))

-- The counts of all buckets add up to the number of slots.
sum-tallies-below :
    (k b c : ℕ) (buckets : List ℕ)
    → c < b
    → sum (tallies k b (c ∷ buckets)) ≡ sum (tallies k b buckets)
sum-tallies-below zero b c buckets h = refl
sum-tallies-below (suc k) b c buckets h = ground (arith, sum-tallies-below k (suc b) c buckets)

sum-tallies-cons :
    (k b c : ℕ) (buckets : List ℕ)
    → b ≤ c
    → c < b + k
    → sum (tallies k b (c ∷ buckets)) ≡ 1 + sum (tallies k b buckets)
sum-tallies-cons zero b c buckets p h = absurd (omega arith)
sum-tallies-cons (suc k) b c buckets p h =
    ground (arith, sum-tallies-below k (suc b) c buckets, sum-tallies-cons k (suc b) c buckets)

pub sum-tallies-nil : (k b : ℕ) → sum (tallies k b []) ≡ 0
sum-tallies-nil zero b = refl
sum-tallies-nil (suc k) b = omega (arith, sum-tallies-nil k (suc b))

pub sum-tallies :
    (k : ℕ) (buckets : List ℕ)
    → All (λ b. b < k) buckets
    → sum (tallies k 0 buckets) ≡ length buckets
sum-tallies k [] h = sum-tallies-nil k 0
sum-tallies k (c ∷ buckets) h =
    omega
      (arith, sum-tallies-cons k 0 c buckets (omega arith) (omega arith), sum-tallies k buckets h.1)

length-start_loop :
    (counts : List ℕ) (b acc rounds : ℕ) → length (start_loop counts b acc rounds) ≡ suc rounds
unfolding start_loop
length-start_loop counts b acc zero = refl
length-start_loop counts b acc (suc rounds) =
    ap suc (length-start_loop counts (suc b) (acc + get_or counts b 0) rounds)

start_loop-fills :
    (k b acc rounds : ℕ) (buckets : List ℕ)
    → b + rounds ≤ k
    → take rounds (start_loop (tallies k 0 buckets) b acc rounds)
      ≡ fills acc (opened (empty rounds) b buckets)
unfolding start_loop fills opened
start_loop-fills k b acc zero buckets h = refl
start_loop-fills k b acc (suc rounds) buckets h =
    let count : get_or (tallies k 0 buckets) b 0 ≡ tally b buckets =
      rw (zero-add b) at (get_or-tallies k 0 b buckets (omega arith)) in
    rw (count, add-zero, zero-add)
      (ap (◌∷◌ acc)
        (start_loop-fills k (suc b) (acc + tally b buckets) rounds buckets (omega arith)))

-- the vectors that the placing loop of `build_order` starts from
abbrev pub unplaced : (k n : ℕ) (counts : List ℕ) → Placed
unplaced k n counts =
    let start = start_loop counts 0 0 k in
    record { order = replicate n 0; fill = take (length start - 1) start }

pub unplaced-opened :
    (k n : ℕ) (buckets : List ℕ)
    → length buckets ≡ n
    → All (λ b. b < k) buckets
    → unplaced k n (tallies k 0 buckets) ≡ as_placed (opened (empty k) 0 buckets)
unplaced-opened k n buckets len range =
    let start = start_loop (tallies k 0 buckets) 0 0 k in
    let total : n ≡ sum (tallies k 0 buckets) = sym (sum-tallies k buckets range ∙ len) in
    let last : length start - 1 ≡ k =
      omega (arith, length-start_loop (tallies k 0 buckets) 0 0 k) in
    λ i. record {
      order = (ap (λ m. replicate m 0) total ∙ sym (flat-opened k 0 buckets)) i;
      fill = (ap (λ m. take m start) last ∙ start_loop-fills k 0 0 k buckets (omega arith)) i;
    }

module _ {T : Type 0} where
  -- For as many slots as the key state has buckets, all of them in range, and counts that are the
  -- numbers of slots in each bucket: the order that `build_order` writes is the slots of bucket 0 in
  -- insertion order, then those of bucket 1, and so on.
  pub build_order-order :
      (n : ℕ) (state : KeyState T)
      → length state.buckets ≡ n
      → All (λ b. b < bucket_total state) state.buckets
      → state.counts ≡ tallies (bucket_total state) 0 state.buckets
      → (build_order n state).order ≡ grouped (bucket_total state) 0 state.buckets
  unfolding build_order
  build_order-order n state len range right =
      let k = bucket_total state in
      let slots = state.buckets in
      let room : All (λ b. b < length (empty k)) slots =
        rw (length-replicate {A = List ℕ} k []) range in
      ap (λ p. (place_slots slots 0 p).order)
        (ap (unplaced k n) right ∙ unplaced-opened k n slots len range)
      ∙ ap (λ p. p.order) (place_slots-closed slots 0 (empty k) room)
      ∙ flat-closed k 0 slots
