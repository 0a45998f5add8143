-- ===== src/Index/Grouping/Tallies.antt =====
-- How the counts of bucket_index.hpp follow a slot that comes into a bucket or leaves it.
use speed_up.Common.{
  ℕ, zero, suc, ◌+◌, ◌^◌, ◌<◌, ◌≤◌, ◌≡◌, ◌≢◌, refl, sym, ap, ◌∙◌, List, [], ◌∷◌, ◌++◌, length,
  length-append, get_or, All, All-at, set, ◌==◌, if◌then◌else◌, ==_refl, ==_ne, arith,
}
use native.Mathlib.Nat.{zero-add}
use mathlib.Core.Path.{ap₂}
use speed_up.Plan.{sub64}
use speed_up.Index.{increment, decrement}
use speed_up.Index.Grouping.Counting.{tally, tallies, get_or-tallies}

-- A slot in bucket c, between others.
tally-put :
    (b c : ℕ) (xs ys : List ℕ)
    → tally b (xs ++ c ∷ ys) ≡ (if c == b then 1 else 0) + tally b (xs ++ ys)
tally-put b c [] ys = refl
tally-put b c (x ∷ xs) ys = omega (arith, tally-put b c xs ys)

pub tally_self : (c : ℕ) (xs ys : List ℕ) → tally c (xs ++ c ∷ ys) ≡ suc (tally c (xs ++ ys))
tally_self c xs ys = rw ==_refl at (tally-put c c xs ys) ∙ omega arith

pub tally_other : (b c : ℕ) (xs ys : List ℕ) → c ≢ b → tally b (xs ++ c ∷ ys) ≡ tally b (xs ++ ys)
tally_other b c xs ys h = rw (==_ne c b h) at (tally-put b c xs ys) ∙ zero-add (tally b (xs ++ ys))

tally-le : (b : ℕ) (bs : List ℕ) → tally b bs ≤ length bs
tally-le b [] = omega arith
tally-le b (c ∷ bs) = ground (arith, tally-le b bs)

-- Counts from the bucket `b` on, of which that of b + i changes.
tallies-below :
    (k b : ℕ) (bs bs' : List ℕ)
    → ((c : ℕ) → b ≤ c → tally c bs' ≡ tally c bs)
    → tallies k b bs ≡ tallies k b bs'
tallies-below zero b bs bs' h = refl
tallies-below (suc k) b bs bs' h =
    ap₂ ◌∷◌ (sym (h b (omega arith))) (tallies-below k (suc b) bs bs' (λ c p. h c (omega arith)))

set-tallies :
    (k b i : ℕ) (bs bs' : List ℕ)
    → i < k
    → ((c : ℕ) → b ≤ c → c ≢ b + i → tally c bs' ≡ tally c bs)
    → set (tallies k b bs) i (tally (b + i) bs') ≡ tallies k b bs'
set-tallies zero b i bs bs' h same = absurd (omega arith)
set-tallies (suc k) b zero bs bs' h same =
    ap₂ ◌∷◌ (ap (λ c. tally c bs') (omega arith))
      (tallies-below k (suc b) bs bs' (λ c p. same c (omega arith) (omega arith)))
set-tallies (suc k) b (suc i) bs bs' h same =
    let shift : b + suc i ≡ suc b + i = omega arith in
    ap₂ ◌∷◌ (sym (same b (omega arith) (omega arith))) (
      ap (λ c. set (tallies k (suc b) bs) i (tally c bs')) shift
      ∙ set-tallies k (suc b) i bs bs' (omega arith)
          (λ c p q. same c (omega arith) (omega (arith, q, shift))))

-- The count of one bucket.
count_at : (k c : ℕ) (bs : List ℕ) → c < k → get_or (tallies k 0 bs) c 0 ≡ tally c bs
count_at k c bs h = get_or-tallies k 0 c bs h ∙ ap (λ i. tally i bs) (zero-add c)

set_at :
    (k c : ℕ) (bs bs' : List ℕ)
    → c < k
    → ((b : ℕ) → b ≢ c → tally b bs' ≡ tally b bs)
    → set (tallies k 0 bs) c (tally c bs') ≡ tallies k 0 bs'
set_at k c bs bs' h same =
    ap (λ i. set (tallies k 0 bs) c (tally i bs')) (sym (zero-add c))
    ∙ set-tallies k 0 c bs bs' h (λ b p q. same b (λ e. q (e ∙ sym (zero-add c))))

pub tallies-put :
    (k c : ℕ) (xs ys : List ℕ)
    → c < k
    → increment (tallies k 0 (xs ++ ys)) c ≡ tallies k 0 (xs ++ c ∷ ys)
tallies-put k c xs ys h =
    let now : get_or (tallies k 0 (xs ++ ys)) c 0 + 1 ≡ tally c (xs ++ c ∷ ys) =
      omega (arith, count_at k c (xs ++ ys) h, tally_self c xs ys) in
    ap (set (tallies k 0 (xs ++ ys)) c) now
    ∙ set_at k c (xs ++ ys) (xs ++ c ∷ ys) h (λ b q. tally_other b c xs ys (λ e. q (sym e)))

pub tallies-taken :
    (k c : ℕ) (xs ys : List ℕ)
    → c < k
    → length (xs ++ ys) < 2 ^ 32
    → decrement (tallies k 0 (xs ++ c ∷ ys)) c ≡ tallies k 0 (xs ++ ys)
tallies-taken k c xs ys h few =
    let old = get_or (tallies k 0 (xs ++ c ∷ ys)) c 0 in
    let before : old ≡ suc (tally c (xs ++ ys)) =
      count_at k c (xs ++ c ∷ ys) h ∙ tally_self c xs ys in
    let now : sub64 old 1 ≡ tally c (xs ++ ys) = omega (arith, before, tally-le c (xs ++ ys)) in
    ap (set (tallies k 0 (xs ++ c ∷ ys)) c) now
    ∙ set_at k c (xs ++ c ∷ ys) (xs ++ ys) h (λ b q. sym (tally_other b c xs ys (λ e. q (sym e))))

-- A list around one of its elements.
split_at :
    (bs : List ℕ) (i : ℕ)
    → i < length bs
    → (xs : List ℕ) × (ys : List ℕ) × (bs ≡ xs ++ get_or bs i 0 ∷ ys)
      × ((v : ℕ) → set bs i v ≡ xs ++ v ∷ ys)
split_at [] i h = absurd (omega arith)
split_at (b ∷ bs) zero h = ([], bs, refl, λ v. refl)
split_at (b ∷ bs) (suc i) h =
    let (xs, ys, same, changed) = split_at bs i (omega arith) in
    (b ∷ xs, ys, ap (◌∷◌ b) same, λ v. ap (◌∷◌ b) (changed v))

-- A slot that goes from its bucket to bucket c.
pub tallies-set :
    (k c i : ℕ) (bs : List ℕ)
    → i < length bs
    → length bs < 2 ^ 32
    → All (λ b. b < k) bs
    → c < k
    → increment (decrement (tallies k 0 bs) (get_or bs i 0)) c ≡ tallies k 0 (set bs i c)
tallies-set k c i bs inside few below h =
    let (xs, ys, same, changed) = split_at bs i inside in
    let old = get_or bs i 0 in
    let fewer : length (xs ++ ys) < 2 ^ 32 =
      omega (arith, few, ap length same, length-append xs (old ∷ ys), length-append xs ys) in
    ap (λ l. increment (decrement (tallies k 0 l) old) c) same
    ∙ ap (λ l. increment l c)
        (tallies-taken k old xs ys (All-at (λ b. b < k) bs i 0 below inside) fewer)
    ∙ tallies-put k c xs ys h
    ∙ ap (tallies k 0) (sym (changed c))
