-- ===== src/Index/Sorting/Blocks.antt =====
-- An order that is made of blocks, one for each bucket, and what `sort_bucket` does to it.
use mathlib.Core.List.{append_assoc}
use speed_up.Common.{
  ℕ, zero, suc, ◌+◌, ◌≡◌, refl, sym, ap, ◌∙◌, Bool, List, [], ◌∷◌, ◌++◌, length, get_or, set, take,
  drop, ◌==◌, Bool-cases, inl, inr, ==_iff, length-append, arith,
}
use speed_up.Plan.{sub64}
use speed_up.Std.Sort.{IsSorted}
use speed_up.Index.{KeyState}
use speed_up.Index.Sorting.{sort_bucket}

abbrev pub concat : List (List ℕ) → List ℕ
concat [] = []
concat (p ∷ ps) = p ++ concat ps

-- where the blocks start, and where the last one ends
abbrev pub starts : (first : ℕ) → List (List ℕ) → List ℕ
starts first [] = first ∷ []
starts first (p ∷ ps) = first ∷ starts (first + length p) ps

pub concat-append : (ps qs : List (List ℕ)) → concat (ps ++ qs) ≡ concat ps ++ concat qs
concat-append [] qs = refl
concat-append (p ∷ ps) qs =
    ap (◌++◌ p) (concat-append ps qs) ∙ sym (append_assoc p (concat ps) (concat qs))

pub get_or-starts :
    (first : ℕ) (ps qs : List (List ℕ))
    → get_or (starts first (ps ++ qs)) (length ps) 0 ≡ first + length (concat ps)
get_or-starts first [] [] = omega arith
get_or-starts first [] (q ∷ qs) = omega arith
get_or-starts first (p ∷ ps) qs =
    omega (arith, get_or-starts (first + length p) ps qs, length-append p (concat ps))

pub get_or-starts_end :
    (first : ℕ) (ps : List (List ℕ)) (p : List ℕ) (qs : List (List ℕ))
    → get_or (starts first (ps ++ p ∷ qs)) (suc (length ps)) 0
      ≡ first + (length (concat ps) + length p)
get_or-starts_end first [] p [] = omega arith
get_or-starts_end first [] p (q ∷ qs) = omega arith
get_or-starts_end first (r ∷ ps) p qs =
    omega (arith, get_or-starts_end (first + length r) ps p qs, length-append r (concat ps))

-- A block of the same length leaves the starts alone.
pub starts_same :
    (first : ℕ) (ps : List (List ℕ)) (p q : List ℕ) (qs : List (List ℕ))
    → length p ≡ length q
    → starts first (ps ++ p ∷ qs) ≡ starts first (ps ++ q ∷ qs)
starts_same first [] p q qs h = ap (λ n. first ∷ starts (first + n) qs) h
starts_same first (r ∷ ps) p q qs h = ap (◌∷◌ first) (starts_same (first + length r) ps p q qs h)

pub take_left : (xs ys : List ℕ) → take (length xs) (xs ++ ys) ≡ xs
take_left [] ys = refl
take_left (x ∷ xs) ys = ap (◌∷◌ x) (take_left xs ys)

pub drop_left : (xs ys : List ℕ) → drop (length xs) (xs ++ ys) ≡ ys
drop_left [] ys = refl
drop_left (x ∷ xs) ys = drop_left xs ys

pub take_all : (xs : List ℕ) → take (length xs) xs ≡ xs
take_all [] = refl
take_all (x ∷ xs) = ap (◌∷◌ x) (take_all xs)

set_same : (l : List ℕ) (i : ℕ) → set l i (get_or l i 0) ≡ l
set_same [] i = refl
set_same (x ∷ l) zero = refl
set_same (x ∷ l) (suc i) = ap (◌∷◌ x) (set_same l i)

module _ (less : ℕ → ℕ → Bool) where
  -- `sorted_len` says of each block how much of its front is sorted.
  abbrev pub Prefixes : List ℕ → List (List ℕ) → Type 0
  Prefixes [] [] = Unit
  Prefixes [] (p ∷ ps) = ⊥
  Prefixes (n ∷ l) [] = ⊥
  Prefixes (n ∷ l) (p ∷ ps) = IsSorted less (take n p) × Prefixes l ps

  pub Prefixes-at :
      (l : List ℕ) (ps : List (List ℕ)) (p : List ℕ) (qs : List (List ℕ))
      → Prefixes l (ps ++ p ∷ qs)
      → IsSorted less (take (get_or l (length ps) 0) p)
  Prefixes-at [] [] p qs h = elim h [ ]
  Prefixes-at [] (q ∷ ps) p qs h = elim h [ ]
  Prefixes-at (n ∷ l) [] p qs h = h.0
  Prefixes-at (n ∷ l) (q ∷ ps) p qs h = Prefixes-at l ps p qs h.1

  pub Prefixes-set :
      (l : List ℕ) (ps : List (List ℕ)) (p q : List ℕ) (qs : List (List ℕ))
      → Prefixes l (ps ++ p ∷ qs)
      → IsSorted less q
      → Prefixes (set l (length ps) (length q)) (ps ++ q ∷ qs)
  Prefixes-set [] [] p q qs h s = elim h [ ]
  Prefixes-set [] (r ∷ ps) p q qs h s = elim h [ ]
  Prefixes-set (n ∷ l) [] p q qs h s = (rw (take_all q) s, h.1)
  Prefixes-set (n ∷ l) (r ∷ ps) p q qs h s = (h.0, Prefixes-set l ps p q qs h.1 s)

module _ {T : Type 0} where
  -- a key state with another order and other sorted prefixes
  abbrev pub laid : KeyState T → (order sorted_len : List ℕ) → KeyState T
  laid state order sorted_len = record state { order = order; sorted_len = sorted_len }

  -- `sort_bucket` changes the order and the sorted prefixes, and nothing else.
  pub sort_bucket-laid :
      (items : List T) (state : KeyState T) (b : ℕ)
      → sort_bucket items state b
        ≡ laid state
            (sort_bucket items state b).order
            (set state.sorted_len b (sub64 (get_or state.start (suc b) 0) (get_or state.start b 0)))
  unfolding sort_bucket
  sort_bucket-laid items state b =
      let len = sub64 (get_or state.start (suc b) 0) (get_or state.start b 0) in
      elim (Bool-cases (get_or state.sorted_len b 0 == len)) [
        | inl e ↦
            let same : set state.sorted_len b len ≡ state.sorted_len =
              ap (set state.sorted_len b) (sym ((==_iff (get_or state.sorted_len b 0) len).0 e))
              ∙ set_same state.sorted_len b in
            rw e (ap (λ l. laid state state.order l) (sym same))
        | inr e ↦ rw e refl
      ]
