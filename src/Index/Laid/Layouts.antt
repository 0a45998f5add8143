-- ===== src/Index/Laid/Layouts.antt =====
-- The layouts that `estimate_layouts` of bucket_index.hpp returns, with groups too: one for each
-- group, well formed, and together no more buckets than 16 bits number.
use speed_up.Common.{
  map_result-All, ℕ, zero, suc, ◌+◌, ◌*◌, ◌/◌, ◌^◌, ◌<◌, ◌≤◌, ◌≡◌, refl, sym, ap, ◌∙◌, none, some,
  List, [], ◌∷◌, ◌++◌, length, get_or, set, length-set, replicate, length-replicate, length-append,
  min, All, All_mono, All-set, All-get_or, All-append, ◌==◌, Bool-cases, inl, inr, ==_iff, ok,
  >>=-ok, ok_injective, arith,
}
use speed_up.Common.Doubles.{Doubles}
use speed_up.Plan.{BucketPlan, with_max_buckets, max_bucket_limit}
use speed_up.Plan.Valid.{IsValid}
use speed_up.SortKey.{SortKey, group}
use speed_up.Layout.{BucketLayout, bucket_count, estimate}
use speed_up.Layout.Buckets.{IsLayout}
use speed_up.Layout.Sample.{mul_mono}
use speed_up.Layout.Estimate.{estimate-formed}
use speed_up.Index.{max_slots}
use speed_up.Index.Relayout.{group_members, estimate_layouts}

-- positions below `slot`, no more of them than `slot`
abbrev Below : ℕ → List ℕ → Type 0
Below slot positions = All (λ x. x < slot) positions × (length positions ≤ slot)

Below-mono : (slot : ℕ) (positions : List ℕ) → Below slot positions → Below (suc slot) positions
Below-mono slot positions h = (All_mono (λ x p. omega arith) positions h.0, omega (arith, h.1))

Below-snoc :
    (slot : ℕ) (positions : List ℕ)
    → Below slot positions
    → Below (suc slot) (positions ++ slot ∷ [])
Below-snoc slot positions h = (
  All-append (λ x. x < suc slot) positions (slot ∷ []) (Below-mono slot positions h).0
      (omega arith, tt),
  omega (arith, length-append positions (slot ∷ []), h.1),
)

Below-none : (groups : ℕ) → All (Below 0) (replicate groups [])
Below-none zero = tt
Below-none (suc groups) = ((tt, omega arith), Below-none groups)

share_le : (g k m : ℕ) → 0 < g → k ≤ m / g → g * k ≤ m
share_le g k m p h = grind arith

module _ {T : Type 0} (key : SortKey T) where
  group_members-Below :
      (items : List T) (slot : ℕ) (members : List (List ℕ)) {result : List (List ℕ)}
      → All (Below slot) members
      → group_members key items slot members ≡ ok result
      → (length result ≡ length members) × All (Below (slot + length items)) result
  unfolding group_members
  group_members-Below [] slot members h e =
      let same = ok_injective e in
      let here : slot + 0 ≡ slot = omega arith in rw (← same, here) (refl, h)
  group_members-Below (x ∷ items) slot members h e =
      let (g, chosen, k) = >>=-ok _ (group key x) e in
      let old = get_or members g [] in
      let next = set members g (old ++ slot ∷ []) in
      let kept =
        All-set (Below (suc slot)) members g (old ++ slot ∷ [])
          (All_mono (Below-mono slot) members h)
          (Below-snoc slot old (All-get_or (Below slot) members g [] h (tt, omega arith))) in
      let (long, below) = group_members-Below items (suc slot) next kept k in
      let shift : suc slot + length items ≡ slot + suc (length items) = omega arith in
      (long ∙ length-set members g (old ++ slot ∷ []), rw shift at below)

  -- One layout for each group, well formed, and all of them of no more than `m` buckets.
  pub record AreLayouts (m : ℕ) (layouts : List (BucketLayout T)) : Type 0 where
    pub each_group : length layouts ≡ key.groups
    pub formed : All (λ layout. IsLayout key layout × (bucket_count layout ≤ m)) layouts
    pub few : key.groups * m ≤ max_bucket_limit

module _ {F : Type 0} ⦃d : Doubles F⦄ where
  -- The plan of one group.
  per_group_plan :
      (plan : BucketPlan F) (k : ℕ) {p : BucketPlan F}
      → with_max_buckets plan k ≡ ok p
      → (0 < p.max_buckets) × (p.max_buckets ≤ k) × (p.sample_size ≡ plan.sample_size)
  unfolding with_max_buckets
  per_group_plan plan k e = ground arith

  module _ {T : Type 0} (key : SortKey T) where
    estimated-IsLayout :
        (items : List T) (keys : List ℕ) (plan : BucketPlan F)
        → 0 < plan.sample_size
        → plan.sample_size ≤ 2 ^ 20
        → length items ≤ max_slots
        → 0 < plan.max_buckets
        → (ms : List ℕ) (layout : BucketLayout T) → Below (length items) ms
        → estimate key items keys plan (some ms) ≡ ok layout
        → IsLayout key layout × (bucket_count layout ≤ plan.max_buckets)
    estimated-IsLayout items keys plan pos le few some_bucket ms layout h e =
        estimate-formed key items keys plan (some ms) pos
          (omega (arith, mul_mono plan.sample_size (2 ^ 20) (length ms) le, h.1)) h.0 some_bucket e

    pub estimate_layouts-AreLayouts :
        (items : List T) (keys : List ℕ) (plan : BucketPlan F) {layouts : List (BucketLayout T)}
        → IsValid plan
        → 0 < key.groups
        → length items ≤ max_slots
        → estimate_layouts key items keys plan ≡ ok layouts
        → (m : ℕ) × AreLayouts key m layouts
    unfolding estimate_layouts
    estimate_layouts-AreLayouts items keys plan {layouts} valid some_group few e =
        let n = length items in
        elim (Bool-cases (key.groups == 1)) [
          | inl one ↦
              let single : key.groups ≡ 1 = (==_iff key.groups 1).0 one in
              let (layout, estimated, last) =
                >>=-ok _ (estimate key items keys plan none) (rw one at e) in
              let same : layout ∷ [] ≡ layouts = ok_injective last in
              let (v, le) =
                estimate-formed key items keys plan none valid.sample_pos
                  (omega (arith, mul_mono plan.sample_size (2 ^ 20) n valid.sample_le)) tt
                  valid.buckets_pos estimated in
              (
                plan.max_buckets,
                rw (← same) (record {
                  each_group = sym single;
                  formed = ((v, le), tt);
                  few =
                      omega
                        (arith, single, ap (λ g. g * plan.max_buckets) single, valid.buckets_le);
                }),
              )
          | inr more ↦
              let (members, grouped, e') =
                >>=-ok _ (group_members key items 0 (replicate key.groups [])) (rw more at e) in
              let (p, limited, e'') =
                >>=-ok _
                  (with_max_buckets plan (min plan.max_buckets (max_bucket_limit / key.groups)))
                  e' in
              let (long, below) =
                group_members-Below key items 0 (replicate key.groups []) (Below-none key.groups)
                  grouped in
              let here : 0 + n ≡ n = omega arith in
              let (some_bucket, le, sample) =
                per_group_plan plan (min plan.max_buckets (max_bucket_limit / key.groups))
                  limited in
              let (formed, count) =
                map_result-All (Below n)
                  (λ layout. IsLayout key layout × (bucket_count layout ≤ p.max_buckets))
                  (λ ms. estimate key items keys p (some ms))
                  (estimated-IsLayout items keys p (omega (arith, sample, valid.sample_pos))
                    (omega (arith, sample, valid.sample_le)) few some_bucket)
                  members (rw here at below) e'' in
              (
                p.max_buckets,
                record {
                  each_group = count ∙ long ∙ length-replicate key.groups [];
                  formed = formed;
                  few =
                      share_le key.groups p.max_buckets max_bucket_limit some_group
                        (omega (arith, le));
                },
              )
        ]
