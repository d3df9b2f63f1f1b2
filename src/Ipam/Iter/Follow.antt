-- ===== src/Ipam/Iter/Follow.antt =====
-- Which ranges follow which in a set, by their indices.
use native.Mathlib.Nat.{mod-eq_of_lt, mod_self}
use mathlib.Core.List.{append_assoc, append-nil}
use multus_ext_cni.Prelude.{
  ℕ, suc, ◌+◌, ◌%◌, ◌<◌, ◌≡◌, ◌≢◌, sym, ◌∙◌, ap, refl, [], ◌∷◌, ◌++◌, some, arith, length,
  length-append, get_elem?, get_elem?-append,
}
use multus_ext_cni.Ipam.Range.{Range}
use multus_ext_cni.Ipam.RangeSet.{RangeSet}
use multus_ext_cni.Ipam.Iter.Chain.{Follow, after_idx, last_idx}

pub at_done :
    (rs done rest : RangeSet) (r : Range) (idx : ℕ)
    → rs ≡ done ++ r ∷ rest
    → idx ≡ length done
    → get_elem? rs idx ≡ some r
at_done rs done rest r idx e n =
    ap (λ t. get_elem? t idx) e ∙ ap (get_elem? (done ++ r ∷ rest)) n ∙ get_elem?-append done r rest

pub after_idx-small : (rs : RangeSet) (idx : ℕ) → idx + 1 < length rs → after_idx rs idx ≡ idx + 1
after_idx-small rs idx h = mod-eq_of_lt h

pub after_idx-last : (rs : RangeSet) (idx : ℕ) → idx + 1 ≡ length rs → after_idx rs idx ≡ 0
after_idx-last rs idx h = ap (λ t. t % length rs) h ∙ mod_self (length rs)

module _ (rs : RangeSet) (away : ℕ) where
  -- The ranges `rest` stand behind range `r`, which stands behind `done`.
  pub Follow-run :
      (rest done suffix : RangeSet) (r : Range) (idx : ℕ)
      → rs ≡ done ++ r ∷ (rest ++ suffix)
      → idx ≡ length done
      → ((j : ℕ) → idx < j → j < suc (idx + length rest) → j ≢ away)
      → Follow rs away idx rest × (last_idx rs idx rest ≡ idx + length rest)
  Follow-run [] done suffix r idx e n free = (tt, omega arith)
  Follow-run (r' ∷ rest) done suffix r idx e n free =
      let e' : rs ≡ (done ++ r ∷ []) ++ r' ∷ (rest ++ suffix) =
        e ∙ sym (append_assoc done (r ∷ []) (r' ∷ (rest ++ suffix))) in
      let small : after_idx rs idx ≡ idx + 1 =
        after_idx-small rs idx
          (omega (arith, ap length e, length-append done (r ∷ r' ∷ (rest ++ suffix)), n)) in
      let n' : after_idx rs idx ≡ length (done ++ r ∷ []) =
        omega (arith, small, n, length-append done (r ∷ [])) in
      let more =
        Follow-run rest (done ++ r ∷ []) suffix r' (after_idx rs idx) e' n'
          (λ j lo hi. free j (omega (arith, small)) (omega (arith, small))) in
      (
        (
          at_done rs (done ++ r ∷ []) (rest ++ suffix) r' (after_idx rs idx) e' n',
          free (after_idx rs idx) (omega (arith, small)) (omega (arith, small)),
          more.0,
        ),
        omega (arith, more.1, small),
      )

  pub Follow-append :
      (xs ys : RangeSet) (idx : ℕ)
      → Follow rs away idx xs
      → Follow rs away (last_idx rs idx xs) ys
      → Follow rs away idx (xs ++ ys)
  Follow-append [] ys idx f g = g
  Follow-append (x ∷ xs) ys idx f g = (f.0, f.1, Follow-append xs ys (after_idx rs idx) f.2 g)

pub last_idx-append :
    (rs xs ys : RangeSet) (idx : ℕ)
    → last_idx rs idx (xs ++ ys) ≡ last_idx rs (last_idx rs idx xs) ys
last_idx-append rs [] ys idx = refl
last_idx-append rs (x ∷ xs) ys idx = last_idx-append rs xs ys (after_idx rs idx)

-- Behind the last range the walk is at the first one again.
abbrev Wraps : RangeSet → RangeSet → Range → Type 0
Wraps before after r =
    let rs : RangeSet = before ++ r ∷ after in
    let k : ℕ = length before in
    Follow rs k k after
    × (last_idx rs k after ≡ k + length after)
    × (after_idx rs (last_idx rs k after) ≡ 0)

wraps : (before after : RangeSet) (r : Range) → Wraps before after r
wraps before after r =
    let rs : RangeSet = before ++ r ∷ after in
    let k : ℕ = length before in
    let run =
      Follow-run rs k after before [] r k (ap (λ t. before ++ r ∷ t) (sym (append-nil after))) refl
        (λ j lo hi e. absurd (omega arith)) in
    (
      run.0,
      run.1,
      after_idx-last rs (last_idx rs k after)
          (omega (arith, run.1, length-append before (r ∷ after))),
    )

-- In `before ++ r ∷ after`, what stands behind `r` and then what stands before it follow `r`, and
-- `r` itself is next.
abbrev pub Around : RangeSet → RangeSet → Range → Type 0
Around before after r =
    let rs : RangeSet = before ++ r ∷ after in
    let k : ℕ = length before in
    Follow rs k k (after ++ before) × (after_idx rs (last_idx rs k (after ++ before)) ≡ k)

pub around : (before after : RangeSet) (r : Range) → Around before after r
around [] after r =
    let rs : RangeSet = r ∷ after in
    let (run, len, back) = wraps [] after r in
    (Follow-append rs 0 after [] 0 run tt, ap (after_idx rs) (last_idx-append rs after [] 0) ∙ back)
around (b ∷ bs) after r =
    let rs : RangeSet = b ∷ bs ++ r ∷ after in
    let k : ℕ = suc (length bs) in
    let (run, len, back) = wraps (b ∷ bs) after r in
    let idx : ℕ = after_idx rs (last_idx rs k after) in
    let again =
      Follow-run rs k bs [] (r ∷ after) b idx refl back
        (λ j lo hi e. absurd (omega (arith, back))) in
    let first : get_elem? rs idx ≡ some b = ap (get_elem? rs) back in
    (
      Follow-append rs k after (b ∷ bs) k run
          (first, (λ e. absurd (omega (arith, back, e))), again.0),
      ap (after_idx rs) (last_idx-append rs after (b ∷ bs) k ∙ again.1)
          ∙ after_idx-small rs (idx + length bs) (omega (arith, back, length-append bs (r ∷ after)))
          ∙ omega (arith, back),
    )
