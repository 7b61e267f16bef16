-- ===== src/Searcher/Disjunction/Advance.antt =====
-- Advance of the disjunction, over searchers that list their matches.
use bluge.Base.{ℕ, ◌+◌, ◌≡◌, true, List, Option, some, ok, ltb, arith, if◌then◌else◌}
use bluge.Searcher.{Match, Searcher, Child}
use bluge.Searcher.Contract.{Lists}
use bluge.Searcher.Advancing.{
  AllSettled, all_settled, advance_all_lem, AllAscending-all_settled, total-all_settled,
  count-all_settled,
}
use bluge.Searcher.Disjunction.{
  Disjunction, update_matches, disjunction_loop, initialize, disjunction_next, disjunction_advance,
}
use bluge.Searcher.Disjunction.Matching.{update_matches-IsLeastMatching}
use bluge.Searcher.Disjunction.Turn.{count, total_pending}
use bluge.Searcher.Disjunction.Correct.{IsReady, IsNext, disjunction_loop-IsNext}

module _ {F E S : Type 0} (searcher : Searcher F E S) (score : List (Match F) → F) (min : ℕ)
    (lists : Lists searcher) where
  -- Under the conditions of Next, if every searcher with a nil current match has nothing left,
  -- Advance returns what the rule of Next says of searchers that have the same documents left from
  -- the number on, and none before it.
  pub disjunction_advance-IsNext :
      (d : Disjunction F S) (n : ℕ)
      → IsReady searcher score min lists d
      → AllSettled searcher lists d.children
      → d.initialized ≡ true
      → (cs : List (Child F S)) × ((j : ℕ)
          → count searcher lists j cs ≡ (if ltb j n then 0 else count searcher lists j d.children))
        × IsNext searcher score min lists cs (
            disjunction_advance searcher score min
              (total_pending searcher lists d.children + 1)
              d
              n)
  unfolding disjunction_advance disjunction_next initialize update_matches
  disjunction_advance-IsNext d n r h i =
      let cs = all_settled searcher lists n d.children in
      let fuel = total_pending searcher lists d.children + 1 in
      let d' = update_matches (record d { children = cs }) in
      let next =
        disjunction_loop-IsNext searcher score min lists fuel d'
          (record {
            ascending = AllAscending-all_settled searcher lists n d.children r.ascending;
            least = update_matches-IsLeastMatching (record d { children = cs });
          })
          (omega (arith, total-all_settled searcher lists n d.children h)) in
      (
        cs,
        (λ j. count-all_settled searcher lists n j d.children r.ascending h),
        record {
          match = next.match;
          after = next.after;
          returns = returned next.match next.after next.returns;
          ready = next.ready;
          first = next.first;
        },
      )
    where
      returned :
          (m : Option (Match F)) (a : Disjunction F S)
          → disjunction_loop searcher score min
              (total_pending searcher lists d.children + 1)
              (update_matches (record d { children = all_settled searcher lists n d.children }))
            ≡ some (ok (m, a))
          → disjunction_advance searcher score min (total_pending searcher lists d.children + 1) d n
            ≡ some (ok (m, a))
      returned m a e = ground (arith, i, advance_all_lem searcher lists score min n d.children, e)
