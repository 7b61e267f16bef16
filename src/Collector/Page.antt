-- ===== src/Collector/Page.antt =====
-- Collect with a slice store: the results are one page of all hits in order, or the first error.
use mathlib.Core.List.{reverse}
use mathlib.Core.Path.{subst₂}
use bluge.Base.{
  ℕ, suc, ◌+◌, ◌%◌, ◌≡◌, refl, sym, ◌∙◌, true, false, not, ◌&&◌, List, [], ◌∷◌, map, Result, ok,
  err, ◌>>=◌, arith, take, drop, ap, ◌==◌, if◌then◌else◌, subst, Bool, Bool-cases, Result-cases,
  inl, inr, filterb, Option,
}
use bluge.Search.{DocumentMatch, compute}
use bluge.Search.Order.{IsTotal}
use bluge.Collector.{
  Env, TopNCollector, State, Hits, hit, stop, fail, check_done_every, hc_compare, offer,
  before_page, prepare, collect_single, collect_loop,
}
use bluge.Collector.Sorted.{insert, insert_all}
use bluge.Collector.Offer.{state, with_top, HoldsTop, offer-HoldsTop}

module _ {F E B : Type 0} (env : Env F E B) (hc : TopNCollector F) where
  -- The hits that Collect takes up, numbered and prepared, or the error that it meets first: of the
  -- searcher, of the loading of values, or of a context that is done at a multiple of 1024 hits.
  unfoldable pub seen : (ℕ → Bool) → Hits F E → ℕ → Result E (List (DocumentMatch F))
  seen done stop n = ok []
  seen done (fail e) n = err e
  seen done (hit next rest) n =
      if (n % check_done_every) == 0 && done n
      then err env.ctx_err
      else prepare env hc (record next { hit_number = suc n }) >>= λ d.
          seen done rest (suc n) >>= λ ds. ok (d ∷ ds)

  -- The bucket after the aggregations consumed the hits.
  abbrev pub consume_all : B → List (DocumentMatch F) → B
  consume_all bucket [] = bucket
  consume_all bucket (d ∷ ds) = consume_all (env.consume bucket d) ds

  -- The hits behind the key of the previous page, sorted.
  abbrev pub ranked : List (DocumentMatch F) → List (DocumentMatch F)
  ranked ds = insert_all (hc_compare env hc) [] (filterb (λ d. not (before_page env hc d)) ds)

  -- The results of a request: the page that starts at `skip`, turned round for a reversed search.
  abbrev pub page : List (DocumentMatch F) → List (DocumentMatch F)
  page ds =
      let top = map env.complete (drop hc.skip (take (hc.size + hc.skip) (ranked ds))) in
      let ordered = if hc.reverse then reverse top else top in
      if hc.score_sort then map (compute env.float64_bits hc.sort) ordered else ordered

  module _ (total : IsTotal (hc_compare env hc)) where
    -- What the loop ends with, from the hits that it saw.
    abbrev pub Ends :
        B
        → List (DocumentMatch F)
        → Result E (List (DocumentMatch F))
        → Result E (State F B)
        → Type 0
    Ends bucket sorted (err e) r = r ≡ err e
    Ends bucket sorted (ok ds) r =
        (s : State F B) × (r ≡ ok s)
        × HoldsTop env hc total (consume_all bucket ds)
            (insert_all (hc_compare env hc) sorted (filterb (λ d. not (before_page env hc d)) ds)) s

    abbrev pub step : State F B → DocumentMatch F → State F B
    step s d =
        let s' : State F B = record s { bucket = env.consume s.bucket d } in
        if before_page env s.hc d then s' else offer env s' d

    collect_single-prepare :
        (s : State F B) (d : DocumentMatch F)
        → collect_single env s d ≡ (prepare env s.hc d >>= λ d'. ok (step s d'))
    unfolding collect_single
    collect_single-prepare s d = refl

    prepare-state :
        (slice : List (DocumentMatch F)) (low : Option (DocumentMatch F)) (bucket : B)
        (pool : List (DocumentMatch F)) (d : DocumentMatch F)
        → prepare env (state env hc total slice low bucket pool).hc d ≡ prepare env hc d
    unfolding prepare
    prepare-state slice low bucket pool d = refl

    before_page-state :
        (slice : List (DocumentMatch F)) (low : Option (DocumentMatch F)) (d : DocumentMatch F)
        → before_page env (with_top env hc total slice low) d ≡ before_page env hc d
    unfolding before_page
    before_page-state slice low d = refl

    step-HoldsTop :
        (bucket : B) (sorted : List (DocumentMatch F)) (s : State F B) (d : DocumentMatch F)
        → HoldsTop env hc total bucket sorted s
        → HoldsTop env hc total
            (env.consume bucket d)
            (if before_page env hc d then sorted else insert (hc_compare env hc) d sorted)
            (step s d)
    step-HoldsTop bucket sorted s d h =
        subst (λ x. HoldsTop env hc total (env.consume bucket d) chosen (step x d)) (sym h.is_state)
          (elim (Bool-cases (before_page env hc d)) [
            | inl old ↦
                subst2 old (ap (λ b. if b then consumed else offer env consumed d) (same ∙ old))
                  kept
            | inr new ↦
                subst2 new (ap (λ b. if b then consumed else offer env consumed d) (same ∙ new))
                  (offer-HoldsTop env hc total (env.consume bucket d) sorted consumed d kept)
          ])
      where
        chosen : List (DocumentMatch F)
        chosen = if before_page env hc d then sorted else insert (hc_compare env hc) d sorted

        consumed : State F B
        consumed = state env hc total h.slice h.low (env.consume bucket d) h.pool

        kept : HoldsTop env hc total (env.consume bucket d) sorted consumed
        kept = record { slice = h.slice; low = h.low; pool = h.pool; is_state = refl; top = h.top }

        same : before_page env (with_top env hc total h.slice h.low) d ≡ before_page env hc d
        same = before_page-state h.slice h.low d

        subst2 :
            {b : Bool} {x : State F B}
            → before_page env hc d ≡ b
            → step (state env hc total h.slice h.low bucket h.pool) d ≡ x
            → HoldsTop env hc total
                (env.consume bucket d)
                (if b then sorted else insert (hc_compare env hc) d sorted)
                x
            → HoldsTop env hc total
                (env.consume bucket d)
                chosen
                (step (state env hc total h.slice h.low bucket h.pool) d)
        subst2 e f k =
            subst
              (λ b.
                HoldsTop env hc total (env.consume bucket d)
                  (if b then sorted else insert (hc_compare env hc) d sorted)
                  (step (state env hc total h.slice h.low bucket h.pool) d))
              (sym e) (subst (HoldsTop env hc total (env.consume bucket d) _) (sym f) k)

    Ends-cons :
        (bucket : B) (sorted : List (DocumentMatch F)) (d : DocumentMatch F)
        (r : Result E (List (DocumentMatch F))) (x : Result E (State F B))
        → Ends
            (env.consume bucket d)
            (if before_page env hc d then sorted else insert (hc_compare env hc) d sorted)
            r
            x
        → Ends bucket sorted (r >>= λ ds. ok (d ∷ ds)) x
    unfolding insert_all
    Ends-cons bucket sorted d (err e) x h = h
    Ends-cons bucket sorted d (ok ds) x (s, e, h) = (
      s,
      e,
      subst (λ l. HoldsTop env hc total (consume_all (env.consume bucket d) ds) l s)
          (split (before_page env hc d)) h,
    )
      where
        split :
            (b : Bool)
            → insert_all
                (hc_compare env hc)
                (if b then sorted else insert (hc_compare env hc) d sorted)
                (filterb (λ d'. not (before_page env hc d')) ds)
              ≡ insert_all (hc_compare env hc) sorted (elim (not b) [
                | true ↦ d ∷ filterb (λ d'. not (before_page env hc d')) ds
                | false ↦ filterb (λ d'. not (before_page env hc d')) ds
              ])
        split true = refl
        split false = refl

    module _ (done : ℕ → Bool) (next : DocumentMatch F) (rest : Hits F E) (n : ℕ) where
      abbrev asks : Bool
      asks = (n % check_done_every) == 0 && done n

      abbrev numbered : DocumentMatch F
      numbered = record next { hit_number = suc n }

      seen-done : asks ≡ true → seen done (hit next rest) n ≡ err env.ctx_err
      unfolding seen
      seen-done h = rw h

      seen-err :
          (e : E)
          → asks ≡ false
          → prepare env hc numbered ≡ err e
          → seen done (hit next rest) n ≡ err e
      unfolding seen
      seen-err e h k = rw (h, k)

      seen-ok :
          (d : DocumentMatch F)
          → asks ≡ false
          → prepare env hc numbered ≡ ok d
          → seen done (hit next rest) n ≡ (seen done rest (suc n) >>= λ ds. ok (d ∷ ds))
      unfolding seen
      seen-ok d h k = rw (h, k)

      loop-done :
          (s : State F B)
          → asks ≡ true
          → collect_loop env done (hit next rest) n s ≡ err env.ctx_err
      unfolding collect_loop
      loop-done s h = ground arith

      loop-single :
          (s : State F B)
          → asks ≡ false
          → collect_loop env done (hit next rest) n s
            ≡ (collect_single env s numbered >>= λ s'. collect_loop env done rest (suc n) s')
      unfolding collect_loop
      loop-single s h = rw (collect_loop, h) refl

      loop-body :
          (s : State F B) (r : Result E (DocumentMatch F))
          → asks ≡ false
          → prepare env s.hc numbered ≡ r
          → collect_loop env done (hit next rest) n s
            ≡ (r >>= λ d. ok (step s d) >>= λ s'. collect_loop env done rest (suc n) s')
      loop-body s (err e) h k =
          loop-single s h
          ∙ ap (λ (x : Result E (State F B)). x >>= λ s'. collect_loop env done rest (suc n) s')
              (collect_single-prepare s numbered
                ∙ ap (λ (x : Result E (DocumentMatch F)). x >>= λ d'. ok (step s d')) k)
      loop-body s (ok d) h k =
          loop-single s h
          ∙ ap (λ (x : Result E (State F B)). x >>= λ s'. collect_loop env done rest (suc n) s')
              (collect_single-prepare s numbered
                ∙ ap (λ (x : Result E (DocumentMatch F)). x >>= λ d'. ok (step s d')) k)

    pub loop-Ends :
        (done : ℕ → Bool) (hits : Hits F E) (n : ℕ) (bucket : B) (sorted : List (DocumentMatch F))
        (s : State F B)
        → HoldsTop env hc total bucket sorted s
        → Ends bucket sorted (seen done hits n) (collect_loop env done hits n s)
    unfolding seen collect_loop insert_all
    loop-Ends done stop n bucket sorted s h = (s, refl, h)
    loop-Ends done (fail e) n bucket sorted s h = refl
    loop-Ends done (hit next rest) n bucket sorted s h =
        let prepared : prepare env s.hc (numbered done next rest n)
            ≡ prepare env hc (numbered done next rest n) =
          ap (λ (x : State F B). prepare env x.hc (numbered done next rest n)) h.is_state
          ∙ prepare-state h.slice h.low bucket h.pool (numbered done next rest n) in
        elim (Bool-cases (asks done next rest n)) [
          | inl over ↦
              both (seen-done done next rest n over) (loop-done done next rest n s over) refl
          | inr more ↦ elim (Result-cases (prepare env hc (numbered done next rest n))) [
            | inl (e, failed) ↦
                both (seen-err done next rest n e more failed)
                  (loop-body done next rest n s (err e) more (prepared ∙ failed)) refl
            | inr (d, worked) ↦
                both (seen-ok done next rest n d more worked)
                  (loop-body done next rest n s (ok d) more (prepared ∙ worked))
                  (Ends-cons bucket sorted d (seen done rest (suc n)) _ (
                    loop-Ends done rest (suc n) (env.consume bucket d) _ (step s d)
                      (step-HoldsTop bucket sorted s d h)))
          ]
        ]
      where
        both :
            {a b : Result E (List (DocumentMatch F))} {x y : Result E (State F B)}
            → a ≡ b
            → x ≡ y
            → Ends bucket sorted b y
            → Ends bucket sorted a x
        both p q e = subst₂ (Ends bucket sorted) (sym p) (sym q) e
