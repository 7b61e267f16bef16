-- ===== src/Collector/Offer.antt =====
-- The step of the collector on one hit keeps the invariant of Collector.Top.
use Prim.Native.Nat.{Ordering}
use bluge.Base.{
  ℕ, ◌+◌, ◌<◌, ◌≡◌, refl, sym, ◌∙◌, false, List, ◌∷◌, Option, none, some, arith, length, ap, ltb,
  if◌then◌else◌, subst, Bool-cases, inl, inr,
}
use bluge.Search.{DocumentMatch}
use bluge.Search.Order.{IsTotal}
use bluge.Collector.{Env, TopNCollector, State, hc_compare, keep_lowest, add_to_store, offer}
use bluge.Collector.Store.{CollectorStore, slice_store, add_not_exceeding_size}
use bluge.Collector.Sorted.{insert, is_lt, length-insert}
use bluge.Collector.Top.{
  IsTop, add_room, add_full, IsTop-room, IsTop-skip, IsTop-full, new_lowest, store-IsSorted,
  snoc_view,
}

module _ {F E B : Type 0} (env : Env F E B) (hc : TopNCollector F)
    (total : IsTotal (hc_compare env hc)) where
  abbrev pub limit : ℕ
  limit = hc.size + hc.skip

  -- The collector with this store and this match outside.
  abbrev pub with_top : List (DocumentMatch F) → Option (DocumentMatch F) → TopNCollector F
  with_top slice low = record hc { store = slice_store slice; lowest_match_outside_results = low }

  abbrev pub state :
      List (DocumentMatch F) → Option (DocumentMatch F) → B → List (DocumentMatch F) → State F B
  state slice low bucket pool = record { hc = with_top slice low; bucket = bucket; pool = pool }

  -- The state holds the top of the sorted hits.
  pub record HoldsTop (bucket : B) (sorted : List (DocumentMatch F)) (s : State F B) : Type 0 where
    pub slice : List (DocumentMatch F)
    pub low : Option (DocumentMatch F)
    pub pool : List (DocumentMatch F)
    pub is_state : s ≡ state slice low bucket pool
    pub top : IsTop (hc_compare env hc) total limit sorted slice low

  -- What add_to_store does, from what the store returns.
  add_to_store-eq :
      (bucket : B) (slice after : List (DocumentMatch F)) (low removed : Option (DocumentMatch F))
      (pool : List (DocumentMatch F)) (d : DocumentMatch F)
      → add_not_exceeding_size (hc_compare env hc) env.heap (slice_store slice) d limit
        ≡ (removed, slice_store after)
      → add_to_store env (state slice low bucket pool) d
        ≡ keep_lowest env (state after low bucket pool) removed
  unfolding add_to_store
  add_to_store-eq bucket slice after low removed pool d e =
      ap
        (λ (r : Option (DocumentMatch F) × CollectorStore (DocumentMatch F)).
          keep_lowest env
            (record {
              hc = record hc { store = r.1; lowest_match_outside_results = low };
              bucket = bucket;
              pool = pool;
            })
            r.0)
        e

  keep_lowest-none : (s : State F B) → keep_lowest env s none ≡ s
  unfolding keep_lowest
  keep_lowest-none s = refl

  -- The pool after a match was pushed out.
  abbrev new_pool :
      DocumentMatch F → Option (DocumentMatch F) → List (DocumentMatch F) → List (DocumentMatch F)
  new_pool last none pool = pool
  new_pool last (some l) pool = if is_lt (hc_compare env hc last l) then l ∷ pool else pool

  keep_lowest-some :
      (bucket : B) (slice pool : List (DocumentMatch F)) (low : Option (DocumentMatch F))
      (last : DocumentMatch F) (sorted before : List (DocumentMatch F)) (d : DocumentMatch F)
      (top : IsTop (hc_compare env hc) total limit sorted before low)
      → keep_lowest env (state slice low bucket pool) (some last)
        ≡ state slice
            (new_lowest (hc_compare env hc) total limit d top last low)
            bucket
            (new_pool last low pool)
  unfolding keep_lowest
  keep_lowest-some bucket slice pool none last sorted before d top = refl
  keep_lowest-some bucket slice pool (some l) last sorted before d top = ground arith

  add_to_store-HoldsTop :
      (bucket : B) (sorted slice : List (DocumentMatch F)) (low : Option (DocumentMatch F))
      (pool : List (DocumentMatch F)) (d : DocumentMatch F)
      → IsTop (hc_compare env hc) total limit sorted slice low
      → ((l : DocumentMatch F) → low ≡ some l → hc_compare env hc d l ≡ Ordering.lt)
      → HoldsTop bucket
          (insert (hc_compare env hc) d sorted)
          (add_to_store env (state slice low bucket pool) d)
  add_to_store-HoldsTop bucket sorted slice low pool d top below =
      let order = store-IsSorted _ total limit d top in
      elim (Bool-cases (ltb (length slice) limit)) [
        | inl room ↦
            let fits : length slice < limit = ground arith in
            record {
              slice = insert (hc_compare env hc) d slice;
              low = low;
              pool = pool;
              is_state =
                  add_to_store-eq bucket slice (insert (hc_compare env hc) d slice) low none pool d
                    (add_room _ total env.heap limit d slice order fits)
                  ∙ keep_lowest-none _;
              top = IsTop-room _ total limit d top fits;
            }
        | inr full ↦
            let (init, last, e) =
              snoc_view (insert (hc_compare env hc) d slice)
                (omega (arith, length-insert (hc_compare env hc) d slice)) in
            let size : length slice ≡ limit = ground (arith, top.bounded) in
            record {
              slice = init;
              low = new_lowest (hc_compare env hc) total limit d top last low;
              pool = new_pool last low pool;
              is_state =
                  add_to_store-eq bucket slice init low (some last) pool d
                    (add_full _ total env.heap limit d slice order init last size e)
                  ∙ keep_lowest-some bucket init pool low last sorted slice d top;
              top = IsTop-full _ total limit d top init last size e below;
            }
      ]

  offer-added :
      (bucket : B) (slice : List (DocumentMatch F)) (low : Option (DocumentMatch F))
      (pool : List (DocumentMatch F)) (d : DocumentMatch F)
      → ((l : DocumentMatch F) → low ≡ some l → hc_compare env hc d l ≡ Ordering.lt)
      → offer env (state slice low bucket pool) d ≡ add_to_store env (state slice low bucket pool) d
  unfolding offer
  offer-added bucket slice none pool d h = refl
  offer-added bucket slice (some l) pool d h = ground (arith, h l refl)

  offer-skipped :
      (bucket : B) (slice : List (DocumentMatch F)) (l : DocumentMatch F)
      (pool : List (DocumentMatch F)) (d : DocumentMatch F)
      → is_lt (hc_compare env hc d l) ≡ false
      → offer env (state slice (some l) bucket pool) d ≡ state slice (some l) bucket (d ∷ pool)
  unfolding offer
  offer-skipped bucket slice l pool d h = ground arith

  -- Whether or not the shortcut is taken, the state holds the top of one more hit.
  pub offer-HoldsTop :
      (bucket : B) (sorted : List (DocumentMatch F)) (s : State F B) (d : DocumentMatch F)
      → HoldsTop bucket sorted s
      → HoldsTop bucket (insert (hc_compare env hc) d sorted) (offer env s d)
  offer-HoldsTop bucket sorted s d h =
      subst (λ x. HoldsTop bucket (insert (hc_compare env hc) d sorted) (offer env x d))
        (sym h.is_state) (go h.low h.top)
    where
      go :
          (low : Option (DocumentMatch F))
          → IsTop (hc_compare env hc) total limit sorted h.slice low
          → HoldsTop bucket
              (insert (hc_compare env hc) d sorted)
              (offer env (state h.slice low bucket h.pool) d)
      go none top =
          subst (HoldsTop bucket (insert (hc_compare env hc) d sorted))
            (sym (offer-added bucket h.slice none h.pool d (λ l e. absurd (cc))))
            (add_to_store-HoldsTop bucket sorted h.slice none h.pool d top (λ l e. absurd (cc)))
      go (some l) top = elim (Bool-cases (is_lt (hc_compare env hc d l))) [
        | inl less ↦
            let below : (k : DocumentMatch F)
                → some l ≡ some k
                → hc_compare env hc d k ≡ Ordering.lt =
              λ k e. ground arith in
            subst (HoldsTop bucket (insert (hc_compare env hc) d sorted))
              (sym (offer-added bucket h.slice (some l) h.pool d below))
              (add_to_store-HoldsTop bucket sorted h.slice (some l) h.pool d top below)
        | inr more ↦ record {
          slice = h.slice;
          low = some l;
          pool = d ∷ h.pool;
          is_state = offer-skipped bucket h.slice l h.pool d more;
          top = IsTop-skip _ total limit d top l refl more;
        }
      ]
