-- ===== src/Lib.antt =====
-- A model of bluge, a full-text search library in Go, and its correctness.
--
-- An Analyzer turns text into tokens and numbers into terms (analysis, numeric). A writer
-- collects documents in batches, keeps segments and snapshots in a directory, plans merges of
-- segments and removes what no snapshot needs (index). A search builds a tree of searchers,
-- which yield the matching documents in the order of their numbers (search/searcher), and a
-- collector keeps the best of them under a sort order (search, search/collector). The collector
-- takes matches from a searcher, compares them by a sort order, and hands over pages of a size.
-- Of the index, the introducer is modelled, which owns the root: batches, persisted segments and
-- merges reach it in some order, and each makes a new root. Beside it stand the parts with a
-- state of their own, which meet the rest through the segments that a plan lists, the items that
-- a policy removes, and the operations of a batch.
--
-- Base: names passed on from the libraries, Boolean tests on the native numbers, lists, the
--   result of a call with an error, and floats as an interface with laws of their order.
-- MergePlan: index/mergeplan/merge_plan.go. `plan` is `plan`, with `plan_loop`, `best_roster`
--   and `roster_loop` for its three loops, and `remove_segments`,
--   `find_live_sizes_and_eligibles`, `calc_budget` and `score_segments` for the functions that
--   it calls.
-- Search: search/sort.go and the score and text sources of search/source.go. `sort_compare` is
--   SortOrder.Compare, `compare_score` CompareScore, `compute` Compute, `reverse_order` Reverse.
-- Collector: search/collector/topn.go, slice.go and heap.go. `collect` is Collect,
--   `collect_single` is collectSingle, split into `prepare`, `before_page` and `offer`.
-- Searcher: the interface of search/search.go, search/searcher/search_filter.go,
--   search_disjunction_slice.go, search_conjunction.go and search_boolean.go. Searcher.Contract
--   says what a searcher of the index promises, Searcher.Moves what Next and Advance do to the
--   documents that it has left, Searcher.First what a composite searcher returns.
--   `conjunction_next` is Next of ConjunctionSearcher with `scan` for its two loops;
--   `boolean_next` is Next of BooleanSearcher, `candidate` a turn of nextInternal with
--   doesMustNotExcludeCandidate, `advance_if_trailing` advanceIfTrailing.
-- Index: index/deletion.go, index/retry.go and index/batch.go, a function for each method; in
--   Index.Segments the counts of index/segment.go; in Index.Introducer index/introducer.go and
--   segmentMerge of index/merge.go: `introduce_segment`, `introduce_persist` and
--   `introduce_merge` with their loops, where oldNewDocNums is a map to lists and `none` a
--   panic, and `introducer_turn` for a turn of introducerLoop; in Index.Postings Next and
--   Advance of index/postings.go.
-- Analysis: analysis/type.go, analysis/util.go and the filters of analysis/token that drop
--   tokens, change single tokens, build n-grams or split camel case.
-- Numeric: numeric/prefix_coded.go and Float64ToInt64 of numeric/float.go. An int64 is its bit
--   pattern.
-- Tests: runs at small inputs.
--
-- Fuel. `calc_budget` passes its loop the total size plus one: a turn that goes on takes at
-- least one from the total. `plan` passes its loop the number of eligible segments plus one: a
-- turn that goes on removes a segment. The loop of the filtering searcher is given more fuel
-- than its child has matches left, each of which it takes at most once, and the loop of the
-- disjunction one more than its searchers have pending: a turn consumes one. The loop of the
-- boolean searcher is given more than the searcher that its candidates come from has left: a
-- turn consumes one of these. The loop of the conjunction is given (n + 1) * (2 * t + 2) turns
-- for n searchers with t documents left: an advance consumes a document, `maxIDIdx` does not
-- change twice without one, and between such events the index of the inner loop rises.
--
-- Parameters. sort.Sort is a function that permutes. float64 is a type with operations and with
-- laws of its order where a proof needs them. container/heap is a record of functions. Unicode
-- and UTF-8 are records of functions. The sizes of the tiers of CalcBudget are taken to stay
-- within int64, where the product of a size and a growth of 1 or above is positive;
-- math.Float64bits is a function. What a directory refuses to remove, the values of documents
-- and the aggregations of a search, and the searchers of an index are arguments. roaring.Bitmap
-- and a segment are records of functions, with laws that tell what the functions do to the
-- numbers in a bitmap. Integers of the source that cannot be negative are natural numbers;
-- wrapping is written out where a value can reach the width.
--
-- Not modelled: reading and writing of segments and snapshots, the goroutines of the writer, the
-- persister and the merger around the introducer, the phrase, range and geographic searchers,
-- the heap form of the disjunction, the constructors of searchers, the vector index, the
-- analyzers of the languages, highlighting, aggregations and similarity. They are input and
-- output, tables, glue over other libraries, or parts to be added beside these modules.
pub mod Base
pub mod MergePlan
pub mod Search
pub mod Collector
pub mod Searcher
pub mod Index
pub mod Analysis
pub mod Numeric
pub mod Tests
