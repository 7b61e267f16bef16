-- ===== src/Index/Batch.antt =====
-- index/batch.go: a batch of mutations, kept once in compact lists for the text index and once as
-- operations for secondary indexes. Documents, terms and the callback are parameters.
use bluge.Base.{
  ℕ, ◌≡◌, refl, ap, sym, append-nil, ◌∙◌, Bool, true, false, List, [], ◌∷◌, ◌++◌, Option, none,
  some, length,
}

-- A BatchOperation by its kind; the fields that a kind leaves nil are left out.
pub data BatchOperation (D T : Type 0) : Type 0 where
  insert_operation : D → BatchOperation D T
  update_operation : T → D → BatchOperation D T
  delete_operation : T → BatchOperation D T

pub record Batch (D T C : Type 0) : Type 0 where
  pub documents : List D
  pub ids : List T
  pub persisted_callback : Option C
  pub operations : List (BatchOperation D T)

-- A visitor carries a state; false stops the iteration.
abbrev pub visit_loop :
    {D T S : Type 0} → (BatchOperation D T → S → Bool × S) → List (BatchOperation D T) → S → S
visit_loop visitor [] s = s
visit_loop visitor (operation ∷ rest) s =
    let answer = visitor operation s in
    elim answer.0 [ true ↦ visit_loop visitor rest answer.1 | false ↦ answer.1 ]

-- The methods that change a batch.
pub data Call (D T C : Type 0) : Type 0 where
  insert_call : D → Call D T C
  update_call : T → D → Call D T C
  delete_call : T → Call D T C
  reset_call : Call D T C
  callback_call : C → Call D T C

module _ {D T C : Type 0} where
  abbrev pub new_batch : Batch D T C
  new_batch = record { documents = []; ids = []; persisted_callback = none; operations = [] }

  unfoldable pub insert : Batch D T C → D → Batch D T C
  insert b doc = record b {
    documents = b.documents ++ doc ∷ [];
    operations = b.operations ++ insert_operation doc ∷ [];
  }

  unfoldable pub update : Batch D T C → T → D → Batch D T C
  update b id doc = record b {
    documents = b.documents ++ doc ∷ [];
    ids = b.ids ++ id ∷ [];
    operations = b.operations ++ update_operation id doc ∷ [];
  }

  unfoldable pub delete : Batch D T C → T → Batch D T C
  delete b id = record b {
    ids = b.ids ++ id ∷ [];
    operations = b.operations ++ delete_operation id ∷ [];
  }

  unfoldable pub reset : Batch D T C → Batch D T C
  reset b = record b { documents = []; ids = []; operations = []; persisted_callback = none }

  unfoldable pub set_persisted_callback : Batch D T C → C → Batch D T C
  set_persisted_callback b f = record b { persisted_callback = some f }

  unfoldable pub operation_count : Batch D T C → ℕ
  operation_count b = length b.operations

  -- A nil visitor is none.
  unfoldable pub visit_operations :
      {S : Type 0} → Batch D T C → Option (BatchOperation D T → S → Bool × S) → S → S
  visit_operations b none s = s
  visit_operations b (some visitor) s = visit_loop visitor b.operations s

  unfoldable pub run_call : Batch D T C → Call D T C → Batch D T C
  unfolding insert update delete reset set_persisted_callback
  run_call b (insert_call doc) = insert b doc
  run_call b (update_call id doc) = update b id doc
  run_call b (delete_call id) = delete b id
  run_call b reset_call = reset b
  run_call b (callback_call f) = set_persisted_callback b f

  unfoldable pub run : Batch D T C → List (Call D T C) → Batch D T C
  unfolding run_call
  run b [] = b
  run b (c ∷ cs) = run (run_call b c) cs

module _ {D T : Type 0} where
  abbrev pub documents_of : List (BatchOperation D T) → List D
  documents_of [] = []
  documents_of (insert_operation doc ∷ rest) = doc ∷ documents_of rest
  documents_of (update_operation id doc ∷ rest) = doc ∷ documents_of rest
  documents_of (delete_operation id ∷ rest) = documents_of rest

  abbrev pub ids_of : List (BatchOperation D T) → List T
  ids_of [] = []
  ids_of (insert_operation doc ∷ rest) = ids_of rest
  ids_of (update_operation id doc ∷ rest) = id ∷ ids_of rest
  ids_of (delete_operation id ∷ rest) = id ∷ ids_of rest

  documents_of-append :
      (xs ys : List (BatchOperation D T))
      → documents_of (xs ++ ys) ≡ documents_of xs ++ documents_of ys
  documents_of-append [] ys = refl
  documents_of-append (insert_operation doc ∷ rest) ys =
      ap (λ l. doc ∷ l) (documents_of-append rest ys)
  documents_of-append (update_operation id doc ∷ rest) ys =
      ap (λ l. doc ∷ l) (documents_of-append rest ys)
  documents_of-append (delete_operation id ∷ rest) ys = documents_of-append rest ys

  ids_of-append : (xs ys : List (BatchOperation D T)) → ids_of (xs ++ ys) ≡ ids_of xs ++ ids_of ys
  ids_of-append [] ys = refl
  ids_of-append (insert_operation doc ∷ rest) ys = ids_of-append rest ys
  ids_of-append (update_operation id doc ∷ rest) ys = ap (λ l. id ∷ l) (ids_of-append rest ys)
  ids_of-append (delete_operation id ∷ rest) ys = ap (λ l. id ∷ l) (ids_of-append rest ys)

module _ {D T C : Type 0} where
  -- The two views of a batch agree.
  abbrev pub IsConsistent : Batch D T C → Type 0
  IsConsistent b = (b.documents ≡ documents_of b.operations) × (b.ids ≡ ids_of b.operations)

  run_call-IsConsistent :
      (b : Batch D T C) (c : Call D T C) → IsConsistent b → IsConsistent (run_call b c)
  unfolding run_call insert update delete reset set_persisted_callback
  run_call-IsConsistent b (insert_call doc) h = (
    ap (λ l. l ++ doc ∷ []) h.0
        ∙ sym (documents_of-append b.operations (insert_operation doc ∷ [])),
    h.1
        ∙ sym (
            ids_of-append b.operations (insert_operation doc ∷ [])
            ∙ append-nil (ids_of b.operations)),
  )
  run_call-IsConsistent b (update_call id doc) h = (
    ap (λ l. l ++ doc ∷ []) h.0
        ∙ sym (documents_of-append b.operations (update_operation id doc ∷ [])),
    ap (λ l. l ++ id ∷ []) h.1 ∙ sym (ids_of-append b.operations (update_operation id doc ∷ [])),
  )
  run_call-IsConsistent b (delete_call id) h = (
    h.0
        ∙ sym (
            documents_of-append b.operations (delete_operation id ∷ [])
            ∙ append-nil (documents_of b.operations)),
    ap (λ l. l ++ id ∷ []) h.1 ∙ sym (ids_of-append b.operations (delete_operation id ∷ [])),
  )
  run_call-IsConsistent b reset_call h = (refl, refl)
  run_call-IsConsistent b (callback_call f) h = h

  -- If the documents and the ids of a batch are those of its operations, they are so after any
  -- calls of its methods.
  pub run-IsConsistent :
      (b : Batch D T C) (cs : List (Call D T C)) → IsConsistent b → IsConsistent (run b cs)
  unfolding run
  run-IsConsistent b [] h = h
  run-IsConsistent b (c ∷ cs) h = run-IsConsistent (run_call b c) cs (run_call-IsConsistent b c h)
