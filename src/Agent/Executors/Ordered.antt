-- ===== src/Agent/Executors/Ordered.antt =====
-- About the output of a run, in src/gptlink/agent/executors/linux.py and windows_process.py.
use mathlib.Core.List.{map-append}
use gptlink.Agent.Executors.Output.{
  Event, Run, answered, chunk_of, exits, received, run, started, step,
}
use gptlink.Agent.Jobs.{OutputChunk}
use gptlink.Common.Types.{StreamKind, stderr, stdout}
use gptlink.Prelude.{
  Bool, List, String, [], any, ap, append-nil, append_assoc, arith, false, if◌then◌else◌, length,
  length-append, map, not, refl, select, suc, sym, true, ℕ, ◌++◌, ◌+◌, ◌||◌, ◌∙◌, ◌∷◌, ◌≡◌,
}

abbrev pub of_stream : StreamKind → StreamKind → Bool
of_stream stdout stdout = true
of_stream stderr stderr = true
of_stream _ _ = false

-- the chunks of one stream, in order
abbrev pub texts : StreamKind → List OutputChunk → List String
texts k cs = map (λ (c : OutputChunk). c.text) (select (λ c. of_stream k c.stream) cs)

abbrev pub pieces_of : StreamKind → Event → List (List ℕ)
pieces_of k (received j [] now) = []
pieces_of k (received j (b ∷ bytes) now) = if of_stream k j then (b ∷ bytes) ∷ [] else []
pieces_of k (answered j accepted) = []
pieces_of k (exits n) = []

-- what the stream gave, read by read
abbrev pub pieces : StreamKind → List Event → List (List ℕ)
pieces k [] = []
pieces k (e ∷ es) = pieces_of k e ++ pieces k es

abbrev pub is_refusal : Event → Bool
is_refusal (answered k accepted) = not accepted
is_refusal _ = false

-- from n on, one after the other
abbrev pub AreNumbered : ℕ → List OutputChunk → Type 0
AreNumbered n [] = Unit
AreNumbered n (c ∷ cs) = (c.sequence_number ≡ n) × AreNumbered (suc n) cs

AreNumbered-append :
    (n : ℕ) (cs : List OutputChunk) (c : OutputChunk)
    → AreNumbered n cs
    → c.sequence_number ≡ n + length cs
    → AreNumbered n (cs ++ c ∷ [])
AreNumbered-append n [] c h e = (omega (arith, e), tt)
AreNumbered-append n (x ∷ cs) c h e = (h.0, AreNumbered-append (suc n) cs c h.1 (omega (arith, e)))

select-append {ℓ} :
    {A : Type ℓ} (p : A → Bool) (xs ys : List A) → select p (xs ++ ys) ≡ select p xs ++ select p ys
select-append p [] ys = refl
select-append p (x ∷ xs) ys = ground (arith, select-append p xs ys)

texts-append :
    (k : StreamKind) (xs ys : List OutputChunk) → texts k (xs ++ ys) ≡ texts k xs ++ texts k ys
texts-append k xs ys = rw (select-append _ xs ys) (map-append _ _ _)

module _ (decode : List ℕ → String) (size_of : String → ℕ) where
  abbrev IsNumbered : Run → Type 0
  IsNumbered r = AreNumbered 0 r.delivered × (r.sequence ≡ length r.delivered)

  step-IsNumbered : (e : Event) (r : Run) → IsNumbered r → IsNumbered (step decode size_of e r)
  unfolding step
  step-IsNumbered (received stdout [] now) r h = h
  step-IsNumbered (received stderr [] now) r h = h
  step-IsNumbered (received stdout (b ∷ bytes) now) r h = (
    AreNumbered-append 0 r.delivered _ h.0 (omega (arith, h.1)),
    omega (
      arith,
      h.1,
      length-append r.delivered (chunk_of decode size_of r.sequence stdout (b ∷ bytes) now ∷ []),
    ),
  )
  step-IsNumbered (received stderr (b ∷ bytes) now) r h = (
    AreNumbered-append 0 r.delivered _ h.0 (omega (arith, h.1)),
    omega (
      arith,
      h.1,
      length-append r.delivered (chunk_of decode size_of r.sequence stderr (b ∷ bytes) now ∷ []),
    ),
  )
  step-IsNumbered (answered stdout accepted) r h = h
  step-IsNumbered (answered stderr accepted) r h = h
  step-IsNumbered (exits n) r h = h

  run-IsNumbered : (es : List Event) (r : Run) → IsNumbered r → IsNumbered (run decode size_of es r)
  unfolding run
  run-IsNumbered [] r h = h
  run-IsNumbered (e ∷ es) r h = run-IsNumbered es (step decode size_of e r) (step-IsNumbered e r h)

  step-texts :
      (k : StreamKind) (e : Event) (r : Run)
      → texts k (step decode size_of e r).delivered
        ≡ texts k r.delivered ++ map decode (pieces_of k e)
  unfolding step
  step-texts k (received stdout [] now) r = sym (append-nil _)
  step-texts k (received stderr [] now) r = sym (append-nil _)
  step-texts stdout (received stdout (b ∷ bytes) now) r = texts-append stdout r.delivered _
  step-texts stderr (received stdout (b ∷ bytes) now) r = texts-append stderr r.delivered _
  step-texts stdout (received stderr (b ∷ bytes) now) r = texts-append stdout r.delivered _
  step-texts stderr (received stderr (b ∷ bytes) now) r = texts-append stderr r.delivered _
  step-texts k (answered stdout accepted) r = sym (append-nil _)
  step-texts k (answered stderr accepted) r = sym (append-nil _)
  step-texts k (exits n) r = sym (append-nil _)

  run-texts :
      (k : StreamKind) (es : List Event) (r : Run)
      → texts k (run decode size_of es r).delivered
        ≡ texts k r.delivered ++ map decode (pieces k es)
  unfolding run
  run-texts k [] r = sym (append-nil _)
  run-texts k (e ∷ es) r =
      run-texts k es (step decode size_of e r)
      ∙ ap (λ t. t ++ map decode (pieces k es)) (step-texts k e r)
      ∙ append_assoc (texts k r.delivered) (map decode (pieces_of k e)) (map decode (pieces k es))
      ∙ ap (λ t. texts k r.delivered ++ t) (sym (map-append decode (pieces_of k e) (pieces k es)))

  step-truncated :
      (e : Event) (r : Run) → (step decode size_of e r).truncated ≡ (r.truncated || is_refusal e)
  unfolding step
  step-truncated (received stdout [] now) r = ground arith
  step-truncated (received stderr [] now) r = ground arith
  step-truncated (received stdout (b ∷ bytes) now) r = ground arith
  step-truncated (received stderr (b ∷ bytes) now) r = ground arith
  step-truncated (answered stdout accepted) r = refl
  step-truncated (answered stderr accepted) r = refl
  step-truncated (exits n) r = ground arith

  run-truncated :
      (es : List Event) (r : Run)
      → (run decode size_of es r).truncated ≡ (r.truncated || any is_refusal es)
  unfolding run
  run-truncated [] r = ground arith
  run-truncated (e ∷ es) r =
      ground (arith, run-truncated es (step decode size_of e r), step-truncated e r)

  -- However the reads of the two streams, the answers of the callback and the end of the process
  -- interleave: the chunks are given to the callback with the numbers from 0 on, none twice and none
  -- left out; of each stream the texts are the decoded reads in their order; and the run is truncated
  -- exactly if a chunk was refused.
  pub run_lem :
      (es : List Event)
      → let r = run decode size_of es started in
        AreNumbered 0 r.delivered
        × ((k : StreamKind) → texts k r.delivered ≡ map decode (pieces k es))
        × (r.truncated ≡ any is_refusal es)
  run_lem es = (
    (run-IsNumbered es started (tt, refl)).0,
    λ k. run-texts k es started,
    run-truncated es started,
  )
